-- ===== src/Internal/Summary.antt =====
-- `history_list_summary` and `action_list_summary` of internal.rs: one loop over two kinds of items.
pub mod Laws
use Prim.Native.String.{◌++◌}
use durabletask_rs.Prelude.{ℕ, ◌+◌, String, List, [], ◌∷◌, ltb, leb, if◌then◌else◌}
use durabletask_rs.Prelude.Int.{ℤ, pos, negsuc}
use durabletask_rs.Prelude.Decimal.{to_string}
use durabletask_rs.Prelude.Outcome.{Outcome, returns, ◌>>=◌}
use durabletask_rs.Proto.{HistoryEvent, OrchestratorAction}
use durabletask_rs.Internal.Names.{get_task_id, get_history_event_type_name, get_action_type_name}

-- `if id >= 0 { sb.push('#'); sb.push_str(&id.to_string()) }`
abbrev pub id_suffix : ℤ → String
id_suffix (pos n) = "#" ++ to_string n
id_suffix (negsuc n) = ""

unfoldable pub event_item : HistoryEvent → Outcome String
unfolding get_task_id get_history_event_type_name to_string
event_item e = do
  task_id ← get_task_id e
  returns (get_history_event_type_name e ++ id_suffix task_id)

unfoldable pub action_item : OrchestratorAction → Outcome String
unfolding get_action_type_name to_string
action_item a = returns (get_action_type_name a ++ id_suffix a.id)

-- The text that stands before the item at an index.
abbrev pub separator : ℕ → String
separator i = if ltb 0 i then ", " else ""

module _ {A : Type 0} (item : A → Outcome String) where
  -- The loop at index `i`, with `sb` the text so far.
  unfoldable pub summary_loop : ℕ → String → List A → Outcome String
  summary_loop i sb [] = returns sb
  summary_loop i sb (x ∷ xs) =
      if leb 10 i
      then returns ((sb ++ separator i) ++ "...")
      else do text ← item x; summary_loop (i + 1) ((sb ++ separator i) ++ text) xs

  unfoldable pub list_summary : List A → Outcome String
  unfolding summary_loop
  list_summary xs = do sb ← summary_loop 0 "[" xs; returns (sb ++ "]")

unfoldable pub history_list_summary : List HistoryEvent → Outcome String
unfolding list_summary event_item
history_list_summary = list_summary event_item

unfoldable pub action_list_summary : List OrchestratorAction → Outcome String
unfolding list_summary action_item
action_list_summary = list_summary action_item
