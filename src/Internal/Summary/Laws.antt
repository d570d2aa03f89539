-- ===== src/Internal/Summary/Laws.antt =====
-- The summaries of internal.rs against an independent description.
use Prim.Native.String.{◌++◌}
use native.Mathlib.Numerals.{add-one}
use text.Mathlib.TextLemmas.{append_assoc, append-nil}
use durabletask_rs.Prelude.{
  ℕ, zero, suc, ◌+◌, ◌≡◌, refl, ap, ◌∙◌, String, List, [], ◌∷◌, Option, none, some, nat_beq, take,
  length, ltb, leb, if◌then◌else◌, arith, map, true, false,
}
use durabletask_rs.Prelude.Int.{ℤ, pos, negsuc, int_beq}
use durabletask_rs.Prelude.Decimal.{to_string}
use durabletask_rs.Prelude.Outcome.{Outcome, returns, panics, unwrap_none, ◌>>=◌}
use durabletask_rs.Proto.{
  HistoryEvent, OrchestratorAction, EventType, ParentInstanceInfo, execution_started,
  task_completed, task_failed, sub_orchestration_instance_completed,
  sub_orchestration_instance_failed, timer_fired,
}
use durabletask_rs.Internal.Names.{
  get_action_type_name, get_history_event_type_name, get_task_id, task_id_of_type, parent_task_id,
}
use durabletask_rs.Internal.Summary.{
  id_suffix, event_item, action_item, summary_loop, list_summary, history_list_summary,
  action_list_summary,
}

-- The texts of a list of items, or the first panic.
module _ {A : Type 0} (item : A → Outcome String) where
  unfoldable pub item_texts : List A → Outcome (List String)
  item_texts [] = returns []
  item_texts (x ∷ xs) = do text ← item x; texts ← item_texts xs; returns (text ∷ texts)

-- Each text behind a comma.
unfoldable pub listed : List String → String
listed [] = ""
listed (t ∷ ts) = ", " ++ (t ++ listed ts)

-- The texts with commas between them.
unfoldable pub joined : List String → String
unfolding listed
joined [] = ""
joined (t ∷ ts) = t ++ listed ts

-- What marks a list of more than `n` items.
abbrev pub ellipsis {ℓ} : {A : Type ℓ} → ℕ → List A → String
ellipsis n xs = if ltb n (length xs) then ", ..." else ""

-- A summary: at most ten items, commas between them, and dots where more were left out.
abbrev pub summary_of : {A : Type 0} → (A → Outcome String) → List A → Outcome String
summary_of item xs = do
  texts ← item_texts item (take 10 xs)
  returns ("[" ++ (joined texts ++ (ellipsis 10 xs ++ "]")))

ltb_zero_suc : (n : ℕ) → ltb 0 (suc n) ≡ true
ltb_zero_suc n = ground arith

ltb_right_zero : (n : ℕ) → ltb n 0 ≡ false
ltb_right_zero n = ground arith

ltb_step : (m n : ℕ) → ltb (suc m) (suc n) ≡ ltb m n
ltb_step m n = ground arith

-- One more text, regrouped.
add_text :
    (sb text dots : String) (rest : Outcome (List String))
    → (rest >>= λ texts. returns (((sb ++ ", ") ++ text) ++ (listed texts ++ dots))) ≡ (
        rest >>= (λ texts. returns (text ∷ texts)) >>= λ texts.
        returns (sb ++ (listed texts ++ dots)))
unfolding listed
add_text sb text dots (panics p) = refl
add_text sb text dots (returns texts) = simp append_assoc

close_text :
    (text dots : String) (rest : Outcome (List String))
    → (rest >>= (λ ts. returns (("[" ++ text) ++ (listed ts ++ dots))) >>= λ sb.
        returns (sb ++ "]"))
      ≡ (rest >>= (λ ts. returns (text ∷ ts)) >>= λ ts.
          returns ("[" ++ (joined ts ++ (dots ++ "]"))))
unfolding joined
close_text text dots (panics p) = refl
close_text text dots (returns ts) = simp append_assoc

module _ {A : Type 0} (item : A → Outcome String) where
  -- One round of the loop, with what the rest of the loop does given.
  loop_round :
      (sb dots : String) (o : Outcome String) (rest : String → Outcome String)
      (texts : Outcome (List String))
      → ((text : String)
          → rest text ≡ (texts >>= λ ts. returns (((sb ++ ", ") ++ text) ++ (listed ts ++ dots))))
      → (o >>= rest) ≡ (
          o >>= (λ text. texts >>= λ ts. returns (text ∷ ts)) >>= λ ts.
          returns (sb ++ (listed ts ++ dots)))
  loop_round sb dots (panics p) rest texts h = refl
  loop_round sb dots (returns text) rest texts h = h text ∙ add_text sb text dots texts

  -- From the second item on, `k` items may still be shown.
  loop_tail :
      (k i : ℕ) (sb : String) (xs : List A)
      → suc i + k ≡ 10
      → summary_loop item (suc i) sb xs
        ≡ (item_texts item (take k xs) >>= λ texts. returns (sb ++ (listed texts ++ ellipsis k xs)))
  unfolding summary_loop item_texts listed
  loop_tail zero i sb [] h = rw append-nil
  loop_tail (suc k) i sb [] h = rw (ltb_right_zero (suc k), append-nil)
  loop_tail zero i sb (x ∷ xs) h =
      let last : leb 10 (suc i) ≡ true = ground arith in
      rw (last, ltb_zero_suc i, ltb_zero_suc (length xs), append_assoc) refl
  loop_tail (suc k) i sb (x ∷ xs) h =
      let more : leb 10 (suc i) ≡ false = ground arith in
      rw (more, ltb_zero_suc i, ltb_step k (length xs))
        (loop_round sb (ellipsis k xs) (item x) _ (item_texts item (take k xs)) (λ text.
          rw (add-one (suc i)) (loop_tail k (suc i) ((sb ++ ", ") ++ text) xs (omega (arith, h)))))

  first_round :
      (dots : String) (o : Outcome String) (rest : String → Outcome String)
      (texts : Outcome (List String))
      → ((text : String)
          → rest text ≡ (texts >>= λ ts. returns (("[" ++ text) ++ (listed ts ++ dots))))
      → (o >>= rest >>= λ sb. returns (sb ++ "]")) ≡ (
          o >>= (λ text. texts >>= λ ts. returns (text ∷ ts)) >>= λ ts.
          returns ("[" ++ (joined ts ++ (dots ++ "]"))))
  first_round dots (panics p) rest texts h = refl
  first_round dots (returns text) rest texts h = rw (h text) (close_text text dots texts)

  -- The loop writes what `summary_of` describes, or panics where an item does.
  pub list_summary_lem : (xs : List A) → list_summary item xs ≡ summary_of item xs
  unfolding list_summary summary_loop item_texts joined
  list_summary_lem [] = refl
  list_summary_lem (x ∷ xs) = rw (ltb_step 9 (length xs)) (
      first_round (ellipsis 9 xs) (item x) _ (item_texts item (take 9 xs))
        (λ text. loop_tail 9 0 ("[" ++ text) xs refl))

-- The number of the request that an event replies to; a start is the reply to the parent's request.
abbrev pub replied_number : Option EventType → Outcome ℤ
replied_number (some (task_completed t)) = returns t.task_scheduled_id
replied_number (some (task_failed t)) = returns t.task_scheduled_id
replied_number (some (sub_orchestration_instance_completed so)) = returns so.task_scheduled_id
replied_number (some (sub_orchestration_instance_failed so)) = returns so.task_scheduled_id
replied_number (some (timer_fired t)) = returns t.timer_id
replied_number (some (execution_started e)) = elim e.parent_instance [
  | none ↦ panics unwrap_none
  | some parent ↦ returns parent.task_scheduled_id
]
replied_number _ = returns (negsuc 0)

-- The number that an event is shown with: its own, or that of the request if it has none.
abbrev pub shown_number : HistoryEvent → Outcome ℤ
shown_number e = elim e.event_id [
  | pos n ↦ if nat_beq n 0 then replied_number e.event_type else returns (pos n)
  | negsuc n ↦ returns (negsuc n)
]

-- A name with a number behind it, which is not shown if it is negative.
abbrev pub numbered : String → Outcome ℤ → Outcome String
numbered name (returns (pos n)) = returns (name ++ ("#" ++ to_string n))
numbered name (returns (negsuc n)) = returns name
numbered name (panics p) = panics p

abbrev pub event_text : HistoryEvent → Outcome String
event_text e = numbered (get_history_event_type_name e) (shown_number e)

task_id_of_type-replied_number : (t : Option EventType) → task_id_of_type t ≡ replied_number t
unfolding task_id_of_type
task_id_of_type-replied_number none = refl
task_id_of_type-replied_number (some (execution_started e)) = go e.parent_instance
  where
    go :
        (parent : Option ParentInstanceInfo)
        → parent_task_id parent
          ≡ elim parent [ none ↦ panics unwrap_none | some p ↦ returns p.task_scheduled_id ]
    go none = refl
    go (some p) = refl
task_id_of_type-replied_number (some _) = refl

get_task_id-shown_number : (e : HistoryEvent) → get_task_id e ≡ shown_number e
unfolding get_task_id
get_task_id-shown_number e = rw (task_id_of_type-replied_number e.event_type) (go e.event_id)
  where
    go :
        (id : ℤ)
        → (if int_beq id (pos 0) then replied_number e.event_type else returns id) ≡ elim id [
          | pos n ↦ if nat_beq n 0 then replied_number e.event_type else returns (pos n)
          | negsuc n ↦ returns (negsuc n)
        ]
    go (pos n) = refl
    go (negsuc n) = refl

event_item-event_text : (e : HistoryEvent) → event_item e ≡ event_text e
unfolding event_item
event_item-event_text e = rw (get_task_id-shown_number e) (go (shown_number e))
  where
    go :
        (o : Outcome ℤ)
        → (o >>= λ task_id. returns (get_history_event_type_name e ++ id_suffix task_id))
          ≡ numbered (get_history_event_type_name e) o
    go (returns (pos n)) = refl
    go (returns (negsuc n)) = ap returns (append-nil (get_history_event_type_name e))
    go (panics p) = refl

item_texts-ext :
    {A : Type 0} {item item' : A → Outcome String} (xs : List A)
    → ((x : A) → item x ≡ item' x)
    → item_texts item xs ≡ item_texts item' xs
unfolding item_texts
item_texts-ext [] h = refl
item_texts-ext (x ∷ xs) h = rw (h x, item_texts-ext xs h)

-- A history is summarised by its first ten events with commas between them, and dots if there are
-- more than ten. An event is shown by the name that get_history_event_type_name gives, and behind
-- `#` its own id or, if that is 0, the number of the request that it replies to, unless the number is
-- negative or there is none. The summary panics exactly where one of those ten is a start with the id 0 and without a parent.
pub history_list_summary_lem :
    (es : List HistoryEvent) → history_list_summary es ≡ summary_of event_text es
unfolding history_list_summary
history_list_summary_lem es =
    list_summary_lem event_item es ∙ rw (item_texts-ext (take 10 es) event_item-event_text)

-- The text of one action: its name, and its id if that is not negative.
abbrev pub action_text : OrchestratorAction → String
action_text a = get_action_type_name a ++ id_suffix a.id

item_texts_total :
    {A : Type 0} (text : A → String) (xs : List A)
    → item_texts (λ a. returns (text a)) xs ≡ returns (map text xs)
unfolding item_texts
item_texts_total text [] = refl
item_texts_total text (x ∷ xs) = rw (item_texts_total text xs)

-- A list of actions is summarised by its first ten actions, each with its name and its id if that
-- is not negative, with commas between them, and dots if there are more than ten. It never panics.
pub action_list_summary_lem :
    (xs : List OrchestratorAction)
    → action_list_summary xs
      ≡ returns ("[" ++ (joined (map action_text (take 10 xs)) ++ (ellipsis 10 xs ++ "]")))
unfolding action_list_summary
action_list_summary_lem xs =
    list_summary_lem action_item xs
    ∙ ap
        (λ (o : Outcome (List String)).
          o >>= λ texts. returns ("[" ++ (joined texts ++ (ellipsis 10 xs ++ "]"))))
        (item_texts_total action_text (take 10 xs))
