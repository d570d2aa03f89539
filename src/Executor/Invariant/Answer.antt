-- ===== src/Executor/Invariant/Answer.antt =====
-- What the invariant means for the actions that the executor answers with.
use durabletask_rs.Prelude.{◌≡◌, refl, subst, String, List, [], ◌∷◌, map, All}
use mathlib.Core.List.{Nodup}
use durabletask_rs.Prelude.Int.{ℤ, int_eq}
use durabletask_rs.Prelude.HashMap.{HashMap, values}
use durabletask_rs.Prelude.HashMap.All.{IsDistinct-Nodup}
use durabletask_rs.Prelude.Result.{Result, ok, err}
use durabletask_rs.Proto.{OrchestratorAction, HistoryEvent}
use durabletask_rs.Types.Context.{Host}
use durabletask_rs.Registry.{Registry}
use durabletask_rs.Executor.Context.{
  OrchestrationExecutorContext, new_executor_context, get_actions,
}
use durabletask_rs.Executor.Execute.{process_events, execute, set_replaying, clear_replaying}
use durabletask_rs.Executor.Invariant.{Holds, Holds-bind, IsNumbered, IsConsistent}
use durabletask_rs.Executor.Invariant.Run.{process_events-IsConsistent}

-- Under their own numbers, the actions have the map's keys as their ids.
ids_lem :
    (m : HashMap ℤ OrchestratorAction)
    → All IsNumbered m
    → map (λ (x : ℤ × OrchestratorAction). x.0) m
      ≡ map (λ (a : OrchestratorAction). a.id) (values m)
unfolding values
ids_lem [] h = refl
ids_lem ((n, a) ∷ m) h = cc (ids_lem m h.1, h.0)

pub new_executor_context-IsConsistent :
    (Chan : Type 0) → IsConsistent {Chan = Chan} new_executor_context
unfolding new_executor_context
new_executor_context-IsConsistent Chan = record {
  running = refl;
  numbered = tt;
  distinct = tt;
  distinct_tasks = tt;
  filled = tt;
  waited = tt;
  sent = tt;
}

module _ {Chan : Type 0} where
  get_actions-Nodup :
      (c : OrchestrationExecutorContext Chan)
      → IsConsistent c
      → Nodup (map (λ (a : OrchestratorAction). a.id) (get_actions c))
  unfolding get_actions
  get_actions-Nodup c h =
      subst Nodup (ids_lem c.pending_actions h.numbered)
        (IsDistinct-Nodup c.pending_actions h.distinct)

-- Actions with pairwise different ids, and no error.
abbrev pub IsAnswer : Result String (List OrchestratorAction) → Type 0
IsAnswer (ok actions) = Nodup (map (λ (a : OrchestratorAction). a.id) actions)
IsAnswer (err e) = ⊥

module _ {Chan Act : Type 0} (host : Host Chan) (registry : Registry Act) (id : String) where
  -- Where the executor does not panic it answers `Ok`, and the actions of its answer have pairwise
  -- different ids, for any histories and any code of the orchestrators.
  pub execute-IsAnswer :
      (old_events new_events : List HistoryEvent)
      → Holds IsAnswer (execute host registry id old_events new_events)
  unfolding execute
  execute-IsAnswer old_events new_events =
      Holds-bind IsConsistent IsAnswer
        (process_events host registry id old_events (set_replaying new_executor_context)) _
        (process_events-IsConsistent host registry id old_events
          (set_replaying new_executor_context) (new_executor_context-IsConsistent Chan))
        (λ c h.
          Holds-bind IsConsistent IsAnswer
            (process_events host registry id new_events (clear_replaying c)) _
            (process_events-IsConsistent host registry id new_events (clear_replaying c) h)
            get_actions-Nodup)
