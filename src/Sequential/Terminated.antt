-- ===== src/Sequential/Terminated.antt =====
-- An orchestrator that is terminated while it waits, at any point of its history.
use durabletask_rs.Prelude.{
  ℕ, suc, ◌<◌, ◌≡◌, ap, ◌∙◌, String, Bool, true, false, Option, none, some, List, [], ◌∷◌, ◌++◌,
  length, arith,
}
use durabletask_rs.Prelude.Int.{pos, i32_max, int_eq, int_beq}
use durabletask_rs.Prelude.HashMap.{insert}
use durabletask_rs.Prelude.Outcome.{returns, ◌>>=◌}
use durabletask_rs.Prelude.Result.{ok}
use durabletask_rs.Proto.{Timestamp, HistoryEvent, OrchestratorAction, terminated}
use durabletask_rs.Internal.Events.{new_execution_terminated_event}
use durabletask_rs.Internal.Actions.{new_complete_orchestration_action}
use durabletask_rs.Types.Context.{Host, new_context}
use durabletask_rs.Types.Function.{OrchestratorFunction}
use durabletask_rs.Registry.{Registry, get_orchestrator}
use durabletask_rs.Executor.Context.{get_actions, drain}
use durabletask_rs.Executor.Event.{terminate}
use durabletask_rs.Executor.Execute.{round, process_events, execute}
use durabletask_rs.Executor.Replay.{execute-append}
use durabletask_rs.Sequential.{Request, Script, ask, code_of, asked_event, request_action}
use durabletask_rs.Sequential.Poll.{i32_succ_below}
use durabletask_rs.Sequential.Round.{current, round_asked}
use durabletask_rs.Sequential.Waiting.{left_after, history_then, actions_of, execute_then}
use durabletask_rs.Sequential.Replay.{zero_time}

module _ {Chan Act : Type 0} (host : Host Chan) (registry : Registry Act) (id : String)
    (now : Timestamp) (input : Option String) where
  module _ (reason : Option String) (recurse : Bool) where
    abbrev termination : HistoryEvent
    termination = new_execution_terminated_event now reason recurse

    abbrev terminated_action : ℕ → OrchestratorAction
    terminated_action n = new_complete_orchestration_action (pos n) terminated none [] none

    -- A termination at a request, which was acknowledged or not.
    at_request :
        (q : Request) (k : String → Script) (m : ℕ) (channels : List Chan)
        → suc m < i32_max
        → (actions_of host registry id now input (
              current host id input zero_time m (ask q k) channels
              >>= process_events host registry id (termination ∷ []))
            ≡ returns (
                ok (
                  request_action host.clock q (pos (suc m))
                  ∷ terminated_action (suc (suc m))
                  ∷ [])))
          × (actions_of host registry id now input (
                current host id input zero_time m (ask q k) channels
                >>= process_events host registry id
                    (asked_event host.clock now q (pos (suc m)) ∷ termination ∷ []))
              ≡ returns (ok (terminated_action (suc (suc m)) ∷ [])))
    unfolding process_events round new_execution_terminated_event terminate drain insert get_actions
    at_request q k m channels h = (
      (let other : int_beq (pos (suc m)) (pos (suc (suc m))) ≡ false = ground arith in
          rw (i32_succ_below (suc m) h, other)),
      rw (
        round_asked host id input zero_time registry now q (λ x. code_of (k x)) m channels,
        i32_succ_below (suc m) h,
      ),
    )

    module _ (uuid name : String) (f : OrchestratorFunction) (q : Request) (k : String → Script)
        (replies : List String) (q' : Request) (k' : String → Script)
        (found : get_orchestrator registry name ≡ some f)
        (code : f (new_context id input) ≡ code_of (ask q k))
        (waits : left_after (ask q k) replies ≡ ask q' k')
        (few : suc (length replies) < i32_max) where
      -- The history up to the request that the code waits for, and some events behind it.
      abbrev history_with : List HistoryEvent → List HistoryEvent
      history_with events = history_then host id now input uuid name (ask q k) replies events

      -- The events behind the replies, and the actions that are then due.
      abbrev last_events : Bool → List HistoryEvent
      last_events true =
          asked_event host.clock now q' (pos (suc (length replies))) ∷ termination ∷ []
      last_events false = termination ∷ []

      abbrev last_actions : Bool → List OrchestratorAction
      last_actions true = terminated_action (suc (suc (length replies))) ∷ []
      last_actions false =
          request_action host.clock q' (pos (suc (length replies)))
          ∷ terminated_action (suc (suc (length replies)))
          ∷ []

      terminated_at :
          (acknowledged : Bool) (later : List Chan)
          → actions_of host registry id now input (
              current host id input zero_time (length replies) (ask q' k') later
              >>= process_events host registry id (last_events acknowledged))
            ≡ returns (ok (last_actions acknowledged))
      terminated_at true later = (at_request q' k' (length replies) later few).1
      terminated_at false later = (at_request q' k' (length replies) later few).0

      -- A termination completes an orchestrator that awaits each of its requests, at any point of its
      -- history at which it waits, as terminated and under the next number; the request that it waits
      -- for is still asked for if it was not acknowledged. The history may be cut anywhere, and fewer
      -- than 2 ^ 31 - 2 requests were replied to.
      pub execute_terminated :
          (acknowledged : Bool) (old_events new_events : List HistoryEvent)
          → old_events ++ new_events ≡ history_with (last_events acknowledged)
          → execute host registry id old_events new_events
            ≡ returns (ok (last_actions acknowledged))
      execute_terminated acknowledged old_events new_events cut =
          let (later, e) =
            execute_then host registry id now input uuid name f q k replies q' k'
              (last_events acknowledged) found code waits (omega arith) in
          execute-append host registry id old_events new_events
          ∙ ap (execute host registry id []) cut
          ∙ e
          ∙ terminated_at acknowledged later
