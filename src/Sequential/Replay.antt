-- ===== src/Sequential/Replay.antt =====
-- The executor agrees with the meaning of a script, at every point of its history.
use durabletask_rs.Prelude.{
  ℕ, suc, ◌+◌, ◌<◌, ◌≡◌, refl, ap, ◌∙◌, String, Option, none, some, List, [], ◌∷◌, ◌++◌, arith,
  length,
}
use durabletask_rs.Prelude.Int.{pos, i32_max, i32_max_pos}
use durabletask_rs.Prelude.HashMap.{insert, lookup}
use durabletask_rs.Prelude.Outcome.{Outcome, returns, ◌>>=◌}
use durabletask_rs.Prelude.Result.{Result, ok}
use durabletask_rs.Proto.{Timestamp, HistoryEvent, OrchestratorAction}
use durabletask_rs.Internal.Events.{new_execution_started_event}
use durabletask_rs.Types.Context.{Host, new_context}
use durabletask_rs.Types.Async.{Async, await_task}
use durabletask_rs.Types.Function.{OrchestratorResult, OrchestratorFunction}
use durabletask_rs.Registry.{Registry, get_orchestrator}
use durabletask_rs.Executor.Context.{new_executor_context, get_actions}
use durabletask_rs.Executor.Execute.{round, process_events, execute}
use durabletask_rs.Executor.Replay.{execute-append}
use durabletask_rs.Sequential.{
  Request, Script, finish, ask, fault, code_of, due_after, history_of, reply, start_request,
}
use durabletask_rs.Sequential.Poll.{poll_ask}
use durabletask_rs.Sequential.Round.{waiting, current, poll_script, round_asked, round_replied}

abbrev pub zero_time : Timestamp
zero_time = record { seconds = pos 0; nanos = pos 0 }

-- The answer with an action that is due.
abbrev pub answer_due :
    Outcome OrchestratorAction → Outcome (Result String (List OrchestratorAction))
answer_due due = due >>= λ action. returns (ok (action ∷ []))

module _ {Chan Act : Type 0} (host : Host Chan) (registry : Registry Act) (id : String) where
  -- The actions after the replies.
  replies_lem :
      (input : Option String) (time now : Timestamp) (m : ℕ) (s : Script) (replies : List String)
      (channels : List Chan)
      → m + length replies < i32_max
      → (current host id input time m s channels
          >>= process_events host registry id (history_of host.clock now (suc m) s replies)
          >>= λ c. returns (ok (get_actions c)))
        ≡ answer_due (due_after host.clock (suc m) s replies)
  unfolding process_events history_of get_actions
  replies_lem input time now m (finish result) replies channels h = refl
  replies_lem input time now m (fault p) replies channels h = refl
  replies_lem input time now m (ask q k) [] channels h = refl
  replies_lem input time now m (ask q k) (r ∷ replies) channels h =
      let (rest, e) =
        round_replied host id input time registry now q (λ x. code_of (k x)) m channels r in
      rw
        (
          round_asked host id input time registry now q (λ x. code_of (k x)) m channels,
          e,
          poll_script host id input time (k (reply q r)) (suc m) rest (omega arith),
        )
        (replies_lem input time now (suc m) (k (reply q r)) replies rest (omega arith))

  -- The event that starts the orchestrator runs its code up to the first request.
  pub round_started :
      (now : Timestamp) (uuid name : String) (input : Option String) (f : OrchestratorFunction)
      (q : Request) (k : String → Async (OrchestratorResult String))
      → get_orchestrator registry name ≡ some f
      → f (new_context id input) ≡ start_request q (λ task. await_task task k)
      → round host registry id
          (new_execution_started_event now uuid name id input none none none)
          new_executor_context
        ≡ returns (waiting host id input zero_time 0 q k [])
  unfolding round new_execution_started_event new_executor_context new_context insert lookup
  round_started now uuid name input f q k found code =
      rw (found, code, poll_ask host id input [] q k 0 [] [] i32_max_pos)

  from_start :
      (now : Timestamp) (uuid name : String) (input : Option String) (f : OrchestratorFunction)
      (q : Request) (k : String → Script) (replies : List String)
      → get_orchestrator registry name ≡ some f
      → f (new_context id input) ≡ code_of (ask q k)
      → length replies < i32_max
      → execute host registry id [] (
          new_execution_started_event now uuid name id input none none none
          ∷ history_of host.clock now 1 (ask q k) replies)
        ≡ answer_due (due_after host.clock 1 (ask q k) replies)
  unfolding execute process_events new_executor_context
  from_start now uuid name input f q k replies found code few =
      rw (round_started now uuid name input f q (λ x. code_of (k x)) found code)
        (replies_lem input zero_time now 0 (ask q k) replies [] (omega arith))

  -- An orchestrator that awaits each of its requests, with its first request at its first poll: at
  -- any point of its history, however the sidecar cuts that history into past and new events, the
  -- executor answers the one action that is due: the request with the next number after those that
  -- were replied to, or the completion with the orchestrator's result. It panics only where the code
  -- itself does. Fewer than 2 ^ 31 - 1 requests were replied to.
  pub execute-history_of :
      (now : Timestamp) (uuid name : String) (input : Option String) (f : OrchestratorFunction)
      (q : Request) (k : String → Script) (replies : List String)
      (old_events new_events : List HistoryEvent)
      → get_orchestrator registry name ≡ some f
      → f (new_context id input) ≡ code_of (ask q k)
      → length replies < i32_max
      → old_events ++ new_events
        ≡ new_execution_started_event now uuid name id input none none none
          ∷ history_of host.clock now 1 (ask q k) replies
      → execute host registry id old_events new_events
        ≡ answer_due (due_after host.clock 1 (ask q k) replies)
  execute-history_of now uuid name input f q k replies old_events new_events found code few cut =
      execute-append host registry id old_events new_events
      ∙ ap (execute host registry id []) cut
      ∙ from_start now uuid name input f q k replies found code few
