-- ===== src/Sequential/Lost.antt =====
-- Replies with which an orchestrator's code does not go on.
use durabletask_rs.Prelude.{
  ◌≡◌, ℕ, suc, ◌<◌, ap, ◌∙◌, ◌++◌, length, get_or-append_last, set-append_last, String, Option,
  none, some, List, [], ◌∷◌,
}
use durabletask_rs.Prelude.Int.{pos, i32_max}
use durabletask_rs.Prelude.HashMap.{lookup_only, remove_only}
use durabletask_rs.Prelude.Outcome.{returns}
use durabletask_rs.Prelude.Result.{ok}
use durabletask_rs.Task.{poll_task}
use durabletask_rs.Proto.{Timestamp, HistoryEvent}
use durabletask_rs.Internal.Events.{new_execution_started_event, new_task_completed_event}
use durabletask_rs.Types.Context.{Host, new_context}
use durabletask_rs.Types.Async.{Async, await_task, poll_async}
use durabletask_rs.Types.Function.{OrchestratorResult, OrchestratorFunction}
use durabletask_rs.Registry.{Registry, get_orchestrator}
use durabletask_rs.Executor.Context.{OrchestrationExecutorContext, get_actions, drain}
use durabletask_rs.Executor.Poll.{poll_unwrap}
use durabletask_rs.Executor.Event.{complete_task}
use durabletask_rs.Executor.Execute.{round, process_events, execute}
use durabletask_rs.Sequential.{Script, ask, code_of, Request, activity, start_request, asked_event}
use durabletask_rs.Sequential.Poll.{task_on, fresh, idle}
use durabletask_rs.Sequential.Round.{acknowledged, context, round_asked}
use durabletask_rs.Executor.Replay.{execute-append}
use durabletask_rs.Executor.Quiet.{AreQuiet, process_events-Rests}
use durabletask_rs.Sequential.Waiting.{left_after, history_then, execute_then}
use durabletask_rs.Sequential.Replay.{zero_time}

module _ {Chan Act : Type 0} (host : Host Chan) (registry : Registry Act) (id : String)
    (now : Timestamp) (uuid name : String) (input : Option String) (f : OrchestratorFunction)
    (activity_name : String) (activity_input : Option String)
    (k : String → Async (OrchestratorResult String))
    (found : get_orchestrator registry name ≡ some f)
    (code : f (new_context id input)
      ≡ start_request (activity activity_name activity_input) (λ task. await_task task k)) where
  abbrev call : Request
  call = activity activity_name activity_input

  -- The history up to the acknowledgement of the activity, and an event that comes then.
  abbrev called_then : HistoryEvent → List HistoryEvent
  called_then event =
      new_execution_started_event now uuid name id input none none none
      ∷ asked_event host.clock now call (pos 1)
      ∷ event
      ∷ []

  -- The context after the acknowledgement, as a history without replies has it.
  abbrev before : OrchestrationExecutorContext Chan
  before = acknowledged host id input zero_time 0 call k []

module _ {Chan Act : Type 0} (host : Host Chan) (registry : Registry Act) (id : String)
    (now : Timestamp) (input : Option String) where
  -- A result that is none drops the task's sender, and the poll behind it finds the task pending.
  round_completed_empty :
      (m : ℕ) (q : Request) (k : String → Async (OrchestratorResult String)) (channels : List Chan)
      → round host registry id
          (new_task_completed_event now (pos (suc m)) none)
          (acknowledged host id input zero_time m q k channels)
        ≡ returns (
            context host id input zero_time
              (suc m)
              (some (await_task (task_on (length channels)) k))
              (length channels ∷ [])
              []
              []
              (channels ++ (host.oneshot.poll_recv (host.oneshot.drop_sender (fresh host))).1 ∷ []))
  unfolding round new_task_completed_event complete_task poll_unwrap poll_async poll_task drain
  round_completed_empty m q k channels = rw (
    lookup_only (pos (suc m)),
    remove_only (pos (suc m)),
    get_or-append_last channels (fresh host) (fresh host),
    set-append_last channels (fresh host) (host.oneshot.drop_sender (fresh host)),
    get_or-append_last channels (host.oneshot.drop_sender (fresh host)) (fresh host),
    host.oneshot.poll-drop_sender,
    set-append_last channels (host.oneshot.drop_sender (fresh host))
        (host.oneshot.poll_recv (host.oneshot.drop_sender (fresh host))).1,
  )

  -- An orchestrator that awaits each of its requests, with its first request at its first poll, and
  -- that waits for an activity: once that is acknowledged, its completion without a result is
  -- answered with no action, and the answer stays so behind any further events at which the executor
  -- does not poll, but for a termination and another start. The history may be cut anywhere, and
  -- fewer than 2 ^ 31 - 1 requests were replied to.
  pub execute_completed_empty :
      (uuid name : String) (f : OrchestratorFunction) (q : Request) (k : String → Script)
      (replies : List String) (activity_name : String) (activity_input : Option String)
      (k' : String → Script) (after old_events new_events : List HistoryEvent)
      → get_orchestrator registry name ≡ some f
      → f (new_context id input) ≡ code_of (ask q k)
      → left_after (ask q k) replies ≡ ask (activity activity_name activity_input) k'
      → length replies < i32_max
      → AreQuiet after
      → old_events ++ new_events
        ≡ history_then host id now input uuid name (ask q k) replies (
            asked_event host.clock now
              (activity activity_name activity_input)
              (pos (suc (length replies)))
            ∷ new_task_completed_event now (pos (suc (length replies))) none
            ∷ after)
      → execute host registry id old_events new_events ≡ returns (ok [])
  unfolding process_events get_actions
  execute_completed_empty uuid name f q k replies activity_name activity_input k' after old_events
        new_events found code waits few quiet cut =
      let q' = activity activity_name activity_input in
      let (later, e) =
        execute_then host registry id now input uuid name f q k replies q' k' _ found code waits
          few in
      let (time, received, p) =
        process_events-Rests host registry id
          (some (record {
            code = some (await_task (task_on (length later)) (λ r. code_of (k' r)));
            octx = idle host id input [] (suc (length replies)) (length later ∷ []);
          }))
          (pos (suc (length replies)))
          (later ++ (host.oneshot.poll_recv (host.oneshot.drop_sender (fresh host))).1 ∷ []) after
          zero_time [] quiet in
      execute-append host registry id old_events new_events
      ∙ ap (execute host registry id []) cut
      ∙ e
      ∙ rw (
        round_asked host id input zero_time registry now q' (λ r. code_of (k' r)) (length replies)
            later,
        round_completed_empty (length replies) q' (λ r. code_of (k' r)) later,
        p,
      )
