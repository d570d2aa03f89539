-- ===== src/Sequential/Edge.antt =====
-- Histories at which the executor and the meaning of an orchestrator part.
use durabletask_rs.Prelude.{
  ◌<◌, ◌≡◌, refl, ap, ◌∙◌, ◌++◌, String, Option, none, some, List, [], ◌∷◌, arith,
}
use durabletask_rs.Prelude.Int.{ℤ, pos, i32_max, i32_succ}
use durabletask_rs.Prelude.HashMap.{insert, remove, lookup}
use durabletask_rs.Prelude.Outcome.{returns, panics, resumed_after_completion, ◌>>=◌}
use durabletask_rs.Prelude.Result.{ok}
use durabletask_rs.Task.{CompletableTask, new_task}
use durabletask_rs.Proto.{Timestamp, HistoryEvent}
use durabletask_rs.Internal.Events.{new_execution_started_event, new_task_completed_event}
use durabletask_rs.Types.Context.{Events, Host, World, new_context, send_request, start_task}
use durabletask_rs.Types.Async.{Async, output, finished, await_task, poll_async}
use durabletask_rs.Types.Function.{OrchestratorResult, OrchestratorFunction}
use durabletask_rs.Registry.{Registry, get_orchestrator}
use durabletask_rs.Executor.Context.{new_executor_context, get_actions, drain}
use durabletask_rs.Executor.Poll.{drop_held, poll_unwrap}
use durabletask_rs.Executor.Event.{complete_task}
use durabletask_rs.Executor.Execute.{round, process_events, execute}
use durabletask_rs.Executor.Replay.{execute-append, process_events-append}
use durabletask_rs.Executor.Quiet.{AreQuiet, Rests, resting, process_events-Rests}
use durabletask_rs.Sequential.FanOut.{start_all}
use durabletask_rs.Sequential.{
  Request, request_action, reply, start_request, asked_event, replied_event,
}
use durabletask_rs.Sequential.Poll.{idle_world, poll_start, i32_succ_below}
use durabletask_rs.Sequential.Round.{context, round_asked, round_replied}
use durabletask_rs.Sequential.Replay.{round_started, zero_time}

module _ {Chan Act : Type 0} (host : Host Chan) (registry : Registry Act) (id : String)
    (now : Timestamp) (uuid name : String) (input : Option String) (f : OrchestratorFunction)
    (found : get_orchestrator registry name ≡ some f) where
  abbrev start : HistoryEvent
  start = new_execution_started_event now uuid name id input none none none

  -- Code that starts requests and returns does so at its first poll, and changes no event.
  poll_started :
      (result : OrchestratorResult String) (requests : List Request)
      (k : List CompletableTask → Async (OrchestratorResult String)) (w : World Chan)
      → ((tasks : List CompletableTask) → k tasks ≡ output result)
      → (w' : World Chan) × (poll_async host (start_all requests k) w
          ≡ returns (finished result, w'))
  unfolding poll_async
  poll_started result [] k w h = (w, rw (h []))
  poll_started result (q ∷ requests) k w h =
      let (task, sent) = send_request host (request_action host.clock q) w in
      let (w', e) = poll_started result requests (λ tasks. k (task ∷ tasks)) sent (λ tasks. h _) in
      (w', poll_start host q _ w ∙ e)

  -- The round of the start: the future is dropped with all that it sent.
  round_returned :
      (result : OrchestratorResult String) (requests : List Request) (time : Timestamp)
      (received : Events)
      → f (new_context id input) ≡ start_all requests (λ tasks. output result)
      → (channels : List Chan) × Rests none
          (pos 0)
          channels
          (round host registry id start (resting none (pos 0) [] time received))
  unfolding round new_execution_started_event drain
  round_returned result requests time received code =
      let (w, e) =
        poll_started result requests (λ tasks. output result)
          (record { octx = new_context id input; received_events = received; channels = [] })
          (λ tasks. refl) in
      (drop_held host w.held w.channels, (time, w.received_events, rw (found, code, e)))

  -- An orchestrator that starts any requests and returns without awaiting one is never completed:
  -- the executor answers no action, neither its result nor its requests, whatever it returned. Before
  -- and after its start there may be any events at which the executor does not poll, but no
  -- termination and no other start, and the history may be cut anywhere.
  pub execute_returned_at_once :
      (result : OrchestratorResult String) (requests : List Request)
      (before after old_events new_events : List HistoryEvent)
      → f (new_context id input) ≡ start_all requests (λ tasks. output result)
      → AreQuiet before
      → AreQuiet after
      → old_events ++ new_events ≡ before ++ start ∷ after
      → execute host registry id old_events new_events ≡ returns (ok [])
  unfolding execute process_events new_executor_context get_actions
  execute_returned_at_once result requests before after old_events new_events code q q' cut =
      let (time, received, e) =
        process_events-Rests host registry id none (pos 0) [] before zero_time [] q in
      let (channels, (time', received', e')) = round_returned result requests time received code in
      let (time'', received'', e'') =
        process_events-Rests host registry id none (pos 0) channels after time' received' q' in
      execute-append host registry id old_events new_events
      ∙ ap (execute host registry id []) cut
      ∙ rw (
        process_events-append host registry id before (start ∷ after) new_executor_context,
        e,
        e',
        e'',
      )

  one_below : 1 < i32_max
  unfolding i32_max
  one_below = omega arith

  module _ (q : Request) (k : String → Async (OrchestratorResult String))
      (code : f (new_context id input) ≡ start_request q (λ task. await_task task k)) where
    -- The context after the first reply.
    after_reply :
        (r : String) (rest_events : List HistoryEvent)
        → (rest : List Chan) × (process_events host registry id
              (start
                ∷ asked_event host.clock now q (pos 1)
                ∷ replied_event host.clock now q (pos 1) r
                ∷ rest_events)
              new_executor_context
            ≡ (poll_unwrap host
                  (context host id input zero_time 1 (some (k (reply q r))) [] [] [] rest)
                >>= (λ c. returns (drain host c))
                >>= process_events host registry id rest_events))
    unfolding process_events
    after_reply r rest_events =
        let (rest, e) = round_replied host id input zero_time registry now q k 0 [] r in
        (
          rest,
          rw (
            round_started host registry id now uuid name input f q k found code,
            round_asked host id input zero_time registry now q k 0 [],
            e,
          ),
        )

    -- An orchestrator that starts a request and returns without awaiting it, in the poll after the
    -- first reply: the request has the number of the completion and replaces it, so the orchestration
    -- is never completed.
    pub execute_completion_lost :
        (r : String) (last : Request) (result : OrchestratorResult String)
        → k (reply q r) ≡ start_request last (λ task. output result)
        → execute host registry id [] (
            start
            ∷ asked_event host.clock now q (pos 1)
            ∷ replied_event host.clock now q (pos 1) r
            ∷ [])
          ≡ returns (ok (request_action host.clock last (pos 2) ∷ []))
    unfolding execute process_events new_executor_context poll_unwrap poll_async send_request drain
        insert lookup get_actions start_task new_task i32_succ
    execute_completion_lost r last result e =
        let (rest, p) = after_reply r [] in
        rw (
          p,
          e,
          poll_start host last (λ task. output result) (idle_world host id input [] 1 [] rest),
          i32_succ_below 1 one_below,
        )

    -- An activity's result that comes after the orchestrator has returned: the executor polls the
    -- future again, and panics.
    pub execute_polled_again :
        (r : String) (result : OrchestratorResult String) (task_id : ℤ) (late : Option String)
        → k (reply q r) ≡ output result
        → execute host registry id [] (
            start
            ∷ asked_event host.clock now q (pos 1)
            ∷ replied_event host.clock now q (pos 1) r
            ∷ new_task_completed_event now task_id late
            ∷ [])
          ≡ panics resumed_after_completion
    unfolding execute process_events new_executor_context poll_unwrap poll_async drain insert lookup
        remove round complete_task new_task_completed_event
    execute_polled_again r result task_id late e =
        let (rest, p) = after_reply r (new_task_completed_event now task_id late ∷ []) in rw (p, e)
