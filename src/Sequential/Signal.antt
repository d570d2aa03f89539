-- ===== src/Sequential/Signal.antt =====
-- An orchestrator that first awaits an external event, and the two orders in which the event and the
-- start of the orchestrator can come.
use durabletask_rs.Prelude.{
  ◌≡◌, refl, ap, ◌∙◌, String, Option, none, some, List, [], ◌∷◌, ◌++◌, length, string_eq, ◌==◌,
  true,
}
use durabletask_rs.Prelude.Int.{pos, i32_max_pos}
use durabletask_rs.Prelude.HashMap.{insert, remove, lookup, remove_only}
use durabletask_rs.Prelude.Outcome.{returns, panics, unwrap_none}
use durabletask_rs.Prelude.Result.{ok}
use durabletask_rs.Proto.{Timestamp, HistoryEvent}
use durabletask_rs.Internal.Events.{new_execution_started_event, new_event_raised_event}
use durabletask_rs.Task.{poll_task, new_task, complete}
use durabletask_rs.Types.Context.{Host, Events, new_context, signal_task, start_task, take_event}
use durabletask_rs.Types.Async.{
  poll_with, Async, output, finished, suspended, await_task, ask_signal, poll_async,
}
use durabletask_rs.Types.Function.{OrchestratorResult, OrchestratorFunction}
use durabletask_rs.Registry.{Registry, get_orchestrator}
use durabletask_rs.Executor.Context.{
  OrchestrationExecutorContext, new_executor_context, get_actions, drain, push_back,
}
use durabletask_rs.Executor.Poll.{poll_unwrap, world_of, completion_action}
use durabletask_rs.Executor.Event.{raise_event, send_to}
use durabletask_rs.Executor.Execute.{round, process_events, execute}
use durabletask_rs.Sequential.{Request, finish, start_request, request_action}
use durabletask_rs.Sequential.Poll.{
  i32_succ_below, idle_world, asked, poll_ask, fresh, task_on, poll_task-fresh,
}
use durabletask_rs.Sequential.Round.{context, waiting, current, poll_reply}
use durabletask_rs.Sequential.Replay.{zero_time}

module _ {Chan Act : Type 0} (host : Host Chan) (registry : Registry Act) (id : String)
    (now : Timestamp) (uuid name : String) (input : Option String) (f : OrchestratorFunction)
    (awaited raised : String) (k : String → Async (OrchestratorResult String))
    (found : get_orchestrator registry name ≡ some f)
    (code : f (new_context id input) ≡ ask_signal awaited (λ task. await_task task k))
    (same_name : host.to_lowercase raised ≡ host.to_lowercase awaited) where
  abbrev start : HistoryEvent
  start = new_execution_started_event now uuid name id input none none none

  -- The code waits for the event.
  abbrev pub listening : OrchestrationExecutorContext Chan
  listening =
      record (context host id input zero_time 0 (some (await_task (task_on 0) k)) (0 ∷ []) [] []
        (fresh host ∷ [])) { pending_events = (host.to_lowercase awaited, 0 ∷ []) ∷ [] }

  pub starts_listening : round host registry id start new_executor_context ≡ returns listening
  unfolding round new_execution_started_event new_executor_context new_context poll_async
      signal_task start_task new_task lookup drain push_back insert
  starts_listening = rw (found, code, poll_task-fresh host [])

  self : (host.to_lowercase awaited == host.to_lowercase awaited) ≡ true
  self = (string_eq.eq_iff (host.to_lowercase awaited) (host.to_lowercase awaited)).1 refl

  -- The event is kept until it is asked for.
  abbrev kept : Option String → OrchestrationExecutorContext Chan
  kept payload = record new_executor_context {
    received_events = (host.to_lowercase awaited, payload ∷ []) ∷ [];
  }

  event_kept :
      (payload : Option String)
      → round host registry id (new_event_raised_event now raised payload) new_executor_context
        ≡ returns (kept payload)
  unfolding round new_event_raised_event new_executor_context raise_event lookup insert push_back
      drain
  event_kept payload = rw same_name refl

  -- The answer to a history of two events: that of the two rounds.
  after_two :
      (e₁ e₂ : HistoryEvent) (c₁ c₂ : OrchestrationExecutorContext Chan)
      → round host registry id e₁ new_executor_context ≡ returns c₁
      → round host registry id e₂ c₁ ≡ returns c₂
      → execute host registry id [] (e₁ ∷ e₂ ∷ []) ≡ returns (ok (get_actions c₂))
  unfolding execute process_events new_executor_context
  after_two e₁ e₂ c₁ c₂ p q = rw (p, q) refl

  -- A kept event is handed to the code at once.
  poll_taken :
      (x : String)
      → poll_async host
          (ask_signal awaited (λ task. await_task task k))
          (world_of host (new_context id input) (kept (some x)))
        ≡ poll_async host
            (k x)
            (idle_world host id input [] 0 [] (host.oneshot.drop_sender (fresh host) ∷ []))
  unfolding new_executor_context new_context poll_async signal_task start_task new_task take_event
      complete poll_task lookup remove
  poll_taken x =
      rw (poll_async, poll_with, self)
        (ap
          (λ (received : Events).
            poll_async host (k x)
              (idle_world host id input received 0 [] (host.oneshot.drop_sender (fresh host) ∷ [])))
          (remove_only (host.to_lowercase awaited) (some x ∷ [])))

  module _ (x : String) (q : Request) (k' : String → Async (OrchestratorResult String))
      (goes_on : k x ≡ start_request q (λ task. await_task task k')) where
    -- The code after the event: it asks for `q` and waits.
    poll_goes_on :
        (channels : List Chan)
        → poll_async host (k x) (idle_world host id input [] 0 [] channels)
          ≡ returns (
            suspended (await_task (task_on (length channels)) k'),
            record {
              octx = asked host id input [] q 0 [] channels;
              received_events = [];
              channels = channels ++ fresh host ∷ [];
            },
          )
    poll_goes_on channels =
        ap (λ c. poll_async host c (idle_world host id input [] 0 [] channels)) goes_on
        ∙ poll_ask host id input [] q k' 0 [] channels i32_max_pos

    round_raised :
        (channels : List Chan) × (round host registry id
            (new_event_raised_event now raised (some x))
            listening
          ≡ returns (waiting host id input zero_time 0 q k' channels))
    unfolding round new_event_raised_event raise_event send_to lookup insert remove poll_unwrap
        drain
    round_raised =
        let (c, sent, got) = host.oneshot.send-channel (some x) in
        let channels = (host.oneshot.poll_recv c).1 ∷ [] in
        (
          channels,
          rw
              (
                same_name,
                self,
                sent,
                poll_reply host id input zero_time [] k 0 [] c x got,
                poll_goes_on channels,
              )
              (rw self refl),
        )

    round_taken :
        (channels : List Chan) × (round host registry id start (kept (some x))
          ≡ returns (waiting host id input zero_time 0 q k' channels))
    unfolding round new_execution_started_event new_executor_context lookup drain insert
    round_taken =
        let channels = host.oneshot.drop_sender (fresh host) ∷ [] in
        (channels, rw (found, code, poll_taken x, poll_goes_on channels))

    -- Whether the event comes before the orchestrator starts or while it waits makes no difference:
    -- the code goes on with the event's input, and what it asks for next is the one action. The names
    -- that are raised and awaited are the same in lower case.
    pub execute_signal_order :
        (execute host registry id [] (start ∷ new_event_raised_event now raised (some x) ∷ [])
          ≡ returns (ok (request_action host.clock q (pos 1) ∷ [])))
        × (execute host registry id [] (new_event_raised_event now raised (some x) ∷ start ∷ [])
            ≡ returns (ok (request_action host.clock q (pos 1) ∷ [])))
    unfolding get_actions
    execute_signal_order =
        let (late, p) = round_raised in
        let (early, r) = round_taken in
        (after_two _ _ _ _ starts_listening p, after_two _ _ _ _ (event_kept (some x)) r)

  round_raised_empty :
      round host registry id (new_event_raised_event now raised none) listening ≡ panics unwrap_none
  unfolding round new_event_raised_event raise_event send_to lookup insert remove poll_unwrap
      poll_async poll_task
  round_raised_empty =
      let (c, sent, got) = host.oneshot.send-channel none in rw (same_name, self, sent, got)

  round_taken_empty : round host registry id start (kept none) ≡ panics unwrap_none
  unfolding round new_execution_started_event new_executor_context new_context poll_async
      signal_task start_task new_task take_event lookup remove
  round_taken_empty = rw (found, code, poll_with, self)

  -- An event without an input makes the executor panic where an orchestrator awaits it, whichever of
  -- the event and the start comes first.
  pub execute_signal_empty :
      (execute host registry id [] (start ∷ new_event_raised_event now raised none ∷ [])
        ≡ panics unwrap_none)
      × (execute host registry id [] (new_event_raised_event now raised none ∷ start ∷ [])
          ≡ panics unwrap_none)
  unfolding execute process_events
  execute_signal_empty =
      (rw (starts_listening, round_raised_empty), rw (event_kept none, round_taken_empty))

  module _ (x : String) (result : OrchestratorResult String) (returned : k x ≡ output result) where
    -- The code returns with the event.
    poll_returned :
        (channels : List Chan)
        → poll_async host (k x) (idle_world host id input [] 0 [] channels)
          ≡ returns (finished result, idle_world host id input [] 0 [] channels)
    unfolding poll_async
    poll_returned channels =
        ap (λ c. poll_async host c (idle_world host id input [] 0 [] channels)) returned

    round_raised_returned :
        (channels : List Chan) × (round host registry id
            (new_event_raised_event now raised (some x))
            listening
          ≡ current host id input zero_time 0 (finish result) channels)
    unfolding round new_event_raised_event raise_event send_to lookup insert remove poll_unwrap
        drain
    round_raised_returned =
        let (c, sent, got) = host.oneshot.send-channel (some x) in
        let channels = (host.oneshot.poll_recv c).1 ∷ [] in
        (
          channels,
          rw
              (
                same_name,
                self,
                sent,
                poll_reply host id input zero_time [] k 0 [] c x got,
                poll_returned channels,
                i32_succ_below 0 i32_max_pos,
              )
              (rw self refl),
        )

    abbrev dropped : OrchestrationExecutorContext Chan
    dropped = record new_executor_context { channels = host.oneshot.drop_sender (fresh host) ∷ [] }

    round_taken_returned : round host registry id start (kept (some x)) ≡ returns dropped
    unfolding round new_execution_started_event new_executor_context drain
    round_taken_returned =
        rw (found, code, poll_taken x, poll_returned (host.oneshot.drop_sender (fresh host) ∷ []))

    -- An orchestrator that returns with the event it awaits is completed where the event comes while it
    -- waits. Where the event comes first, it is not: its result is lost, and no action is answered.
    pub execute_signal_returned :
        (execute host registry id [] (start ∷ new_event_raised_event now raised (some x) ∷ [])
          ≡ returns (ok (completion_action (pos 1) result ∷ [])))
        × (execute host registry id [] (new_event_raised_event now raised (some x) ∷ start ∷ [])
            ≡ returns (ok []))
    unfolding get_actions new_executor_context
    execute_signal_returned =
        let (channels, p) = round_raised_returned in
        (
          after_two _ _ _ _ starts_listening p,
          after_two _ _ _ _ (event_kept (some x)) round_taken_returned,
        )
