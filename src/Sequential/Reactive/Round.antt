-- ===== src/Sequential/Reactive/Round.antt =====
-- The executor at a program, one event at a time.
use durabletask_rs.Prelude.{
  ℕ, suc, ◌≡◌, refl, String, true, false, Option, none, some, List, [], ◌∷◌, ◌++◌, length,
  get_or-append_last, set-append_last, string_eq,
}
use durabletask_rs.Prelude.Int.{ℤ, pos, int_eq}
use durabletask_rs.Prelude.HashMap.{HashMap, remove, lookup, lookup_only, remove_only}
use durabletask_rs.Prelude.Outcome.{Outcome, returns, panics, ◌>>=◌, unwrap_none}
use durabletask_rs.Proto.{Timestamp, OrchestratorAction}
use durabletask_rs.Internal.Events.{new_event_raised_event}
use durabletask_rs.Oneshot.{value}
use durabletask_rs.Task.{poll_task}
use durabletask_rs.Types.Context.{Host, Events}
use durabletask_rs.Types.Async.{Async, await_task, poll_async, poll_with}
use durabletask_rs.Types.Function.{OrchestratorResult}
use durabletask_rs.Registry.{Registry}
use durabletask_rs.Executor.Context.{OrchestrationExecutorContext, drain, push_back, acknowledge}
use durabletask_rs.Executor.Poll.{poll_unwrap}
use durabletask_rs.Executor.Event.{raise_event, send_to, complete_task}
use durabletask_rs.Executor.Execute.{round}
use durabletask_rs.Sequential.{
  Request, reply, activity, sub_orchestrator, timer, asked_event, replied_event,
}
use durabletask_rs.Sequential.Poll.{task_on, fresh}
use durabletask_rs.Sequential.Round.{context, poll_reply}
use durabletask_rs.Sequential.Reactive.{Program, Kept, at_call}
use durabletask_rs.Sequential.Reactive.Poll.{context_with, embed, polled}

module _ {Chan Act : Type 0} (host : Host Chan) (id : String) (input : Option String)
    (time : Timestamp) (registry : Registry Act) (now : Timestamp) where
  -- The code of a context that waits at a task on the last channel.
  abbrev waiting :
      (String → Async (OrchestratorResult String))
      → ℕ
      → List (ℤ × OrchestratorAction)
      → List (ℤ × ℕ)
      → HashMap String (List ℕ)
      → Events
      → List Chan
      → OrchestrationExecutorContext Chan
  waiting k n actions tasks waiters received channels =
      context_with host id input time received waiters (
        context host id input time n (some (await_task (task_on (length channels)) k))
          (length channels ∷ []) actions tasks (channels ++ fresh host ∷ []))

  abbrev finished :
      ℕ → List (ℤ × OrchestratorAction) → Events → List Chan → OrchestrationExecutorContext Chan
  finished n actions received channels =
      record (context_with host id input time received []
        (context host id input time n none [] actions [] channels)) {
          sequence_number = pos (suc n);
        }

  abbrev told_raise :
      String
      → Option String
      → OrchestrationExecutorContext Chan
      → Outcome (OrchestrationExecutorContext Chan)
  told_raise name text c = round host registry id (new_event_raised_event now name text) c

  -- An event that is not awaited is kept.
  pub raise_waiting :
      (name : String) (text : Option String) (k : String → Async (OrchestratorResult String))
      (n : ℕ) (actions : List (ℤ × OrchestratorAction)) (tasks : List (ℤ × ℕ))
      (waiters : HashMap String (List ℕ)) (received : Events) (channels : List Chan)
      → lookup (host.to_lowercase name) waiters ≡ none
      → told_raise name text (waiting k n actions tasks waiters received channels)
        ≡ returns (
            waiting k n actions tasks waiters
              (push_back (host.to_lowercase name) text received)
              channels)
  unfolding round new_event_raised_event raise_event drain
  raise_waiting name text k n actions tasks waiters received channels h = rw h refl

  pub raise_finished :
      (name : String) (text : Option String) (n : ℕ) (actions : List (ℤ × OrchestratorAction))
      (received : Events) (channels : List Chan)
      → told_raise name text (finished n actions received channels)
        ≡ returns (finished n actions (push_back (host.to_lowercase name) text received) channels)
  unfolding round new_event_raised_event raise_event drain lookup
  raise_finished name text n actions received channels = refl

  -- A value that was sent to the task that the code awaits: the code goes on.
  poll_sent :
      (k : String → Async (OrchestratorResult String)) (n : ℕ) (received : Events)
      (channels : List Chan) (c : Chan) (r : String)
      → (host.oneshot.poll_recv c).0 ≡ value (some r)
      → (poll_unwrap host
            (record (waiting k n [] [] [] received channels) { channels = channels ++ c ∷ [] })
          >>= λ c'. returns (drain host c'))
        ≡ polled host id input time (k r) n received (channels ++ (host.oneshot.poll_recv c).1 ∷ [])
  unfolding poll_unwrap
  poll_sent k n received channels c r v =
      rw (poll_reply host id input time received k n channels c r v) refl

  poll_sent_empty :
      (k : String → Async (OrchestratorResult String)) (n : ℕ) (received : Events)
      (channels : List Chan) (c : Chan)
      → (host.oneshot.poll_recv c).0 ≡ value none
      → (poll_unwrap host
            (record (waiting k n [] [] [] received channels) { channels = channels ++ c ∷ [] })
          >>= λ c'. returns (drain host c'))
        ≡ panics unwrap_none
  unfolding poll_unwrap poll_async poll_task
  poll_sent_empty k n received channels c v =
      rw (poll_async, poll_with, get_or-append_last channels c (fresh host), v)

  -- The acknowledgement takes the request's action away, and changes nothing when it comes again.
  pub acknowledges :
      (q : Request) (k : String → Program) (n : ℕ) (kept : Kept) (received : Events)
      (channels : List Chan)
      → round host registry id
          (asked_event host.clock now q (pos (suc n)))
          (embed host id input time (at_call n q k false kept) received channels)
        ≡ returns (embed host id input time (at_call n q k true kept) received channels)
  unfolding round acknowledge asked_event drain
  acknowledges (activity name text) k n kept received channels = rw (remove_only (pos (suc n)))
  acknowledges (sub_orchestrator name inst text) k n kept received channels =
      rw (remove_only (pos (suc n)))
  acknowledges (timer millis) k n kept received channels = rw (remove_only (pos (suc n)))

  pub acknowledges_again :
      (q : Request) (k : String → Program) (n : ℕ) (kept : Kept) (received : Events)
      (channels : List Chan)
      → round host registry id
          (asked_event host.clock now q (pos (suc n)))
          (embed host id input time (at_call n q k true kept) received channels)
        ≡ returns (embed host id input time (at_call n q k true kept) received channels)
  unfolding round acknowledge asked_event remove drain
  acknowledges_again (activity name text) k n kept received channels = refl
  acknowledges_again (sub_orchestrator name inst text) k n kept received channels = refl
  acknowledges_again (timer millis) k n kept received channels = refl

  -- A reply lets the code go on with it.
  completes :
      (k : String → Async (OrchestratorResult String)) (n : ℕ) (received : Events)
      (channels : List Chan) (r : String)
      → (rest : List Chan) × ((complete_task host
              (pos (suc n))
              (some r)
              (waiting k (suc n) [] ((pos (suc n), length channels) ∷ []) [] received channels)
            >>= poll_unwrap host
            >>= λ c. returns (drain host c))
          ≡ polled host id input time (k r) (suc n) received rest)
  unfolding complete_task
  completes k n received channels r =
      let (c, sent, got) = host.oneshot.send-channel (some r) in
      (
        channels ++ (host.oneshot.poll_recv c).1 ∷ [],
        rw
            (
              lookup_only (pos (suc n)),
              remove_only (pos (suc n)),
              get_or-append_last channels (fresh host) (fresh host),
              sent,
              set-append_last channels (fresh host) c,
            )
            (poll_sent k (suc n) received channels c r got),
      )

  pub answers :
      (q : Request) (k : String → Async (OrchestratorResult String)) (n : ℕ) (received : Events)
      (channels : List Chan) (r : String)
      → (rest : List Chan) × (round host registry id
            (replied_event host.clock now q (pos (suc n)) r)
            (waiting k (suc n) [] ((pos (suc n), length channels) ∷ []) [] received channels)
          ≡ polled host id input time (k (reply q r)) (suc n) received rest)
  unfolding round replied_event
  answers (activity name text) k n received channels r = completes k n received channels r
  answers (sub_orchestrator name inst text) k n received channels r =
      completes k n received channels r
  answers (timer millis) k n received channels r = completes k n received channels ""

  module _ (awaited raised : String)
      (same : host.to_lowercase awaited ≡ host.to_lowercase raised) where
    -- The event that the code awaits.
    pub raises :
        (k : String → Async (OrchestratorResult String)) (n : ℕ) (received : Events)
        (channels : List Chan) (x : String)
        → (rest : List Chan) × (told_raise raised (some x) (
              waiting k n [] []
                ((host.to_lowercase awaited, length channels ∷ []) ∷ [])
                received
                channels)
            ≡ polled host id input time (k x) n received rest)
    unfolding round new_event_raised_event raise_event send_to
    raises k n received channels x =
        let (c, sent, got) = host.oneshot.send-channel (some x) in
        (
          channels ++ (host.oneshot.poll_recv c).1 ∷ [],
          rw
              (
                same,
                lookup_only (host.to_lowercase raised),
                remove_only (host.to_lowercase raised),
                get_or-append_last channels (fresh host) (fresh host),
                sent,
                set-append_last channels (fresh host) c,
              )
              (poll_sent k n received channels c x got),
        )

    pub raises_empty :
        (k : String → Async (OrchestratorResult String)) (n : ℕ) (received : Events)
        (channels : List Chan)
        → told_raise raised none (
            waiting k n [] []
              ((host.to_lowercase awaited, length channels ∷ []) ∷ [])
              received
              channels)
          ≡ panics unwrap_none
    unfolding round new_event_raised_event raise_event send_to
    raises_empty k n received channels =
        let (c, sent, got) = host.oneshot.send-channel none in
        rw
          (
            same,
            lookup_only (host.to_lowercase raised),
            remove_only (host.to_lowercase raised),
            get_or-append_last channels (fresh host) (fresh host),
            sent,
            set-append_last channels (fresh host) c,
          )
          (poll_sent_empty k n received channels c got)
