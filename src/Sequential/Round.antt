-- ===== src/Sequential/Round.antt =====
-- The executor at a script, one event at a time.
use durabletask_rs.Prelude.{
  ℕ, suc, ◌<◌, ◌≡◌, refl, ap, String, true, false, Option, none, some, List, [], ◌∷◌, ◌++◌, arith,
  length, get_or-append_last, set-append_last, nat_beq,
}
use durabletask_rs.Prelude.Int.{ℤ, pos, i32_max, int_eq}
use durabletask_rs.Prelude.HashMap.{lookup, insert, lookup_only, remove_only}
use durabletask_rs.Prelude.Outcome.{Outcome, returns, panics, ◌>>=◌}
use durabletask_rs.Oneshot.{value}
use durabletask_rs.Proto.{Timestamp, OrchestratorAction}
use durabletask_rs.Types.Context.{Host, Events}
use durabletask_rs.Types.Async.{without, Async, await_task, poll_async}
use durabletask_rs.Types.Function.{OrchestratorResult}
use durabletask_rs.Registry.{Registry}
use durabletask_rs.Executor.Context.{OrchestrationExecutorContext, drain, acknowledge}
use durabletask_rs.Executor.Poll.{poll_unwrap, completion_action}
use durabletask_rs.Executor.Event.{complete_task}
use durabletask_rs.Executor.Execute.{round}
use durabletask_rs.Sequential.{
  Request, activity, sub_orchestrator, timer, Script, finish, ask, fault, code_of, request_action,
  reply, asked_event, replied_event,
}
use durabletask_rs.Sequential.Poll.{
  task_on, fresh, poll_task_sent, i32_succ_below, idle, idle_world, poll_ask,
}

pub without_only : (i : ℕ) → without i (i ∷ []) ≡ []
without_only i = let self : nat_beq i i ≡ true = ground arith in rw self

module _ {Chan : Type 0} (host : Host Chan) (id : String) (input : Option String)
    (time : Timestamp) where
  -- The executor's context around a script's code, with what it still waits for.
  abbrev pub context :
      ℕ
      → Option (Async (OrchestratorResult String))
      → List ℕ
      → List (ℤ × OrchestratorAction)
      → List (ℤ × ℕ)
      → List Chan
      → OrchestrationExecutorContext Chan
  context n code held actions tasks channels = record {
    is_replaying = false;
    is_complete = false;
    sequence_number = pos n;
    current_time_utc = time;
    pending_actions = actions;
    pending_tasks = tasks;
    received_events = [];
    pending_events = [];
    orchestrator_fn = some (record { code = code; octx = idle host id input [] n held });
    completion_status = none;
    channels = channels;
  }

  -- The request numbered `suc m` was sent, and the code awaits its task.
  abbrev pub waiting :
      ℕ
      → Request
      → (String → Async (OrchestratorResult String))
      → List Chan
      → OrchestrationExecutorContext Chan
  waiting m q k channels =
      context (suc m) (some (await_task (task_on (length channels)) k)) (length channels ∷ [])
        ((pos (suc m), request_action host.clock q (pos (suc m))) ∷ [])
        ((pos (suc m), length channels) ∷ []) (channels ++ fresh host ∷ [])

  -- A script whose action numbered `suc m` is due, or the script's panic.
  abbrev pub current : ℕ → Script → List Chan → Outcome (OrchestrationExecutorContext Chan)
  current m (ask q k) channels = returns (waiting m q (λ r. code_of (k r)) channels)
  current m (fault p) channels = panics p
  current m (finish result) channels =
      returns
        (record (context m none [] ((pos (suc m), completion_action (pos (suc m)) result) ∷ []) []
          channels) { sequence_number = pos (suc m) })

  -- A poll at a script's code, and the drain behind it.
  pub poll_script :
      (s : Script) (m : ℕ) (channels : List Chan)
      → m < i32_max
      → (poll_unwrap host (context m (some (code_of s)) [] [] [] channels) >>= λ c.
          returns (drain host c))
        ≡ current m s channels
  unfolding poll_unwrap drain insert lookup poll_async
  poll_script (finish result) m channels h = rw (i32_succ_below m h)
  poll_script (fault p) m channels h = refl
  poll_script (ask q k) m channels h =
      rw (poll_ask host id input [] q (λ r. code_of (k r)) m [] channels h)

  -- A reply that was sent to the task that the code awaits: the code goes on.
  pub poll_reply :
      (received : Events) (k : String → Async (OrchestratorResult String)) (m : ℕ)
      (channels : List Chan) (c : Chan) (r : String)
      → (host.oneshot.poll_recv c).0 ≡ value (some r)
      → poll_async host
          (await_task (task_on (length channels)) k)
          (idle_world host id input received m (length channels ∷ []) (channels ++ c ∷ []))
        ≡ poll_async host
            (k r)
            (idle_world host id input received m [] (channels ++ (host.oneshot.poll_recv c).1 ∷ []))
  unfolding poll_async
  poll_reply received k m channels c r v =
      rw
        (
          poll_task_sent host (channels ++ c ∷ []) (length channels) c r
              (get_or-append_last channels c (fresh host)) v,
          set-append_last channels c (host.oneshot.poll_recv c).1,
        )
        (ap
          (λ (held : List ℕ). poll_async host (k r) (
            idle_world host id input received m held
              (channels ++ (host.oneshot.poll_recv c).1 ∷ [])))
          (without_only (length channels)))

  -- The waiting context once the request was acknowledged.
  abbrev pub acknowledged :
      ℕ
      → Request
      → (String → Async (OrchestratorResult String))
      → List Chan
      → OrchestrationExecutorContext Chan
  acknowledged m q k channels = record (waiting m q k channels) { pending_actions = [] }

  abbrev drained :
      Outcome (OrchestrationExecutorContext Chan) → Outcome (OrchestrationExecutorContext Chan)
  drained o = o >>= λ c. returns (drain host c)

  -- A result that comes lets the code go on with it.
  pub resumed :
      (q : Request) (k : String → Async (OrchestratorResult String)) (m : ℕ) (channels : List Chan)
      (r : String)
      → (rest : List Chan) × ((complete_task host
              (pos (suc m))
              (some r)
              (acknowledged m q k channels)
            >>= poll_unwrap host)
          ≡ poll_unwrap host (context (suc m) (some (k r)) [] [] [] rest))
  unfolding complete_task poll_unwrap
  resumed q k m channels r =
      let (c, sent, got) = host.oneshot.send-channel (some r) in
      (
        channels ++ (host.oneshot.poll_recv c).1 ∷ [],
        rw (
          lookup_only (pos (suc m)),
          remove_only (pos (suc m)),
          get_or-append_last channels (fresh host) (fresh host),
          sent,
          set-append_last channels (fresh host) c,
          poll_reply [] k (suc m) channels c r got,
        ),
      )

  module _ {Act : Type 0} (registry : Registry Act) where
    -- The event that acknowledges the request takes its action away.
    pub round_asked :
        (now : Timestamp) (q : Request) (k : String → Async (OrchestratorResult String)) (m : ℕ)
        (channels : List Chan)
        → round host registry id
            (asked_event host.clock now q (pos (suc m)))
            (waiting m q k channels)
          ≡ returns (acknowledged m q k channels)
    unfolding round acknowledge asked_event
    round_asked now (activity name text) k m channels = rw (remove_only (pos (suc m)))
    round_asked now (sub_orchestrator name inst text) k m channels = rw (remove_only (pos (suc m)))
    round_asked now (timer millis) k m channels = rw (remove_only (pos (suc m)))

    -- The event that replies lets the code go on.
    pub round_replied :
        (now : Timestamp) (q : Request) (k : String → Async (OrchestratorResult String)) (m : ℕ)
        (channels : List Chan) (r : String)
        → (rest : List Chan) × (round host registry id
              (replied_event host.clock now q (pos (suc m)) r)
              (acknowledged m q k channels)
            ≡ (poll_unwrap host (context (suc m) (some (k (reply q r))) [] [] [] rest) >>= λ c.
                returns (drain host c)))
    unfolding round replied_event
    round_replied now (activity name text) k m channels r =
        let (rest, e) = resumed (activity name text) k m channels r in (rest, ap drained e)
    round_replied now (sub_orchestrator name inst text) k m channels r =
        let (rest, e) = resumed (sub_orchestrator name inst text) k m channels r in
        (rest, ap drained e)
    round_replied now (timer millis) k m channels r =
        let (rest, e) = resumed (timer millis) k m channels "" in (rest, ap drained e)
