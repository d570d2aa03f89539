-- ===== src/Sequential/Poll.antt =====
-- One poll of a script's code.
use native.Mathlib.Numerals.{add-one}
use durabletask_rs.Prelude.{
  ℕ, suc, ◌<◌, ◌≡◌, refl, ◌∙◌, String, Option, none, some, List, [], ◌∷◌, ◌++◌, arith, length,
  get_or, set, get_or-append_last, set-append_last, nat_beq, false,
}
use durabletask_rs.Prelude.Int.{pos, i32_max, i32_succ}
use durabletask_rs.Prelude.Outcome.{returns}
use durabletask_rs.Oneshot.{value}
use durabletask_rs.Task.{CompletableTask, ready, pending, poll_task}
use durabletask_rs.Types.Context.{
  Events, Host, OrchestratorContext, World, send_request, create_timer, schedule_activity,
  schedule_sub_orchestrator,
}
use durabletask_rs.Types.Async.{Async, suspended, await_task, poll_async}
use durabletask_rs.Types.Function.{OrchestratorResult}
use durabletask_rs.Sequential.{
  Request, activity, sub_orchestrator, timer, start_request, request_action,
}

-- Below `i32::MAX` a number has a successor.
pub i32_succ_below : (n : ℕ) → n < i32_max → i32_succ (pos n) ≡ pos (suc n)
unfolding i32_succ
i32_succ_below n h = let below : nat_beq n i32_max ≡ false = ground arith in rw (below, add-one n)

-- The task that waits on the channel `i`.
abbrev pub task_on : ℕ → CompletableTask
task_on i = record { completed = false; result = none; unblock_rx = some i }

module _ {Chan : Type 0} (host : Host Chan) where
  abbrev pub fresh : Chan
  fresh = host.oneshot.channel

  -- A task on a channel to which nothing was sent is not ready, and the poll changes nothing.
  pub poll_task-fresh :
      (channels : List Chan)
      → poll_task host.oneshot (task_on (length channels)) (channels ++ fresh ∷ [])
        ≡ returns (pending, task_on (length channels), channels ++ fresh ∷ [])
  unfolding poll_task
  poll_task-fresh channels = rw (
    get_or-append_last channels fresh fresh,
    host.oneshot.poll-channel,
    set-append_last channels fresh fresh,
  )

  -- A task whose result was sent is ready.
  pub poll_task_sent :
      (channels : List Chan) (i : ℕ) (c : Chan) (r : String)
      → get_or channels i fresh ≡ c
      → (host.oneshot.poll_recv c).0 ≡ value (some r)
      → poll_task host.oneshot (task_on i) channels
        ≡ returns (ready r, task_on i, set channels i (host.oneshot.poll_recv c).1)
  unfolding poll_task
  poll_task_sent channels i c r at v = rw at (rw v)

  pub poll_start :
      {A : Type 0} (q : Request) (k : CompletableTask → Async A) (w : World Chan)
      → poll_async host (start_request q k) w ≡ (
          let (task, w') = send_request host (request_action host.clock q) w in
          poll_async host (k task) w')
  unfolding poll_async create_timer schedule_activity schedule_sub_orchestrator
  poll_start (activity name input) k w = refl
  poll_start (sub_orchestrator name id input) k w = refl
  poll_start (timer millis) k w = refl

  module _ (id : String) (input : Option String) (received : Events) where
    -- A context with no request to take, and the world around it.
    abbrev pub idle : ℕ → List ℕ → OrchestratorContext
    idle n held = record {
      instance_id = id;
      input = input;
      sequence_number = pos n;
      actions_tx = [];
      tasks_tx = [];
      events_tx = [];
      held = held;
    }

    abbrev pub idle_world : ℕ → List ℕ → List Chan → World Chan
    idle_world n held channels = record {
      octx = idle n held;
      received_events = received;
      channels = channels;
    }

    -- The same after a request.
    abbrev pub asked : Request → ℕ → List ℕ → List Chan → OrchestratorContext
    asked q n held channels = record (idle (suc n) held) {
      actions_tx = (pos (suc n), request_action host.clock q (pos (suc n))) ∷ [];
      tasks_tx = (pos (suc n), length channels) ∷ [];
      held = length channels ∷ held;
    }

    -- Code at a request whose task it awaits: the request is sent under the next number, and the
    -- code waits.
    pub poll_ask :
        (q : Request) (k : String → Async (OrchestratorResult String)) (n : ℕ) (held : List ℕ)
        (channels : List Chan)
        → n < i32_max
        → poll_async host (start_request q (λ task. await_task task k)) (idle_world n held channels)
          ≡ returns (
            suspended (await_task (task_on (length channels)) k),
            record {
              octx = asked q n held channels;
              received_events = received;
              channels = channels ++ fresh ∷ [];
            },
          )
    unfolding send_request poll_async
    poll_ask q k n held channels h =
        poll_start q _ (idle_world n held channels)
        ∙ rw (i32_succ_below n h, poll_task-fresh channels)
