-- ===== src/Sequential/Join.antt =====
-- Two requests whose replies an orchestrator joins by `join!`: the polls of the two arms.
pub mod Order
use durabletask_rs.Prelude.{
  ℕ, suc, ◌++◌, length, get_or, set, subst, get_or-append_last, ◌<◌, ◌≡◌, refl, ap, String, Option,
  none, some, List, [], ◌∷◌, arith,
}
use durabletask_rs.Prelude.Int.{ℤ, pos, i32_max, i32_max_pos, int_eq}
use durabletask_rs.Prelude.HashMap.{insert, lookup, remove}
use durabletask_rs.Prelude.Outcome.{Outcome, returns}
use durabletask_rs.Prelude.Result.{ok}
use durabletask_rs.Oneshot.{value}
use durabletask_rs.Proto.{Timestamp, HistoryEvent, OrchestratorAction}
use durabletask_rs.Internal.Events.{
  new_execution_started_event, new_task_scheduled_event, new_task_completed_event,
}
use durabletask_rs.Internal.Actions.{new_schedule_task_action}
use durabletask_rs.Task.{poll_task, new_task}
use durabletask_rs.Types.Context.{
  Host, World, new_context, create_timer, schedule_sub_orchestrator, schedule_activity,
  send_request, start_task,
}
use durabletask_rs.Sequential.FanOut.Wait.{set_same}
use durabletask_rs.Sequential.{
  activity, sub_orchestrator, timer, Request, request_action, start_request,
}
use durabletask_rs.Types.Async.{
  Progress, ProgressWith, Joined, all_done, not_all_done, joined_of, without, Async, Arm, join,
  output, finished, suspended, ask_activity, await_task, poll_with, poll_arm, poll_arms, poll_async,
}
use durabletask_rs.Types.Function.{OrchestratorResult, OrchestratorFunction}
use durabletask_rs.Registry.{Registry, get_orchestrator}
use durabletask_rs.Executor.Context.{
  OrchestrationExecutorContext, new_executor_context, get_actions, drain, acknowledge,
}
use durabletask_rs.Executor.Poll.{poll_unwrap, completion_action}
use durabletask_rs.Executor.Event.{complete_task, send_to}
use durabletask_rs.Executor.Execute.{round, process_events, execute}
use durabletask_rs.Sequential.Poll.{idle_world, i32_succ_below, fresh, task_on, poll_task_sent}
use durabletask_rs.Sequential.Round.{context}
use durabletask_rs.Sequential.Replay.{zero_time}

module _ {Chan : Type 0} (host : Host Chan) where
  -- What a poll of `join!` comes to, from the polls of its arms.
  abbrev pub go_on :
      {A : Type 0}
      → (String → String → Async A)
      → Joined (Arm × Arm)
      → World Chan
      → Outcome (Progress A × World Chan)
  go_on k (all_done x₁ x₂) w = poll_async host (k x₁ x₂) w
  go_on k (not_all_done arms) w = returns (suspended (join arms k), w)

  pub poll_joined :
      {A : Type 0} (arm₁ arm₂ : Arm) (k : String → String → Async A) (w w₁ w₂ : World Chan)
      (progress₁ progress₂ : ProgressWith ⊥ String)
      → poll_arm host arm₁ w ≡ returns (progress₁, w₁)
      → poll_arm host arm₂ w₁ ≡ returns (progress₂, w₂)
      → poll_async host (join (arm₁, arm₂) k) w ≡ go_on k (joined_of progress₁ progress₂) w₂
  unfolding poll_async poll_with poll_arms
  poll_joined arm₁ arm₂ k w w₁ w₂ (finished a) (finished b) e₁ e₂ = rw (
    poll_with,
    host.join_api.join-returns (poll_arm host) arm₁ arm₂ w w₁ w₂ (finished a) (finished b) e₁ e₂,
  )
  poll_joined arm₁ arm₂ k w w₁ w₂ (finished a) (suspended b) e₁ e₂ = rw (
    poll_with,
    host.join_api.join-returns (poll_arm host) arm₁ arm₂ w w₁ w₂ (finished a) (suspended b) e₁ e₂,
  )
  poll_joined arm₁ arm₂ k w w₁ w₂ (suspended a) (finished b) e₁ e₂ = rw (
    poll_with,
    host.join_api.join-returns (poll_arm host) arm₁ arm₂ w w₁ w₂ (suspended a) (finished b) e₁ e₂,
  )
  poll_joined arm₁ arm₂ k w w₁ w₂ (suspended a) (suspended b) e₁ e₂ = rw (
    poll_with,
    host.join_api.join-returns (poll_arm host) arm₁ arm₂ w w₁ w₂ (suspended a) (suspended b) e₁ e₂,
  )

  -- An arm at a task that has its result, and at one that has none.
  pub arm_sent :
      (i : ℕ) (k : String → Arm) (w : World Chan) (r x : String)
      → (host.oneshot.poll_recv (get_or w.channels i (fresh host))).0 ≡ value (some r)
      → k r ≡ output x
      → poll_arm host (await_task (task_on i) k) w
        ≡ returns (
          finished x,
          record w {
            octx = record w.octx { held = without i w.octx.held };
            channels =
                set w.channels i (host.oneshot.poll_recv (get_or w.channels i (fresh host))).1;
          },
        )
  unfolding poll_arm
  arm_sent i k w r x got read =
      rw (poll_task_sent host w.channels i (get_or w.channels i (fresh host)) r refl got) (
        ap
          (λ (a : Arm). poll_arm host a (record w {
            octx = record w.octx { held = without i w.octx.held };
            channels =
                set w.channels i (host.oneshot.poll_recv (get_or w.channels i (fresh host))).1;
          }))
          read)

  pub arm_waits :
      (i : ℕ) (k : String → Arm) (w : World Chan)
      → get_or w.channels i (fresh host) ≡ fresh host
      → poll_arm host (await_task (task_on i) k) w
        ≡ returns (suspended (await_task (task_on i) k), w)
  unfolding poll_arm poll_task
  arm_waits i k w at =
      rw (at, host.oneshot.poll-channel)
        (ap
          (λ (cs : List Chan).
            returns (suspended (await_task (task_on i) k), record w { channels = cs }))
          (set_same w.channels i (fresh host) at))

  -- The world once a request was sent under the number `suc m`, its task on the channel `i`.
  abbrev pub asked_world : Request → ℕ → ℕ → World Chan → World Chan
  asked_world q i m w = record w {
    octx = record w.octx {
      sequence_number = pos (suc m);
      actions_tx =
          w.octx.actions_tx ++ (pos (suc m), request_action host.clock q (pos (suc m))) ∷ [];
      tasks_tx = w.octx.tasks_tx ++ (pos (suc m), i) ∷ [];
      held = i ∷ w.octx.held;
    };
    channels = w.channels ++ fresh host ∷ [];
  }

  fresh_last :
      (i : ℕ) (channels : List Chan)
      → length channels ≡ i
      → get_or (channels ++ fresh host ∷ []) i (fresh host) ≡ fresh host
  fresh_last i channels size =
      subst (λ (l : ℕ). get_or (channels ++ fresh host ∷ []) l (fresh host) ≡ fresh host) size
        (get_or-append_last channels (fresh host) (fresh host))

  -- An arm's first poll sends its request and waits.
  pub arm_asks :
      (q : Request) (i m : ℕ) (k : String → Arm) (w : World Chan)
      → w.octx.sequence_number ≡ pos m
      → m < i32_max
      → length w.channels ≡ i
      → poll_arm host (start_request q (λ task. await_task task k)) w
        ≡ returns (suspended (await_task (task_on i) k), asked_world q i m w)
  unfolding poll_arm poll_with send_request start_task new_task create_timer schedule_activity
      schedule_sub_orchestrator
  arm_asks (activity name text) i m k w at below size =
      rw (at, i32_succ_below m below, size)
        (arm_waits i k (asked_world (activity name text) i m w) (fresh_last i w.channels size))
  arm_asks (sub_orchestrator name inst text) i m k w at below size =
      rw (at, i32_succ_below m below, size)
        (arm_waits i k (asked_world (sub_orchestrator name inst text) i m w)
          (fresh_last i w.channels size))
  arm_asks (timer millis) i m k w at below size =
      rw (at, i32_succ_below m below, size)
        (arm_waits i k (asked_world (timer millis) i m w) (fresh_last i w.channels size))
