-- ===== src/Types/Async.antt =====
-- `Future::poll` of an orchestrator's code: it runs the code up to the first task that is not ready.
use durabletask_rs.Prelude.{
  ℕ, String, Option, none, some, List, [], ◌∷◌, if◌then◌else◌, nat_beq, get_or, set,
}
use durabletask_rs.Prelude.Outcome.{Outcome, returns, panics}
pub use durabletask_rs.Types.Code.{
  ◌>>=◌, arm_of, joined_of, AsyncWith, Async, Arm, ProgressWith, Progress, Joined, output,
  ask_timer, ask_activity, ask_sub_orchestrator, ask_signal, await_task, drop_task, join, forever,
  abort, finished, suspended, all_done, not_all_done,
}
use durabletask_rs.Task.{CompletableTask, Poll, ready, pending, poll_task}
use durabletask_rs.Types.Context.{
  Host, World, create_timer, schedule_activity, schedule_sub_orchestrator, signal_task,
}

-- `xs` without the index `i`.
abbrev pub without : ℕ → List ℕ → List ℕ
without i [] = []
without i (j ∷ js) = let rest = without i js in if nat_beq j i then rest else j ∷ rest

abbrev pub let_go : Option ℕ → List ℕ → List ℕ
let_go none held = held
let_go (some i) held = without i held

module _ {Chan : Type 0} (host : Host Chan) where
  abbrev pub drop_receiver : Option ℕ → List Chan → List Chan
  drop_receiver none channels = channels
  drop_receiver (some i) channels =
      set channels i (host.oneshot.drop_receiver (get_or channels i host.oneshot.channel))

  -- The world without the receiver of a task.
  abbrev pub release : CompletableTask → World Chan → World Chan
  release task w = record w { octx = record w.octx { held = let_go task.unblock_rx w.held } }

module _ {Chan J A : Type 0} (host : Host Chan) where
  -- A task that is ready hands its result on at once; else the code waits at it.
  abbrev pub on_polled :
      (String → AsyncWith J A)
      → (String → World Chan → Outcome (ProgressWith J A × World Chan))
      → World Chan
      → Outcome (Poll String × CompletableTask × List Chan)
      → Outcome (ProgressWith J A × World Chan)
  on_polled k go w (panics p) = panics p
  on_polled k go w (returns (ready r, task, channels)) =
      go r (release host task (record w { channels = channels }))
  on_polled k go w (returns (pending, task, channels)) =
      returns (suspended (await_task task k), record w { channels = channels })

  -- `Future::poll` of the code, given the poll of what it joins.
  unfoldable pub poll_with :
      (J → World Chan → Outcome (Joined J × World Chan))
      → AsyncWith J A
      → World Chan
      → Outcome (ProgressWith J A × World Chan)
  unfolding create_timer schedule_activity schedule_sub_orchestrator signal_task poll_task
  poll_with poll_arms (output a) w = returns (finished a, w)
  poll_with poll_arms (ask_timer millis k) w =
      let (task, w') = create_timer host millis w in poll_with poll_arms (k task) w'
  poll_with poll_arms (ask_activity name input k) w =
      let (task, w') = schedule_activity host name input w in poll_with poll_arms (k task) w'
  poll_with poll_arms (ask_sub_orchestrator name instance_id input k) w =
      let (task, w') = schedule_sub_orchestrator host name instance_id input w in
      poll_with poll_arms (k task) w'
  poll_with poll_arms (ask_signal name k) w = elim (signal_task host name w) [
    | panics p ↦ panics p
    | returns (task, w') ↦ poll_with poll_arms (k task) w'
  ]
  poll_with poll_arms (await_task task k) w =
      on_polled k (λ r. poll_with poll_arms (k r)) w (poll_task host.oneshot task w.channels)
  poll_with poll_arms (drop_task task k) w =
      poll_with poll_arms k
        (release host task (record w { channels = drop_receiver host task.unblock_rx w.channels }))
  poll_with poll_arms (join arms k) w = elim (poll_arms arms w) [
    | panics p ↦ panics p
    | returns (all_done r₁ r₂, w') ↦ poll_with poll_arms (k r₁ r₂) w'
    | returns (not_all_done arms', w') ↦ returns (suspended (join arms' k), w')
  ]
  poll_with poll_arms forever w = returns (suspended forever, w)
  poll_with poll_arms (abort p) w = panics p

module _ {Chan : Type 0} (host : Host Chan) where
  unfoldable pub poll_arm : Arm → World Chan → Outcome (ProgressWith ⊥ String × World Chan)
  unfolding poll_with
  poll_arm = poll_with host (λ none w. absurd none)

  -- `join!` polls its arms.
  unfoldable pub poll_arms : Arm × Arm → World Chan → Outcome (Joined (Arm × Arm) × World Chan)
  unfolding poll_arm
  poll_arms = host.join_api.poll_join poll_arm

  -- `Future::poll` of an orchestrator's code.
  unfoldable pub poll_async :
      {A : Type 0} → Async A → World Chan → Outcome (ProgressWith (Arm × Arm) A × World Chan)
  unfolding poll_with poll_arms
  poll_async = poll_with host poll_arms
