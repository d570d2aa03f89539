-- ===== src/Types/Code.antt =====
-- An orchestrator's `async` code, as the state machine that the compiler makes of it: a tree of the
-- calls of its `OrchestratorContext`, each with the code that goes on with the answer.
use durabletask_rs.Prelude.{ℕ, String, Option}
use durabletask_rs.Prelude.Outcome.{Panic}
use durabletask_rs.Task.{CompletableTask}

-- `J` is what the code can wait for by `join!`.
pub data AsyncWith (J A : Type 0) : Type 0 where
  -- the value that the code returns
  output : A → AsyncWith J A
  -- `ctx.create_timer(millis)`
  ask_timer : ℕ → (CompletableTask → AsyncWith J A) → AsyncWith J A
  -- `ctx.schedule_activity(name, input)`
  ask_activity : String → Option String → (CompletableTask → AsyncWith J A) → AsyncWith J A
  -- `ctx.schedule_sub_orchestrator(name, instance_id, input)`
  ask_sub_orchestrator :
      String → String → Option String → (CompletableTask → AsyncWith J A) → AsyncWith J A
  -- `ctx.await_signal_event(name)` up to the task that it awaits
  ask_signal : String → (CompletableTask → AsyncWith J A) → AsyncWith J A
  -- `task.await`
  await_task : CompletableTask → (String → AsyncWith J A) → AsyncWith J A
  -- a task that the code drops before it is ready
  drop_task : CompletableTask → AsyncWith J A → AsyncWith J A
  -- `join!(future1, future2)`
  join : J → (String → String → AsyncWith J A) → AsyncWith J A
  -- `std::future::pending().await`
  forever : AsyncWith J A
  -- an `expect` or `unwrap` of the code
  abort : Panic → AsyncWith J A

-- A future that `join!` waits for: it uses no `join!` itself, and its value is a text.
abbrev pub Arm : Type 0
Arm = AsyncWith ⊥ String

abbrev pub Async : Type 0 → Type 0
Async A = AsyncWith (Arm × Arm) A

infixl 5 ◌>>=◌
abbrev pub ◌>>=◌ : {J A B : Type 0} → AsyncWith J A → (A → AsyncWith J B) → AsyncWith J B
output a >>= f = f a
ask_timer millis k >>= f = ask_timer millis (λ t. k t >>= f)
ask_activity name input k >>= f = ask_activity name input (λ t. k t >>= f)
ask_sub_orchestrator name id input k >>= f = ask_sub_orchestrator name id input (λ t. k t >>= f)
ask_signal name k >>= f = ask_signal name (λ t. k t >>= f)
await_task task k >>= f = await_task task (λ r. k r >>= f)
drop_task task k >>= f = drop_task task (k >>= f)
join arms k >>= f = join arms (λ r₁ r₂. k r₁ r₂ >>= f)
forever >>= f = forever
abort p >>= f = abort p

-- A future after a poll: it has returned, or it goes on at the next poll.
pub data ProgressWith (J A : Type 0) : Type 0 where
  finished : A → ProgressWith J A
  suspended : AsyncWith J A → ProgressWith J A

abbrev pub Progress : Type 0 → Type 0
Progress A = ProgressWith (Arm × Arm) A

-- What `join!` waits for, after a poll.
pub data Joined (J : Type 0) : Type 0 where
  all_done : String → String → Joined J
  not_all_done : J → Joined J

-- The arm that is left: one that is done keeps its value, and is not run again.
abbrev pub arm_of : ProgressWith ⊥ String → Arm
arm_of (finished r) = output r
arm_of (suspended arm) = arm

abbrev pub joined_of : ProgressWith ⊥ String → ProgressWith ⊥ String → Joined (Arm × Arm)
joined_of (finished r₁) (finished r₂) = all_done r₁ r₂
joined_of arm₁ arm₂ = not_all_done (arm_of arm₁, arm_of arm₂)
