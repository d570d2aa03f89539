-- ===== src/Sequential/FanOut.antt =====
-- Orchestrators that start all of their requests before they await the first one: each request is
-- started and its task kept, and the tasks are awaited in the order in which they were started. Of
-- types.rs, a caller can do so with create_timer; schedule_activity and schedule_sub_orchestrator,
-- which start a request in the same way, are open to the crate alone, and the async functions
-- around them start it at their first poll, as Sequential/Join has it.
pub mod Wait
pub mod Start
pub mod Drain
pub mod Asked
pub mod Sent
pub mod Replied
pub mod Step
pub mod Order
pub mod Partial
use durabletask_rs.Prelude.{
  ℕ, zero, suc, ◌<◌, ◌≡◌, String, Bool, true, false, List, [], ◌∷◌, if◌then◌else◌, nat_beq,
}
use durabletask_rs.Task.{CompletableTask}
use durabletask_rs.Types.Async.{Async, await_task}
use durabletask_rs.Sequential.{Request, start_request}

module _ {A : Type 0} where
  abbrev pub start_all : List Request → (List CompletableTask → Async A) → Async A
  start_all [] k = k []
  start_all (q ∷ requests) k =
      start_request q (λ task. start_all requests (λ tasks. k (task ∷ tasks)))

  abbrev pub await_all : List CompletableTask → (List String → Async A) → Async A
  await_all [] k = k []
  await_all (task ∷ tasks) k = await_task task (λ r. await_all tasks (λ results. k (r ∷ results)))

-- The `left` numbers from `j` on.
abbrev pub indices : ℕ → ℕ → List ℕ
indices zero j = []
indices (suc left) j = j ∷ indices left (suc j)

abbrev pub mark : ℕ → (ℕ → Bool) → ℕ → Bool
mark i done j = if nat_beq i j then true else done j

-- An order in which those of the first `n` requests that are not done can complete: each one once.
abbrev pub IsOrder : ℕ → (ℕ → Bool) → List ℕ → Type 0
IsOrder n done [] = (i : ℕ) → i < n → done i ≡ true
IsOrder n done (i ∷ order) = (i < n) × (done i ≡ false) × IsOrder n (mark i done) order

-- Some of the first `n` requests that are not done, each once, with another one left over.
abbrev pub IsPartial : ℕ → (ℕ → Bool) → List ℕ → Type 0
IsPartial n done [] = (i : ℕ) × (i < n) × (done i ≡ false)
IsPartial n done (i ∷ order) = (i < n) × (done i ≡ false) × IsPartial n (mark i done) order
