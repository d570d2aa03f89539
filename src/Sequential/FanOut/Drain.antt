-- ===== src/Sequential/FanOut/Drain.antt =====
-- What the executor takes from the code's first poll, and the events that acknowledge the requests.
use durabletask_rs.Prelude.{
  ℕ, zero, suc, ◌<◌, ◌≤◌, ◌≡◌, refl, ap, ◌∙◌, String, true, false, Option, none, some, List, [],
  ◌∷◌, ◌++◌, All, arith, Bool-cases, inl, inr, nat_beq, nat_beq_iff,
}
use durabletask_rs.Prelude.Int.{int_beq, ℤ, pos, int_eq}
use durabletask_rs.Prelude.HashMap.{HashMap, lookup, insert, remove, lookup-insert}
use durabletask_rs.Prelude.HashMap.All.{All-insert}
use durabletask_rs.Proto.{OrchestratorAction}
use durabletask_rs.Types.Context.{Host}
use durabletask_rs.Executor.Context.{OrchestrationExecutorContext, drain_actions, drain_tasks}
use durabletask_rs.Sequential.{Request}
use durabletask_rs.Sequential.FanOut.Start.{action_of, sent_actions, sent_tasks}

-- The executor's map of tasks once the first `j` requests were taken.
abbrev pub tasks_map : ℕ → HashMap ℤ ℕ
tasks_map zero = []
tasks_map (suc j) = insert (pos (suc j)) j (tasks_map j)

pub lookup-tasks_map : (i j : ℕ) → i < j → lookup (pos (suc i)) (tasks_map j) ≡ some i
unfolding lookup
lookup-tasks_map i zero h = absurd (omega arith)
lookup-tasks_map i (suc j) h =
    rw (lookup-insert (pos (suc j)) (pos (suc i)) j (tasks_map j))
      (elim (Bool-cases (nat_beq (suc j) (suc i))) [
        | inl e ↦ rw e (ap some (omega (arith, (nat_beq_iff (suc j) (suc i)).0 e)))
        | inr e ↦ rw e (lookup-tasks_map i j (ground (arith, e)))
      ])

lookup-tasks_map_later : (i j : ℕ) → j ≤ i → lookup (pos (suc i)) (tasks_map j) ≡ none
unfolding lookup
lookup-tasks_map_later i zero h = refl
lookup-tasks_map_later i (suc j) h =
    let other : nat_beq (suc j) (suc i) ≡ false = ground arith in
    rw (lookup-insert (pos (suc j)) (pos (suc i)) j (tasks_map j), other)
      (lookup-tasks_map_later i j (omega arith))

module _ {Chan : Type 0} (host : Host Chan) where
  drain_actions-append :
      (xs ys : List (ℤ × OrchestratorAction)) (c : OrchestrationExecutorContext Chan)
      → drain_actions (xs ++ ys) c ≡ drain_actions ys (drain_actions xs c)
  unfolding drain_actions
  drain_actions-append [] ys c = refl
  drain_actions-append ((n, a) ∷ xs) ys c = drain_actions-append xs ys _

  drain_tasks-append :
      (xs ys : List (ℤ × ℕ)) (c : OrchestrationExecutorContext Chan)
      → drain_tasks host (xs ++ ys) c ≡ drain_tasks host ys (drain_tasks host xs c)
  unfolding drain_tasks
  drain_tasks-append [] ys c = refl
  drain_tasks-append ((n, a) ∷ xs) ys c = drain_tasks-append xs ys _

  module _ (id : String) (input : Option String) (requests : ℕ → Request) where
    -- The maps of the executor once the first `j` requests were taken.
    abbrev pub actions_map : ℕ → HashMap ℤ OrchestratorAction
    actions_map zero = []
    actions_map (suc j) = insert (pos (suc j)) (action_of host id input requests j) (actions_map j)

    pub drain_actions_lem :
        (j : ℕ) (c : OrchestrationExecutorContext Chan)
        → c.pending_actions ≡ []
        → c.sequence_number ≡ pos 0
        → drain_actions (sent_actions host id input requests j) c
          ≡ record c { pending_actions = actions_map j; sequence_number = pos j }
    unfolding drain_actions
    drain_actions_lem zero c empty start = cc
    drain_actions_lem (suc j) c empty start =
        drain_actions-append (sent_actions host id input requests j) _ c
        ∙ ap (drain_actions ((pos (suc j), action_of host id input requests j) ∷ []))
            (drain_actions_lem j c empty start)

    pub drain_tasks_lem :
        (j : ℕ) (c : OrchestrationExecutorContext Chan)
        → c.pending_tasks ≡ []
        → drain_tasks host (sent_tasks host id input requests j) c
          ≡ record c { pending_tasks = tasks_map j }
    unfolding drain_tasks
    drain_tasks_lem zero c empty = cc
    drain_tasks_lem (suc j) c empty =
        drain_tasks-append (sent_tasks host id input requests j) _ c
        ∙ ap (drain_tasks host ((pos (suc j), j) ∷ [])) (drain_tasks_lem j c empty)
        ∙ rw (lookup-tasks_map_later j j (omega arith)) refl

-- The keys of the requests from `j` on.
module _ (n : ℕ) where
  abbrev pub IsFrom : ℕ → ℤ × OrchestratorAction → Type 0
  IsFrom j entry = (i : ℕ) × (j ≤ i) × (i < n) × (entry.0 ≡ pos (suc i))

  pub remove-IsFrom :
      (j : ℕ) (m : HashMap ℤ OrchestratorAction)
      → All (IsFrom j) m
      → All (IsFrom (suc j)) (remove (pos (suc j)) m)
  unfolding remove
  remove-IsFrom j [] h = tt
  remove-IsFrom j ((key, a) ∷ m) ((i, le, lt, e), h) = elim (Bool-cases (nat_beq i j)) [
    | inl same ↦
        let found : int_beq key (pos (suc j)) ≡ true = rw (e) (ground (arith, same)) in
        rw found (remove-IsFrom j m h)
    | inr differ ↦
        let kept : int_beq key (pos (suc j)) ≡ false = rw (e) (ground (arith, differ)) in
        rw kept ((i, ground (arith, differ), lt, e), remove-IsFrom j m h)
  ]

  pub none_left : (m : HashMap ℤ OrchestratorAction) → All (IsFrom n) m → m ≡ []
  none_left [] h = refl
  none_left (entry ∷ m) ((i, le, lt, e), h) = absurd (omega arith)

module _ {Chan : Type 0} (host : Host Chan) (id : String) (input : Option String)
    (requests : ℕ → Request) (n : ℕ) where
  pub actions_map-IsFrom : (j : ℕ) → j ≤ n → All (IsFrom n 0) (actions_map host id input requests j)
  actions_map-IsFrom zero h = tt
  actions_map-IsFrom (suc j) h =
      All-insert (IsFrom n 0) (pos (suc j)) _ _ (j, omega arith, omega arith, refl)
        (actions_map-IsFrom j (omega arith))
