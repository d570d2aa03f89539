-- ===== src/Sequential/FanOut/Replied.antt =====
-- The events that reply to the requests, in any order.
use durabletask_rs.Prelude.{
  ℕ, suc, ◌+◌, ◌<◌, ◌≡◌, ap, ◌∙◌, sym, String, Bool, true, false, Option, some, List, [], map,
  arith, subst, nat_beq, nat_beq_iff, Bool-cases, inl, inr, length-set, get_or, set,
  get_or-set_self,
}
use durabletask_rs.Prelude.Int.{ℤ, pos, int_eq}
use durabletask_rs.Prelude.HashMap.{HashMap, lookup, remove, lookup-remove}
use durabletask_rs.Oneshot.{value}
use durabletask_rs.Proto.{Timestamp}
use durabletask_rs.Types.Context.{Host}
use durabletask_rs.Registry.{Registry}
use durabletask_rs.Executor.Context.{OrchestrationExecutorContext}
use durabletask_rs.Sequential.{Request, Script, reply}
use durabletask_rs.Sequential.Poll.{fresh, idle}
use durabletask_rs.Sequential.FanOut.{indices, mark}
use durabletask_rs.Sequential.FanOut.Sent.{around}
use durabletask_rs.Sequential.FanOut.Wait.{awaiting, Carries, get_or-set_ne}

-- A request that is marked is another one, or the one that was marked last.
mark_other : (i l : ℕ) (done : ℕ → Bool) → nat_beq i l ≡ false → mark i done l ≡ done l
mark_other i l done e = rw e

unmarked : (i l : ℕ) (done : ℕ → Bool) → mark i done l ≡ false → nat_beq i l ≡ false
unmarked i l done e = elim (Bool-cases (nat_beq i l)) [
  | inl same ↦ absurd (let bad : true ≡ false = sym (rw same) ∙ e in cc)
  | inr differ ↦ differ
]

module _ {Chan Act : Type 0} (host : Host Chan) (registry : Registry Act) (id : String)
    (input : Option String) (now : Timestamp) (requests : ℕ → Request) (results : ℕ → String)
    (n : ℕ) (goal : Script) where
  abbrev pub replies : ℕ → String
  replies i = reply (requests i) (results i)

  -- The senders of the requests that are not done.
  abbrev pub HasTasks : (ℕ → Bool) → HashMap ℤ ℕ → Type 0
  HasTasks done tasks = (i : ℕ) → i < n → done i ≡ false → lookup (pos (suc i)) tasks ≡ some i

  -- The executor waits, and some of the requests are done.
  pub data Waits (done : ℕ → Bool) (c : OrchestrationExecutorContext Chan) : Type 0 where
    waits_at :
        (left j : ℕ) (k : List String → Script) (held : List ℕ) (tasks : HashMap ℤ ℕ)
        (channels : List Chan)
        → suc left + j ≡ n
        → k (map replies (indices (suc left) j)) ≡ goal
        → done j ≡ false
        → ((i : ℕ) → i < j → done i ≡ true)
        → Carries host (idle host id input [] n []) [] n replies goal done j channels
        → HasTasks done tasks
        → c
          ≡ around host registry id input now n
              (awaiting host (idle host id input [] n []) [] n replies goal (suc left) j k)
              held
              tasks
              channels
        → Waits done c

  -- A reply that was sent.
  pub Carries-mark :
      (done : ℕ → Bool) (i j : ℕ) (channels : List Chan) (d : Chan)
      → i < n
      → (host.oneshot.poll_recv d).0 ≡ value (some (replies i))
      → Carries host (idle host id input [] n []) [] n replies goal done j channels
      → Carries host
          (idle host id input [] n [])
          []
          n
          replies
          goal
          (mark i done)
          j
          (set channels i d)
  Carries-mark done i j channels d lt got h = record {
    sized = length-set channels i d ∙ h.sized;
    sent = λ l le below marked. elim (Bool-cases (nat_beq i l)) [
      | inl same ↦
          subst
            (λ (m : ℕ).
              (host.oneshot.poll_recv (get_or (set channels i d) m (fresh host))).0
              ≡ value (some (replies m)))
            ((nat_beq_iff i l).0 same)
            (ap (λ (x : Chan). (host.oneshot.poll_recv x).0)
                (get_or-set_self channels i d (fresh host) (omega (arith, h.sized)))
              ∙ got)
      | inr differ ↦
          ap (λ (x : Chan). (host.oneshot.poll_recv x).0)
            (get_or-set_ne channels i l d (fresh host) (λ e. ground (arith, differ, e)))
          ∙ h.sent l le below (sym (mark_other i l done differ) ∙ marked)
    ];
    unsent = λ l le below marked.
        let differ = unmarked i l done marked in
        get_or-set_ne channels i l d (fresh host) (λ e. ground (arith, differ, e))
        ∙ h.unsent l le below (sym (mark_other i l done differ) ∙ marked);
  }

  pub HasTasks-mark :
      (done : ℕ → Bool) (i : ℕ) (tasks : HashMap ℤ ℕ)
      → HasTasks done tasks
      → HasTasks (mark i done) (remove (pos (suc i)) tasks)
  HasTasks-mark done i tasks h l lt undone =
      let differ = unmarked i l done undone in
      let other : nat_beq (suc i) (suc l) ≡ false = ground (arith, differ) in
      rw (lookup-remove (pos (suc i)) (pos (suc l)) tasks, other)
        (h l lt (sym (mark_other i l done differ) ∙ undone))
