-- ===== src/Sequential/FanOut/Wait.antt =====
-- A poll of code that awaits the tasks of requests of which some are done.
use durabletask_rs.Prelude.{
  ℕ, zero, suc, ◌+◌, ◌<◌, ◌≤◌, ◌≡◌, refl, ap, ◌∙◌, sym, String, Bool, true, false, Bool-cases, inl,
  inr, some, List, [], ◌∷◌, map, length, get_or, set, length-set, arith, subst, nat_beq,
  nat_beq_iff,
}
use durabletask_rs.Prelude.Outcome.{Outcome, returns}
use durabletask_rs.Oneshot.{value}
use durabletask_rs.Task.{poll_task}
use durabletask_rs.Types.Context.{Host, World, OrchestratorContext, Events}
use durabletask_rs.Types.Async.{Async, Progress, suspended, without, poll_with, poll_async}
use durabletask_rs.Types.Function.{OrchestratorResult}
use durabletask_rs.Sequential.{Script, code_of}
use durabletask_rs.Sequential.Poll.{task_on, fresh, poll_task_sent}
use durabletask_rs.Sequential.FanOut.{await_all, indices}

pub get_or-set_ne {ℓ} :
    {A : Type ℓ} (xs : List A) (i j : ℕ) (v d : A)
    → ((i ≡ j) → ⊥)
    → get_or (set xs i v) j d ≡ get_or xs j d
get_or-set_ne [] i j v d h = refl
get_or-set_ne (x ∷ xs) zero zero v d h = absurd (h refl)
get_or-set_ne (x ∷ xs) zero (suc j) v d h = refl
get_or-set_ne (x ∷ xs) (suc i) zero v d h = refl
get_or-set_ne (x ∷ xs) (suc i) (suc j) v d h = get_or-set_ne xs i j v d (λ e. h (ap suc e))

pub set_same {ℓ} : {A : Type ℓ} (xs : List A) (i : ℕ) (d : A) → get_or xs i d ≡ d → set xs i d ≡ xs
set_same [] i d h = refl
set_same (x ∷ xs) zero d h = ap (λ (y : _). y ∷ xs) (sym h)
set_same (x ∷ xs) (suc i) d h = ap (λ (ys : List _). x ∷ ys) (set_same xs i d h)

-- `n` requests were made; `replies i` is what the code receives for the request `i`.
module _ {Chan : Type 0} (host : Host Chan) (octx : OrchestratorContext) (received : Events) (n : ℕ)
    (replies : ℕ → String) (goal : Script) where
  abbrev pub world : List ℕ → List Chan → World Chan
  world held channels = record {
    octx = record octx { held = held };
    received_events = received;
    channels = channels;
  }

  -- The code that awaits the tasks from `j` on, `left` of them.
  abbrev pub awaiting : ℕ → ℕ → (List String → Script) → Async (OrchestratorResult String)
  awaiting left j k = await_all (map task_on (indices left j)) (λ rs. code_of (k rs))

  -- The channels of the requests from `j` on: a reply waits in those that are done.
  pub record Carries (done : ℕ → Bool) (j : ℕ) (channels : List Chan) : Type 0 where
    pub sized : length channels ≡ n
    pub sent :
        (i : ℕ)
        → j ≤ i
        → i < n
        → done i ≡ true
        → (host.oneshot.poll_recv (get_or channels i (fresh host))).0 ≡ value (some (replies i))
    pub unsent :
        (i : ℕ) → j ≤ i → i < n → done i ≡ false → get_or channels i (fresh host) ≡ fresh host

  -- What a poll comes to: the code waits for the first request that is not done, or goes on with
  -- all replies.
  pub data Polled (done : ℕ → Bool)
      (p : Outcome (Progress (OrchestratorResult String) × World Chan)) : Type 0 where
    waits :
        (left j : ℕ) (k : List String → Script) (held : List ℕ) (channels : List Chan)
        → suc left + j ≡ n
        → k (map replies (indices (suc left) j)) ≡ goal
        → done j ≡ false
        → ((i : ℕ) → i < j → done i ≡ true)
        → Carries done j channels
        → p ≡ returns (suspended (awaiting (suc left) j k), world held channels)
        → Polled done p
    goes_on :
        (held : List ℕ) (channels : List Chan)
        → ((i : ℕ) → i < n → done i ≡ true)
        → p ≡ poll_async host (code_of goal) (world held channels)
        → Polled done p

  -- A poll leaves the channels of the later requests alone.
  Carries-set :
      (done : ℕ → Bool) (j : ℕ) (channels : List Chan) (c : Chan)
      → Carries done j channels
      → Carries done (suc j) (set channels j c)
  Carries-set done j channels c h = record {
    sized = length-set channels j c ∙ h.sized;
    sent = λ i le lt d.
        ap (λ (x : Chan). (host.oneshot.poll_recv x).0)
          (get_or-set_ne channels j i c (fresh host) (λ e. absurd (omega arith)))
        ∙ h.sent i (omega arith) lt d;
    unsent = λ i le lt d.
        get_or-set_ne channels j i c (fresh host) (λ e. absurd (omega arith))
        ∙ h.unsent i (omega arith) lt d;
  }

  poll_done :
      (left j : ℕ) (k : List String → Script) (held : List ℕ) (channels : List Chan)
      → (host.oneshot.poll_recv (get_or channels j (fresh host))).0 ≡ value (some (replies j))
      → poll_async host (awaiting (suc left) j k) (world held channels)
        ≡ poll_async host (awaiting left (suc j) (λ rs. k (replies j ∷ rs))) (
            world
              (without j held)
              (set channels j (host.oneshot.poll_recv (get_or channels j (fresh host))).1))
  unfolding poll_async poll_with
  poll_done left j k held channels got =
      rw (poll_task_sent host channels j (get_or channels j (fresh host)) (replies j) refl got)

  pub poll_undone :
      (left j : ℕ) (k : List String → Script) (held : List ℕ) (channels : List Chan)
      → get_or channels j (fresh host) ≡ fresh host
      → poll_async host (awaiting (suc left) j k) (world held channels)
        ≡ returns (suspended (awaiting (suc left) j k), world held channels)
  unfolding poll_async poll_with poll_task
  poll_undone left j k held channels at =
      rw (at, host.oneshot.poll-channel)
        (ap (λ (cs : List Chan). returns (suspended (awaiting (suc left) j k), world held cs))
          (set_same channels j (fresh host) at))

  below_suc :
      (done : ℕ → Bool) (j : ℕ)
      → ((i : ℕ) → i < j → done i ≡ true)
      → done j ≡ true
      → (i : ℕ) → i < suc j
      → done i ≡ true
  below_suc done j below last i h = elim (Bool-cases (nat_beq i j)) [
    | inl e ↦ subst (λ x. done x ≡ true) (sym ((nat_beq_iff i j).0 e)) last
    | inr e ↦ below i (ground (arith, e))
  ]

  pub poll_awaiting :
      (done : ℕ → Bool) (left j : ℕ) (k : List String → Script) (held : List ℕ)
      (channels : List Chan)
      → left + j ≡ n
      → k (map replies (indices left j)) ≡ goal
      → ((i : ℕ) → i < j → done i ≡ true)
      → Carries done j channels
      → Polled done (poll_async host (awaiting left j k) (world held channels))
  poll_awaiting done zero j k held channels sum ends below h =
      goes_on held channels (λ i lt. below i (omega arith))
        (ap (λ s. poll_async host (code_of s) (world held channels)) ends)
  poll_awaiting done (suc left) j k held channels sum ends below h = elim (Bool-cases (done j)) [
    | inl ready ↦
        let got = h.sent j (omega arith) (omega arith) ready in
        subst (Polled done) (sym (poll_done left j k held channels got)) (
          poll_awaiting done left (suc j) (λ rs. k (replies j ∷ rs)) (without j held) _
            (omega arith) ends (below_suc done j below ready) (Carries-set done j channels _ h))
    | inr undone ↦
        waits left j k held channels sum ends undone below h
          (poll_undone left j k held channels (h.unsent j (omega arith) (omega arith) undone))
  ]
