-- ===== src/Prelude/Outcome.antt =====
-- Rust code that may panic: a value, or the panic that unwinds the task that runs the code.
-- Whatever the task owned is dropped then, so no state comes back beside a panic.
use mathlib.Core.Path.{◌≡◌, refl}
use mathlib.Core.Option.{Option, none, some}

-- The `unwrap`, `expect` and library calls that panic.
pub data Panic : Type 0 where
  -- `task.send(..).expect("failed to unblock ..")`: the receiver is gone
  failed_to_unblock : Panic
  -- `unwrap` of an absent value
  unwrap_none : Panic
  -- a text is cut outside its bounds or inside a character
  slice_error : Panic
  -- a future is polled after it has returned `Poll::Ready`
  resumed_after_completion : Panic
  -- `poll(..).unwrap()` on "Polled without orchestration future"
  polled_without_orchestration : Panic
  -- `expect("input serialization failed")`
  input_serialization : Panic
  -- `expect("output deserialization failed")`
  output_deserialization : Panic
  -- `unwrap` of an error
  unwrap_err : Panic

pub data Outcome {ℓ} (A : Type ℓ) : Type ℓ where
  returns : A → Outcome A
  panics : Panic → Outcome A

-- `unwrap` of an `Option`
abbrev pub unwrap {ℓ} : {A : Type ℓ} → Option A → Outcome A
unwrap none = panics unwrap_none
unwrap (some a) = returns a

infixl 5 ◌>>=◌
abbrev pub ◌>>=◌ {ℓ κ} : {A : Type ℓ} {B : Type κ} → Outcome A → (A → Outcome B) → Outcome B
returns a >>= f = f a
panics p >>= f = panics p

pub bind_assoc {ℓ κ μ} :
    {A : Type ℓ} {B : Type κ} {C : Type μ} (m : Outcome A) (f : A → Outcome B) (g : B → Outcome C)
    → (m >>= f >>= g) ≡ (m >>= λ a. f a >>= g)
bind_assoc (returns a) f g = refl
bind_assoc (panics p) f g = refl

pub >>=-eq-returns {ℓ κ} :
    {A : Type ℓ} {B : Type κ} (m : Outcome A) (f : A → Outcome B) {b : B}
    → (m >>= f) ≡ returns b
    → (a : A) × (m ≡ returns a) × (f a ≡ returns b)
>>=-eq-returns (returns a) f h = (a, refl, h)
>>=-eq-returns (panics p) f h = cc

pub bind_returns {ℓ} : {A : Type ℓ} (m : Outcome A) → (m >>= λ a. returns a) ≡ m
bind_returns (returns a) = refl
bind_returns (panics p) = refl
