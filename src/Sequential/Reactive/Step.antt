-- ===== src/Sequential/Reactive/Step.antt =====
-- What one event does to a program and to the executor.
use durabletask_rs.Prelude.{
  ℕ, suc, ◌<◌, ◌≡◌, refl, String, Bool, true, false, Option, none, some, List, [], ◌∷◌, ◌==◌,
  string_eq, length,
}
use durabletask_rs.Prelude.Int.{pos, i32_max}
use durabletask_rs.Prelude.HashMap.{lookup, lookup_other}
use durabletask_rs.Proto.{Timestamp}
use durabletask_rs.Internal.Events.{new_event_raised_event}
use durabletask_rs.Types.Context.{Host, Events}
use durabletask_rs.Registry.{Registry}
use durabletask_rs.Executor.Context.{push_back}
use durabletask_rs.Executor.Execute.{round}
use durabletask_rs.Sequential.{Request, reply}
use durabletask_rs.Sequential.Reactive.{
  Program, code_of, Kept, State, at_call, at_event, at_end, Stimulus, raise, answer, confirm,
  on_raise, react, told, Expects,
}
use durabletask_rs.Sequential.Reactive.Kept.{Agrees, Agrees-push_back}
use durabletask_rs.Sequential.Reactive.Poll.{embed, left_action, Reaches, kept_of, poll_settle}
use durabletask_rs.Sequential.Reactive.Round.{
  raise_waiting, raise_finished, acknowledges, acknowledges_again, answers, raises, raises_empty,
}

-- The requests that were made.
abbrev pub requests_of : State → ℕ
requests_of (at_call n q k acknowledged kept) = suc n
requests_of (at_event n name k kept) = n
requests_of (at_end n result kept) = n

module _ {Chan Act : Type 0} (host : Host Chan) (id : String) (input : Option String)
    (time : Timestamp) (registry : Registry Act) (now : Timestamp) where
  abbrev Arrives : State → Stimulus → Events → List Chan → Type 0
  Arrives s x received channels =
      Reaches host id input time (react host s x)
        (round host registry id (told host now s x) (embed host id input time s received channels))

  answered_call :
      (n : ℕ) (q : Request) (k : String → Program) (kept : Kept) (r : String) (received : Events)
      (channels : List Chan)
      → suc n < i32_max
      → Agrees kept received
      → Arrives (at_call n q k true kept) (answer r) received channels
  answered_call n q k kept r received channels h agrees =
      let (rest, e) =
        answers host id input time registry now q (λ x. code_of (k x)) n received channels r in
      rw e (poll_settle host id input time (k (reply q r)) (suc n) kept received rest h agrees)

  -- An event at a program that awaits one.
  raised_event :
      (n : ℕ) (name : String) (k : String → Program) (kept : Kept) (raised : String)
      (text : Option String) (received : Events) (channels : List Chan) (b : Bool)
      → (host.to_lowercase name == host.to_lowercase raised) ≡ b
      → n < i32_max
      → Agrees kept received
      → Reaches host id input time (on_raise host n name k kept raised text b) (
          round host registry id
            (new_event_raised_event now raised text)
            (embed host id input time (at_event n name k kept) received channels))
  raised_event n name k kept raised text received channels false e h agrees = (
    push_back (host.to_lowercase raised) text received,
    channels,
    Agrees-push_back (host.to_lowercase raised) text kept received agrees,
    raise_waiting host id input time registry now raised text (λ x. code_of (k x)) n [] []
        ((host.to_lowercase name, length channels ∷ []) ∷ []) received channels
        (lookup_other (host.to_lowercase raised) (host.to_lowercase name) (length channels ∷ []) e),
  )
  raised_event n name k kept raised none received channels true e h agrees =
      raises_empty host id input time registry now name raised ((string_eq.eq_iff _ _).0 e)
        (λ x. code_of (k x)) n received channels
  raised_event n name k kept raised (some x) received channels true e h agrees =
      let (rest, p) =
        raises host id input time registry now name raised ((string_eq.eq_iff _ _).0 e)
          (λ r. code_of (k r)) n received channels x in
      rw p (poll_settle host id input time (k x) n kept received rest h agrees)

  nothing_waits : (name : String) → lookup {V = List ℕ} name [] ≡ none
  unfolding lookup
  nothing_waits name = refl

  pub round_reacts :
      (s : State) (x : Stimulus) (received : Events) (channels : List Chan)
      → Expects host s x
      → requests_of s < i32_max
      → Agrees (kept_of host id input time s) received
      → Arrives s x received channels
  round_reacts (at_call n q k true kept) confirm received channels fits h agrees = (
    received,
    channels,
    agrees,
    acknowledges_again host id input time registry now q k n kept received channels,
  )
  round_reacts (at_call n q k false kept) confirm received channels fits h agrees = (
    received,
    channels,
    agrees,
    acknowledges host id input time registry now q k n kept received channels,
  )
  round_reacts (at_call n q k true kept) (answer r) received channels fits h agrees =
      answered_call n q k kept r received channels h agrees
  round_reacts (at_call n q k false kept) (answer r) received channels fits h agrees = absurd fits
  round_reacts (at_call n q k b kept) (raise name text) received channels fits h agrees = (
    push_back (host.to_lowercase name) text received,
    channels,
    Agrees-push_back (host.to_lowercase name) text kept received agrees,
    raise_waiting host id input time registry now name text (λ x. code_of (k x)) (suc n)
        (left_action host id input time b q n) ((pos (suc n), length channels) ∷ []) [] received
        channels (nothing_waits (host.to_lowercase name)),
  )
  round_reacts (at_event n name k kept) (raise raised text) received channels fits h agrees =
      raised_event n name k kept raised text received channels
        (host.to_lowercase name == host.to_lowercase raised) refl h agrees
  round_reacts (at_event n name k kept) confirm received channels fits h agrees = absurd fits
  round_reacts (at_event n name k kept) (answer r) received channels fits h agrees = absurd fits
  round_reacts (at_end n result kept) (raise name text) received channels fits h agrees = (
    push_back (host.to_lowercase name) text received,
    channels,
    Agrees-push_back (host.to_lowercase name) text kept received agrees,
    raise_finished host id input time registry now name text n _ received channels,
  )
  round_reacts (at_end n result kept) confirm received channels fits h agrees = absurd fits
  round_reacts (at_end n result kept) (answer r) received channels fits h agrees = absurd fits
