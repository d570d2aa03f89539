-- ===== src/Executor/Invariant/Join.antt =====
-- The invariant through `join!`, and so through a run of any orchestrator's code.
use durabletask_rs.Prelude.{◌≡◌, refl, String}
use durabletask_rs.Prelude.Outcome.{Outcome, returns, panics}
use durabletask_rs.Types.Context.{Host, World}
use durabletask_rs.Types.Async.{Async, Arm, ProgressWith, poll_arm, poll_arms, poll_async}
use durabletask_rs.Executor.Invariant.{Holds, IsSound}
use durabletask_rs.Executor.Invariant.Code.{poll_with-IsSound}

module _ {Chan : Type 0} where
  -- A predicate of the world that a poll leaves.
  abbrev Leaves : {P : Type 0} → Outcome (P × World Chan) → Type 0
  Leaves {P} = Holds {A = P × World Chan} (λ p. IsSound p.1)

  module _ (host : Host Chan) where
    poll_arm-IsSound : (arm : Arm) (w : World Chan) → IsSound w → Leaves (poll_arm host arm w)
    unfolding poll_arm
    poll_arm-IsSound = poll_with-IsSound host _ (λ none. absurd none)

    poll_arms-IsSound :
        (arms : Arm × Arm) (w : World Chan) → IsSound w → Leaves (poll_arms host arms w)
    unfolding poll_arms
    poll_arms-IsSound (arm₁, arm₂) w h =
        first (poll_arm host arm₁ w) refl (poll_arm-IsSound arm₁ w h)
      where
        second :
            (progress₁ : ProgressWith ⊥ String) (w₁ : World Chan)
            (polled : Outcome (ProgressWith ⊥ String × World Chan))
            → poll_arm host arm₁ w ≡ returns (progress₁, w₁)
            → poll_arm host arm₂ w₁ ≡ polled
            → Leaves polled
            → Leaves (host.join_api.poll_join (poll_arm host) (arm₁, arm₂) w)
        second progress₁ w₁ (panics p) e₁ e₂ sound =
            rw (host.join_api.join_panics_second (poll_arm host) arm₁ arm₂ w w₁ progress₁ p e₁ e₂)
              tt
        second progress₁ w₁ (returns (progress₂, w₂)) e₁ e₂ sound =
            rw
              (host.join_api.join-returns (poll_arm host) arm₁ arm₂ w w₁ w₂ progress₁ progress₂ e₁
                e₂)
              sound

        first :
            (polled : Outcome (ProgressWith ⊥ String × World Chan))
            → poll_arm host arm₁ w ≡ polled
            → Leaves polled
            → Leaves (host.join_api.poll_join (poll_arm host) (arm₁, arm₂) w)
        first (panics p) e sound =
            rw (host.join_api.join_panics_first (poll_arm host) arm₁ arm₂ w p e) tt
        first (returns (progress₁, w₁)) e sound =
            second progress₁ w₁ (poll_arm host arm₂ w₁) e refl (poll_arm-IsSound arm₂ w₁ sound)

    pub poll_async-IsSound :
        {A : Type 0} (code : Async A) (w : World Chan) → IsSound w → Leaves (poll_async host code w)
    unfolding poll_async
    poll_async-IsSound = poll_with-IsSound host (poll_arms host) poll_arms-IsSound
