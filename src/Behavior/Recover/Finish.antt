-- ===== src/Behavior/Recover/Finish.antt =====
-- The end of the care for a need: `finish_recovery`.
use mundus_vivens_game_serve.Common.{
  ℕ, ◌≡◌, ◌≢◌, refl, ap, inl, inr, false, [], ◌∷◌, ◌++◌, if◌then◌else◌, arith, Option, none, some,
  Bool-cases,
}
use mundus_vivens_game_serve.Common.Dict.{beq_refl, nat_eq}
use mundus_vivens_game_serve.Common.Float.{Float}
use mundus_vivens_game_serve.Agents.Furniture.{vacate}
use mundus_vivens_game_serve.Agents.World.{World, Entities, report_job_status}
use mundus_vivens_game_serve.Behavior.Recover.{
  map_affordance, release_seat, finish_recovery, is_camp,
}

module _ (fl : Float) (ecs : Entities fl.F) (e : ℕ) where
  open fl use {F}

  release_seat-calls :
      (seat : Option ℕ) (w : World F) → (release_seat fl ecs seat w).calls ≡ w.calls
  unfolding release_seat
  release_seat-calls none w = refl
  release_seat-calls (some f) w = ground arith

  -- A camp is gone; other furniture is free again.
  abbrev pub IsGivenBack : ℕ → World F → World F → Type 0
  IsGivenBack f after w =
      if is_camp (w.rows f).affordance
      then (after.rows f).is_valid ≡ false
      else (after.rows f).affordance ≡ map_affordance vacate (w.rows f).affordance

  pub given_back :
      (f : ℕ) (w : World F)
      → f ≢ e
      → (w.rows e).needs.occupied_furniture ≡ some f
      → IsGivenBack f (finish_recovery fl ecs e w) w
  unfolding finish_recovery release_seat
  given_back f w ne seat = elim (Bool-cases (is_camp (w.rows f).affordance)) [
    | inl camp ↦ rw camp (ground arith)
    | inr other ↦ rw other (ground arith)
  ]

  abbrev pub IsRecovered : World F → Type 0
  IsRecovered after =
      ((after.rows e).needs.is_resolving_survival ≡ false)
      × ((after.rows e).needs.occupied_furniture ≡ none)
      × ((after.rows e).job.is_active ≡ false)

  pub finish-IsRecovered : (w : World F) → IsRecovered (finish_recovery fl ecs e w)
  unfolding finish_recovery
  finish-IsRecovered w = rw (beq_refl e) (refl, refl, refl)

  pub finish-calls :
      (w : World F)
      → (finish_recovery fl ecs e w).calls
        ≡ w.calls
          ++ (report_job_status
                (w.rows e).identity.npc_id
                (w.rows e).job.job_id
                0
                "survival_resolved"
              ∷ [])
  unfolding finish_recovery
  finish-calls w =
      ap
        (λ cs.
          cs
          ++ (report_job_status (w.rows e).identity.npc_id (w.rows e).job.job_id 0
                "survival_resolved"
              ∷ []))
        (release_seat-calls (w.rows e).needs.occupied_furniture w)
