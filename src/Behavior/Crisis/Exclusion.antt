-- ===== src/Behavior/Crisis/Exclusion.antt =====
-- One need at a time: what the four conditions say while a need is cared for.
use mundus_vivens_game_serve.Common.{ℕ, ◌≡◌, refl, true, arith}
use mundus_vivens_game_serve.Common.Dict.{nat_eq}
use mundus_vivens_game_serve.Common.Float.{Float}
use mundus_vivens_game_serve.Agents.{SurvivalType, hunger_need, fatigue_need}
use mundus_vivens_game_serve.Agents.Tree.{NodeStatus, success, failure}
use mundus_vivens_game_serve.Agents.World.{World}
use mundus_vivens_game_serve.Behavior.Crisis.{
  is_hungry, is_fatigued, is_scheduled_eat, is_scheduled_sleep, begin_crisis,
}

module _ (fl : Float) where
  open fl use {F}

  -- The agent cares for this need.
  abbrev pub CaresFor : SurvivalType → ℕ → World F → Type 0
  CaresFor need e w =
      ((w.rows e).needs.is_resolving_survival ≡ true)
      × ((w.rows e).needs.current_survival_type ≡ need)

  -- The conditions of one need succeed, those of the other fail, and nothing changes.
  abbrev pub IsExclusive :
      (ℕ → World F → NodeStatus × World F)
      → (ℕ → World F → NodeStatus × World F)
      → (ℕ → World F → NodeStatus × World F)
      → (ℕ → World F → NodeStatus × World F)
      → ℕ
      → World F
      → Type 0
  IsExclusive crisis scheduled other other_scheduled e w =
      (crisis e w ≡ (success, w))
      × (scheduled e w ≡ (success, w))
      × (other e w ≡ (failure, w))
      × (other_scheduled e w ≡ (failure, w))

  hunger-IsExclusive :
      (e : ℕ) (w : World F)
      → CaresFor hunger_need e w
      → IsExclusive
          (is_hungry fl)
          (is_scheduled_eat fl)
          (is_fatigued fl)
          (is_scheduled_sleep fl)
          e
          w
  unfolding is_hungry is_fatigued is_scheduled_eat is_scheduled_sleep
  hunger-IsExclusive e w (resolving, hunger) = (
    rw (resolving, hunger) refl,
    rw (resolving, hunger) refl,
    rw (resolving, hunger) refl,
    rw (resolving, hunger) refl,
  )

  fatigue-IsExclusive :
      (e : ℕ) (w : World F)
      → CaresFor fatigue_need e w
      → IsExclusive
          (is_fatigued fl)
          (is_scheduled_sleep fl)
          (is_hungry fl)
          (is_scheduled_eat fl)
          e
          w
  unfolding is_hungry is_fatigued is_scheduled_eat is_scheduled_sleep
  fatigue-IsExclusive e w (resolving, hunger) = (
    rw (resolving, hunger) refl,
    rw (resolving, hunger) refl,
    rw (resolving, hunger) refl,
    rw (resolving, hunger) refl,
  )

  is_hungry-CaresFor :
      (e : ℕ) (w : World F)
      → (is_hungry fl e w).0 ≡ success
      → CaresFor hunger_need e (is_hungry fl e w).1
  unfolding is_hungry begin_crisis
  is_hungry-CaresFor e w h = ground arith

  is_fatigued-CaresFor :
      (e : ℕ) (w : World F)
      → (is_fatigued fl e w).0 ≡ success
      → CaresFor fatigue_need e (is_fatigued fl e w).1
  unfolding is_fatigued begin_crisis
  is_fatigued-CaresFor e w h = ground arith

  is_scheduled_eat-CaresFor :
      (e : ℕ) (w : World F)
      → (is_scheduled_eat fl e w).0 ≡ success
      → CaresFor hunger_need e (is_scheduled_eat fl e w).1
  unfolding is_scheduled_eat
  is_scheduled_eat-CaresFor e w h = ground arith

  is_scheduled_sleep-CaresFor :
      (e : ℕ) (w : World F)
      → (is_scheduled_sleep fl e w).0 ≡ success
      → CaresFor fatigue_need e (is_scheduled_sleep fl e w).1
  unfolding is_scheduled_sleep
  is_scheduled_sleep-CaresFor e w h = ground arith

  abbrev pub HungerAlone : ℕ → World F → Type 0
  HungerAlone =
      IsExclusive (is_hungry fl) (is_scheduled_eat fl) (is_fatigued fl) (is_scheduled_sleep fl)

  abbrev pub FatigueAlone : ℕ → World F → Type 0
  FatigueAlone =
      IsExclusive (is_fatigued fl) (is_scheduled_sleep fl) (is_hungry fl) (is_scheduled_eat fl)

  -- Whichever of the four conditions succeeds, after it the two conditions of its need succeed and
  -- the two of the other need fail, and none of the four changes the world again, so that no
  -- second report is sent.
  pub crises_exclude :
      (e : ℕ) (w : World F)
      → ((is_hungry fl e w).0 ≡ success → HungerAlone e (is_hungry fl e w).1)
        × ((is_scheduled_eat fl e w).0 ≡ success → HungerAlone e (is_scheduled_eat fl e w).1)
        × ((is_fatigued fl e w).0 ≡ success → FatigueAlone e (is_fatigued fl e w).1)
        × ((is_scheduled_sleep fl e w).0 ≡ success → FatigueAlone e (is_scheduled_sleep fl e w).1)
  crises_exclude e w = (
    λ h. hunger-IsExclusive e _ (is_hungry-CaresFor e w h),
    λ h. hunger-IsExclusive e _ (is_scheduled_eat-CaresFor e w h),
    λ h. fatigue-IsExclusive e _ (is_fatigued-CaresFor e w h),
    λ h. fatigue-IsExclusive e _ (is_scheduled_sleep-CaresFor e w h),
  )
