-- ===== src/Society/Perception/Threat.antt =====
-- Which neighbour becomes the threat, and the bounds of the aggro.
use Prim.Native.String.{String}
use mundus_vivens_game_serve.Common.{
  ℕ, ◌+◌, ◌-◌, ◌≤◌, ◌<◌, ◌≡◌, ◌⊎◌, min, Bool, true, false, ◌&&◌, List, [], ◌∷◌, arith, Option, none,
  some, ltb,
}
use mathlib.Core.List.{Memᴰ}
use mundus_vivens_game_serve.Common.Dict.{nat_eq}
use mundus_vivens_game_serve.Common.Float.{Float}
use mundus_vivens_game_serve.Agents.{AggroComp}
use mundus_vivens_game_serve.Agents.World.{World, is_present}
use mundus_vivens_game_serve.Places.Position.{get_nearby_entities}
use mundus_vivens_game_serve.Behavior.Combat.{is_dead, target_of}
use mundus_vivens_game_serve.Society.Perception.Danger.{IsThreat, Worth}
use mundus_vivens_game_serve.Society.Perception.{may_threaten, gain_of, location_in}

module _ {F : Type 0} (faction : String) (e : ℕ) (w : World F) where
  -- No threat among the neighbours is worth more.
  abbrev pub AtMost : ℕ → List ℕ → Type 0
  AtMost g [] = Unit
  AtMost g (n ∷ ns) = ((k : ℕ) → IsThreat e w n → Worth e w faction n k → k ≤ g) × AtMost g ns

  -- A threat among the neighbours, and what it is worth.
  pub record IsWorst (ns : List ℕ) (n : ℕ) (g : ℕ) : Type 0 where
    pub listed : Memᴰ n ns
    pub threat : IsThreat e w n
    pub worth : Worth e w faction n g

  AtMost-mono : (g h : ℕ) (ns : List ℕ) → g ≤ h → AtMost g ns → AtMost h ns
  AtMost-mono g h [] le m = tt
  AtMost-mono g h (n ∷ ns) le (m, ms) =
      ((λ k t v. omega (arith, m k t v)), AtMost-mono g h ns le ms)

  -- What the search returns, from what it starts with.
  abbrev Found : Option ℕ × ℕ → List ℕ → Option ℕ × ℕ → Type 0
  Found best ns r =
      (best.1 ≤ r.1) × AtMost r.1 ns × ((r ≡ best) ⊎ (n : ℕ) × (r.0 ≡ some n) × IsWorst ns n r.1)

  abbrev is_worse : ℕ → ℕ → Bool
  is_worse n g = may_threaten e n w && ltb g (gain_of faction e n w)

module _ (fl : Float) where
  open fl use {F, dec}

  abbrev pub neighbours : ℕ → World F → List ℕ
  neighbours e w =
      get_nearby_entities fl (w.rows e).location.x (w.rows e).location.z (dec 20 0) (location_in w)
        w.places

  -- How one call changes the aggro.
  pub data Perceived (e : ℕ) (faction : String) (w : World F) (before after : AggroComp)
      : Type 0 where
    stays_out :
        (is_present (target_of (w.rows e).combat) w ≡ true) ⊎ (is_dead (w.rows e).health ≡ true)
        → after.aggro_score ≡ 0
        → after.is_inhibited ≡ false
        → Perceived e faction w before after
    notices :
        (n g : ℕ)
        → IsWorst faction e w (neighbours e w) n g
        → AtMost faction e w g (neighbours e w)
        → after
          ≡ record before { threat_entity = some n; aggro_score = min 100 (before.aggro_score + g) }
        → Perceived e faction w before after
    sees_nothing :
        AtMost faction e w 0 (neighbours e w)
        → after.aggro_score ≡ before.aggro_score - 10
        → (0 < before.aggro_score
            → after.aggro_score ≡ 0
            → (after.threat_entity ≡ none) × (after.is_inhibited ≡ false))
        → Perceived e faction w before after
