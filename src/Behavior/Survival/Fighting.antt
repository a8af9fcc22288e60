-- ===== src/Behavior/Survival/Fighting.antt =====
-- What the tree does for an agent that has a living target.
use mundus_vivens_game_serve.Common.{
  ℕ, ◌≡◌, ◌∙◌, ap, inl, inr, Bool, true, false, if◌then◌else◌, arith, none, some, Bool-cases,
}
use mundus_vivens_game_serve.Common.Float.{Float}
use mundus_vivens_game_serve.Grid.{Field}
use mundus_vivens_game_serve.Agents.{CombatComp, HealthComp}
use mundus_vivens_game_serve.Agents.Furniture.{is_some}
use mundus_vivens_game_serve.Agents.Tree.{success, failure, running, Node, tick, is_failure}
use mundus_vivens_game_serve.Agents.Tree.Steps.{
  tick-selector, sequence_ends, sequence_goes_on, sequence_last, selector_goes_on, selector_stops,
  update_tree_ticks,
}
use mundus_vivens_game_serve.Agents.World.{World, Entities}
use mundus_vivens_game_serve.Behavior.Combat.{
  has_combat_target, is_low_health, melee_attack, attack_in_range,
}
use mundus_vivens_game_serve.Behavior.Flee.{flee}
use mundus_vivens_game_serve.Behavior.Aggro.{is_aggro_high}
use mundus_vivens_game_serve.Behavior.Survival.{
  survival_sequences, flee_seq, combat_seq, create_survival_tree, run_tree,
}

module _ (fl : Float) (ecs : Entities fl.F) (grid : Field) (cos sin : fl.F → fl.F) (e : ℕ) where
  open fl use {F, lt, dec}

  -- A valid target with health, which is not dead.
  pub record IsFighting (w : World F) : Type 0 where
    pub combat : CombatComp F
    pub target : ℕ
    pub health : HealthComp F
    pub combat_is : (w.rows e).combat ≡ some combat
    pub target_is : combat.target_entity ≡ some target
    pub target_valid : (w.rows target).is_valid ≡ true
    pub health_is : (w.rows target).health ≡ some health
    pub alive : health.is_dead ≡ false

  has_target : (w : World F) → IsFighting w → has_combat_target e w ≡ (success, w)
  unfolding has_combat_target
  has_target w f =
      simp (has_combat_target, f.combat_is, f.target_is, f.target_valid, f.health_is, f.alive)

  no_aggro : (w : World F) → IsFighting w → is_aggro_high e w ≡ (failure, w)
  unfolding is_aggro_high
  no_aggro w f = simp (is_aggro_high, f.combat_is, f.target_is, f.target_valid)

  flees : (w : World F) → IsFighting w → (flee fl grid cos sin e w).0 ≡ running
  unfolding flee
  flees w f = ground (arith, f.combat_is, f.target_is, f.target_valid)

  attacks : (w : World F) → IsFighting w → is_failure (melee_attack fl e w).0 ≡ false
  unfolding melee_attack attack_in_range
  attacks w f = ground (arith, f.combat_is, f.target_is, f.target_valid, f.health_is)

  abbrev has_low_health : World F → Bool
  has_low_health w = elim ((w.rows e).health) [
    | none ↦ false
    | some health ↦ lt health.hp (dec 30 0)
  ]

  low_health_cases :
      (w : World F)
      → is_low_health fl e w ≡ (if has_low_health w then (success, w) else (failure, w))
  unfolding is_low_health
  low_health_cases w = ground arith

  abbrev flee_node : Node (World F)
  flee_node = flee_seq fl ecs grid cos sin e

  flees_first :
      (w : World F)
      → IsFighting w
      → has_low_health w ≡ true
      → tick flee_node w ≡ flee fl grid cos sin e w
  flees_first w f low =
      sequence_goes_on _ _ _ (has_target w f)
      ∙ sequence_goes_on _ _ _
          (low_health_cases w ∙ ap (λ b. if b then (success, w) else (failure, w)) low)
      ∙ sequence_last _ w

  stands_firm :
      (w : World F) → IsFighting w → has_low_health w ≡ false → tick flee_node w ≡ (failure, w)
  stands_firm w f not_low =
      sequence_goes_on _ _ _ (has_target w f)
      ∙ sequence_ends _ _
          (low_health_cases w ∙ ap (λ b. if b then (success, w) else (failure, w)) not_low)

  melee_tick :
      (w : World F) → IsFighting w → tick (combat_seq fl ecs grid cos sin e) w ≡ melee_attack fl e w
  melee_tick w f = sequence_goes_on _ _ _ (has_target w f) ∙ sequence_last _ w

  tree_fights :
      (w : World F)
      → IsFighting w
      → tick (create_survival_tree fl ecs grid cos sin e) w
        ≡ (if has_low_health w then flee fl grid cos sin e w else melee_attack fl e w)
  unfolding create_survival_tree survival_sequences
  tree_fights w f = elim (Bool-cases (has_low_health w)) [
    | inl low ↦
        rw low (
          tick-selector _ w
          ∙ selector_stops _ _ w (flees_first w f low) (ap is_failure (flees w f)))
    | inr not_low ↦ rw not_low (
        tick-selector _ w
        ∙ selector_goes_on _ _ w (stands_firm w f not_low)
        ∙ selector_goes_on _ _ w (sequence_ends _ _ (no_aggro w f))
        ∙ selector_stops _ _ w (melee_tick w f) (attacks w f))
  ]

  -- An agent that is not busy and has a living target flees if its health is low, and otherwise
  -- chases or attacks the target; no need, order or walk is looked at in that tick.
  pub run_tree_fights :
      (w : World F)
      → IsFighting w
      → (w.rows e).busy ≡ none
      → (w.rows e).has_tree ≡ true
      → run_tree fl ecs grid cos sin e w
        ≡ (if has_low_health w then flee fl grid cos sin e w else melee_attack fl e w).1
  unfolding run_tree
  run_tree_fights w f free tree = rw tree (
      update_tree_ticks _ (create_survival_tree fl ecs grid cos sin e) w (ap is_some free)
      ∙ ap (λ r. r.1) (tree_fights w f))
