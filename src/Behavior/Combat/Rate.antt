-- ===== src/Behavior/Combat/Rate.antt =====
-- A fight at close range, tick by tick.
use mundus_vivens_game_serve.Common.{
  ℕ, zero, suc, ◌≡◌, ◌≢◌, ◌∙◌, refl, ap, true, false, [], ◌∷◌, ◌++◌, if◌then◌else◌, arith, Option,
  none, some,
}
use mundus_vivens_game_serve.Common.Float.{Float}
use mundus_vivens_game_serve.Common.Dict.{nat_eq}
use mundus_vivens_game_serve.Agents.{CombatComp, HealthComp}
use mundus_vivens_game_serve.Agents.Tree.{success}
use mundus_vivens_game_serve.Agents.World.{World, report_combat_event}
use mundus_vivens_game_serve.Behavior.Combat.{
  melee_attack, attack_in_range, strike, hurt, stand, separation, retaliate,
}

module _ (fl : Float) (e t : ℕ) where
  open fl use {F, lt, le, sub, dec}

  -- The agent has the target in its range.
  pub record IsDueling (combat : CombatComp F) (health : HealthComp F) (w : World F) : Type 0 where
    pub combat_is : (w.rows e).combat ≡ some combat
    pub target_is : combat.target_entity ≡ some t
    pub target_valid : (w.rows t).is_valid ≡ true
    pub health_is : (w.rows t).health ≡ some health
    pub in_range :
        lt combat.attack_range (separation fl (w.rows e).location (w.rows t).location) ≡ false

  dueling_attacks :
      (combat : CombatComp F) (health : HealthComp F) (w : World F)
      → IsDueling combat health w
      → melee_attack fl e w ≡ attack_in_range fl e t combat health w
  unfolding melee_attack
  dueling_attacks combat health w d =
      simp (melee_attack, d.combat_is, d.target_is, d.target_valid, d.health_is, d.in_range)

  abbrev with_cooldown : ℕ → CombatComp F → CombatComp F
  with_cooldown k combat = record combat { cooldown_ticks = k }

  -- A tick in which nothing happens to the target.
  abbrev IsQuiet : World F → World F → Type 0
  IsQuiet after w =
      (after.rows t ≡ w.rows t)
      × (after.calls ≡ w.calls)
      × ((after.rows e).identity ≡ (w.rows e).identity)

  holds_off :
      (k : ℕ) (combat : CombatComp F) (health : HealthComp F) (w : World F)
      → e ≢ t
      → IsDueling (with_cooldown (suc k) combat) health w
      → IsDueling (with_cooldown k combat) health (melee_attack fl e w).1
        × IsQuiet (melee_attack fl e w).1 w
  unfolding attack_in_range stand
  holds_off k combat health w ne d =
      ground (arith, dueling_attacks (with_cooldown (suc k) combat) health w d)

  abbrev pub left_target : CombatComp F → HealthComp F → Option ℕ
  left_target combat health =
      if le (sub health.hp combat.attack_damage) (dec 0 0) then none else some t

  strikes :
      (combat : CombatComp F) (health : HealthComp F) (w : World F)
      → e ≢ t
      → IsDueling (with_cooldown 0 combat) health w
      → let (status, after) = melee_attack fl e w in
        (status ≡ success)
        × ((after.rows t).health ≡ some (hurt fl combat.attack_damage health))
        × ((after.rows t).busy ≡ none)
        × ((after.rows t).combat ≡ retaliate e (w.rows t).combat)
        × ((after.rows e).combat
            ≡ some
                (record combat { cooldown_ticks = 20; target_entity = left_target combat health }))
        × (after.calls
            ≡ w.calls
              ++ (report_combat_event
                    (w.rows e).identity.npc_id
                    (w.rows t).identity.npc_id
                    combat.attack_damage
                  ∷ []))
  unfolding attack_in_range stand strike
  strikes combat health w ne d = ground (arith, dueling_attacks (with_cooldown 0 combat) health w d)

  -- `n` ticks of the attack.
  pub fight : ℕ → World F → World F
  fight zero w = w
  fight (suc n) w = fight n (melee_attack fl e w).1

  holds_off_long :
      (n : ℕ) (combat : CombatComp F) (health : HealthComp F) (w : World F)
      → e ≢ t
      → IsDueling (with_cooldown n combat) health w
      → IsDueling (with_cooldown 0 combat) health (fight n w) × IsQuiet (fight n w) w
  unfolding fight
  holds_off_long zero combat health w ne d = (d, (refl, refl, refl))
  holds_off_long (suc n) combat health w ne d =
      let (d1, (rows, calls, id)) = holds_off n combat health w ne d in
      let (d2, (rows', calls', id')) =
        holds_off_long n combat health (melee_attack fl e w).1 ne d1 in
      (d2, (rows' ∙ rows, calls' ∙ calls, id' ∙ id))

  -- With the target in range, an agent whose cooldown has c ticks left does nothing to the target
  -- and reports nothing in the next c ticks, and then strikes: the target loses the damage, is no
  -- longer busy, and has the agent for its target if it had none; the agent's cooldown is 20, and
  -- it drops the target just if the blow leaves it no health. So two blows are 21 ticks apart.
  pub melee_rate :
      (combat : CombatComp F) (health : HealthComp F) (w : World F)
      → e ≢ t
      → IsDueling combat health w
      → let v = fight combat.cooldown_ticks w in
        let (status, after) = melee_attack fl e v in
        (v.rows t ≡ w.rows t)
        × (v.calls ≡ w.calls)
        × (status ≡ success)
        × ((after.rows t).health ≡ some (hurt fl combat.attack_damage health))
        × ((after.rows t).busy ≡ none)
        × ((after.rows t).combat ≡ retaliate e (w.rows t).combat)
        × ((after.rows e).combat
            ≡ some
                (record combat { cooldown_ticks = 20; target_entity = left_target combat health }))
        × (after.calls
            ≡ w.calls
              ++ (report_combat_event
                    (w.rows e).identity.npc_id
                    (w.rows t).identity.npc_id
                    combat.attack_damage
                  ∷ []))
  melee_rate combat health w ne d =
      let (d', (rows, calls, id)) = holds_off_long combat.cooldown_ticks combat health w ne d in
      let (ok, hp, idle, turned, spent, told) =
        strikes combat health (fight combat.cooldown_ticks w) ne d' in
      (rows, calls, ok, hp, idle, turned ∙ ap (λ r. retaliate e r.combat) rows, spent, cc)
