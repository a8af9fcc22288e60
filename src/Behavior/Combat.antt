-- ===== src/Behavior/Combat.antt =====
-- ConditionHasCombatTarget, ConditionIsLowHealth and ActionMeleeAttack. A target without health is
-- undefined in the source; the attack leaves it alone here.
pub mod Rate
use Prim.Native.String.{String, ◌++◌}
use mundus_vivens_game_serve.Common.{
  ℕ, ◌-◌, Bool, true, false, not, ◌&&◌, ◌||◌, Option, none, some, List, [], ◌∷◌, ltb, leb,
  if◌then◌else◌,
}
use mundus_vivens_game_serve.Common.Float.{Float}
use mundus_vivens_game_serve.Agents.{
  LocationComp, CombatComp, HealthComp, ToilComp, VelocityComp, moving, working, same_text,
}
use mundus_vivens_game_serve.Agents.Planning.{is_moving}
use mundus_vivens_game_serve.Agents.Tree.{NodeStatus, success, failure, running}
use mundus_vivens_game_serve.Places.{wilderness_name}
use mundus_vivens_game_serve.Agents.World.{
  Row, World, put_row, send, is_present, forget_path, report_combat_event,
}

module _ {F : Type 0} where
  abbrev pub is_dead : Option (HealthComp F) → Bool
  is_dead none = false
  is_dead (some health) = health.is_dead

  abbrev pub target_of : Option (CombatComp F) → Option ℕ
  target_of none = none
  target_of (some combat) = combat.target_entity

  abbrev pub drop_target : CombatComp F → CombatComp F
  drop_target combat = record combat { target_entity = none }

  unfoldable pub has_combat_target : ℕ → World F → NodeStatus × World F
  has_combat_target e w =
      let r = w.rows e in
      elim r.combat [
        | none ↦ (failure, w)
        | some combat ↦ elim combat.target_entity [
          | none ↦ (failure, w)
          | some t ↦
              if not ((w.rows t).is_valid)
              then (failure, w)
              else if is_dead ((w.rows t).health)
              then (failure, put_row e (record r { combat = some (drop_target combat) }) w)
              else (success, w)
        ]
      ]

  -- The attacked agent is interrupted, and turns on the attacker if it has no target yet.
  abbrev pub retaliate : ℕ → Option (CombatComp F) → Option (CombatComp F)
  retaliate e none = none
  retaliate e (some combat) = some (elim combat.target_entity [
    | none ↦ record combat { target_entity = some e }
    | some other ↦ combat
  ])

module _ (fl : Float) where
  open fl use {F, add, sub, mul, sqrt, lt, le, dec}

  unfoldable pub is_low_health : ℕ → World F → NodeStatus × World F
  is_low_health e w = elim ((w.rows e).health) [
    | none ↦ (failure, w)
    | some health ↦ if lt health.hp (dec 30 0) then (success, w) else (failure, w)
  ]

  abbrev pub separation : LocationComp F → LocationComp F → F
  separation loc target =
      let dx = sub target.x loc.x in
      let dz = sub target.z loc.z in sqrt (add (mul dx dx) (mul dz dz))

  -- `std::abs`
  abbrev pub magnitude : F → F
  magnitude v = if lt v (dec 0 0) then sub (dec 0 0) v else v

  abbrev has_moved_off : LocationComp F → Row F → Bool
  has_moved_off target r =
      lt (dec 15 1) (magnitude (sub r.job.target_x target.x))
      || lt (dec 15 1) (magnitude (sub r.job.target_z target.z))

  pub chase : Row F → Row F → Row F
  chase target r =
      if has_moved_off target.location r
      then record r {
        job = record r.job {
          target_x = target.location.x;
          target_z = target.location.z;
          target_location =
              if same_text target.location.location_name ""
              then wilderness_name
              else target.location.location_name;
        };
        path = forget_path r.path;
        toil = record r.toil { state = moving };
        activity = "추격 중: " ++ target.identity.display_name;
      }
      else r

  abbrev pub stop : Option (VelocityComp F) → Option (VelocityComp F)
  stop none = none
  stop (some vel) = some (record vel { dir_x = dec 0 0; dir_z = dec 0 0; speed = dec 0 0 })

  -- In range, the agent stands still.
  pub stand : Row F → Row F
  stand r =
      if is_moving r.toil.state
      then record r { toil = record r.toil { state = working }; velocity = stop r.velocity }
      else r

  -- Health after damage.
  pub hurt : F → HealthComp F → HealthComp F
  hurt damage health =
      let left = sub health.hp damage in
      if le left (dec 0 0)
      then record health { hp = dec 0 0; is_dead = true }
      else record health { hp = left }

  abbrev pub strike_back : ℕ → F → HealthComp F → Row F → Row F
  strike_back e damage health target = record target {
    health = some (hurt damage health);
    busy = none;
    combat = retaliate e target.combat;
  }

  abbrev pub after_blow : String → F → CombatComp F → HealthComp F → Row F → Row F
  after_blow name damage combat health r = record r {
    combat = some (record combat {
      cooldown_ticks = 20;
      target_entity = if le (sub health.hp damage) (dec 0 0) then none else combat.target_entity;
    });
    activity = "공격 중: " ++ name;
  }

  -- The blow: the target's row is written first, and then the attacker's.
  pub strike : ℕ → ℕ → CombatComp F → HealthComp F → World F → World F
  strike e t combat health w =
      let r = w.rows e in
      let target = w.rows t in
      let damage = combat.attack_damage in
      let hit = put_row t (strike_back e damage health target) w in
      put_row e (after_blow target.identity.display_name damage combat health (hit.rows e))
        (send (report_combat_event r.identity.npc_id target.identity.npc_id damage) hit)

  abbrev pub wait_for_blow : String → CombatComp F → Row F → Row F
  wait_for_blow name combat r = record r {
    combat = some (record combat { cooldown_ticks = combat.cooldown_ticks - 1 });
    activity = "대치 중: " ++ name;
  }

  unfoldable pub attack_in_range :
      ℕ → ℕ → CombatComp F → HealthComp F → World F → NodeStatus × World F
  attack_in_range e t combat health w =
      let standing = put_row e (stand (w.rows e)) w in
      if ltb 0 combat.cooldown_ticks
      then (
        running,
        put_row e (wait_for_blow ((w.rows t).identity.display_name) combat (standing.rows e))
            standing,
      )
      else (success, strike e t combat health standing)

  unfoldable pub melee_attack : ℕ → World F → NodeStatus × World F
  melee_attack e w =
      let r = w.rows e in
      elim r.combat [
        | none ↦ (failure, w)
        | some combat ↦ elim combat.target_entity [
          | none ↦ (failure, w)
          | some t ↦
              let target = w.rows t in
              if not target.is_valid
              then (failure, w)
              else if lt combat.attack_range (separation r.location target.location)
              then (running, put_row e (chase target r) w)
              else elim target.health [
                | none ↦ (failure, w)
                | some health ↦ attack_in_range e t combat health w
              ]
        ]
      ]
