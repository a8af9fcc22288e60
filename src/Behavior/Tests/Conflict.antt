-- ===== src/Behavior/Tests/Conflict.antt =====
-- Agents that face each other.
use mundus_vivens_game_serve.Common.{
  ℕ, ◌≡◌, ◌⊎◌, refl, true, false, none, some, [], ◌∷◌, arith, replicate, if◌then◌else◌,
}
use mundus_vivens_game_serve.Common.Fixed.{fixed}
use mundus_vivens_game_serve.Grid.{Field}
use mundus_vivens_game_serve.Agents.{moving, AggroComp, CombatComp, HealthComp}
use mundus_vivens_game_serve.Agents.Tree.{success, failure, running}
use mundus_vivens_game_serve.Agents.World.{World, is_present, threat_detected, report_combat_event}
use mundus_vivens_game_serve.Agents.World.Sample.{newcomer, other_agent, table, world_of, entities}
use mundus_vivens_game_serve.Behavior.Aggro.{inhibit_or_attack}
use mundus_vivens_game_serve.Behavior.Aggro.Timeout.{
  IsFacing, ticks, failed_rounds, inhibition_times_out, failures_never_time_out,
}
use mundus_vivens_game_serve.Behavior.Combat.{melee_attack, hurt, retaliate, target_of}
use mundus_vivens_game_serve.Behavior.Combat.Rate.{fight, left_target, melee_rate}
use mundus_vivens_game_serve.Behavior.Flee.{flee}
use mundus_vivens_game_serve.Behavior.Flee.Destination.{Bounded, IsRefuge, flee-IsRefuge}
use mundus_vivens_game_serve.Behavior.Survival.{run_tree}
use mundus_vivens_game_serve.Behavior.Survival.Fighting.{run_tree_fights}

abbrev standoff : World ℕ
standoff = world_of newcomer other_agent table

abbrev provoked : AggroComp
provoked = record {
  threat_entity = some 2;
  aggro_score = 100;
  inhibit_wait_ticks = 0;
  is_inhibited = false;
}

facing : IsFacing fixed 1 2 7 8 provoked standoff
facing = record {
  aggro_is = refl;
  threat_is = refl;
  threat_valid = refl;
  agent_valid = refl;
  agent_id = refl;
  threat_id = refl;
  reason = refl;
}

inhibition_times_out_example :
    let held = ticks fixed 1 2 7 8 100 standoff in
    ((held.rows 1).aggro ≡ some (record provoked { is_inhibited = true; inhibit_wait_ticks = 100 }))
    × (held.calls ≡ threat_detected 7 8 100 ∷ [])
    × ((inhibit_or_attack fixed 1 held).0 ≡ failure)
    × (((inhibit_or_attack fixed 1 held).1.rows 1).aggro
        ≡ some
            (record provoked { aggro_score = 0; is_inhibited = false; inhibit_wait_ticks = 101 }))
    × ((inhibit_or_attack fixed 1 held).1.calls ≡ held.calls)
inhibition_times_out_example = inhibition_times_out fixed 1 2 7 8 provoked standoff refl facing

failures_never_time_out_example :
    ((failed_rounds fixed 1 2 7 8 3 standoff).calls ≡ replicate 3 (threat_detected 7 8 100))
    × ((inhibit_or_attack fixed 1 (failed_rounds fixed 1 2 7 8 3 standoff)).0 ≡ running)
    × (k : ℕ) × (((failed_rounds fixed 1 2 7 8 3 standoff).rows 1).aggro
        ≡ some (record provoked { inhibit_wait_ticks = k }))
failures_never_time_out_example =
    failures_never_time_out fixed 1 2 7 8 3 provoked standoff refl facing

abbrev blade : CombatComp ℕ
blade = record {
  target_entity = some 2;
  attack_range = 200000000;
  attack_damage = 1000000000;
  cooldown_ticks = 3;
}

abbrev halved : HealthComp ℕ
halved = record { hp = 5000000000; max_hp = 10000000000; is_dead = false }

abbrev duel : World ℕ
duel = world_of (record newcomer { combat = some blade }) other_agent table

melee_rate_example :
    let v = fight fixed 1 2 3 duel in
    let (status, after) = melee_attack fixed 1 v in
    (v.rows 2 ≡ other_agent)
    × (v.calls ≡ [])
    × (status ≡ success)
    × ((after.rows 2).health ≡ some (hurt fixed 1000000000 halved))
    × ((after.rows 2).busy ≡ none)
    × ((after.rows 2).combat ≡ retaliate 1 other_agent.combat)
    × ((after.rows 1).combat
        ≡ some (record blade {
          cooldown_ticks = 20;
          target_entity = left_target fixed 1 2 blade halved;
        }))
    × (after.calls ≡ report_combat_event 7 8 1000000000 ∷ [])
melee_rate_example =
    melee_rate fixed 1 2 blade halved duel (λ h. ground arith)
      (record {
        combat_is = refl;
        target_is = refl;
        target_valid = refl;
        health_is = refl;
        in_range = refl;
      })

abbrev meadow : Field
meadow i = true

abbrev same : ℕ → ℕ
same v = v

run_tree_fights_example :
    run_tree fixed entities meadow same same 1 duel
    ≡ (if fixed.lt 5000000000 3000000000
        then flee fixed meadow same same 1 duel
        else melee_attack fixed 1 duel).1
run_tree_fights_example =
    run_tree_fights fixed entities meadow same same 1 duel
      (record {
        combat = blade;
        target = 2;
        health = halved;
        combat_is = refl;
        target_is = refl;
        target_valid = refl;
        health_is = refl;
        alive = refl;
      })
      refl refl

bounded : Bounded fixed
bounded = record { low_low = refl; high_high = refl; high_low = refl }

flee-IsRefuge_example :
    let (status, after) = flee fixed meadow same same 1 duel in
    let is_valid = is_present (target_of (duel.rows 1).combat) duel in
    ((is_valid ≡ false) × (status ≡ failure) × (after ≡ duel))
    ⊎ ((is_valid ≡ true) × (status ≡ running) × (after ≡ duel))
    ⊎ ((is_valid ≡ true)
        × (status ≡ running)
        × ((after.rows 1).toil.state ≡ moving)
        × IsRefuge fixed meadow same same bounded
            (duel.rows 1).location
            ((after.rows 1).job.target_x, (after.rows 1).job.target_z))
flee-IsRefuge_example = flee-IsRefuge fixed meadow same same bounded 1 duel
