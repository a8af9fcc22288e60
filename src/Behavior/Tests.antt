-- ===== src/Behavior/Tests.antt =====
-- Agents in the small world, alone and in pairs.
mod Conflict
use mundus_vivens_game_serve.Common.{
  ℕ, zero, suc, ◌<◌, ◌≡◌, ◌⊎◌, ◌≢◌, refl, Bool, true, false, Option, none, some, List, [], ◌∷◌, inl,
  inr, arith,
}
use mundus_vivens_game_serve.Common.Fixed.{fixed}
use mundus_vivens_game_serve.Agents.{hunger_need, eat}
use mundus_vivens_game_serve.Agents.Tree.{success, failure, running}
use mundus_vivens_game_serve.Agents.Planning.{is_moving}
use mundus_vivens_game_serve.Agents.World.{Row, World, report_job_status}
use mundus_vivens_game_serve.Behavior.Recover.Charging.{filled, rest, recovery_finishes}
use mundus_vivens_game_serve.Agents.World.Sample.{newcomer, other_agent, table, world_of, entities}
use mundus_vivens_game_serve.Behavior.Crisis.Exclusion.{HungerAlone, FatigueAlone, crises_exclude}
use mundus_vivens_game_serve.Behavior.Crisis.{
  is_hungry, is_fatigued, is_scheduled_eat, is_scheduled_sleep,
}
use mundus_vivens_game_serve.Behavior.Seek.{move_to_target}
use mundus_vivens_game_serve.Behavior.Seek.Endless.{move_to_target_goes_on}
use mundus_vivens_game_serve.Behavior.Recover.Ownership.{IsOwned, interact_furniture-IsOwned}
use mundus_vivens_game_serve.Behavior.Recover.Finish.{IsGivenBack, IsRecovered}
use mundus_vivens_game_serve.Behavior.Recover.{recovery, interact_furniture}

abbrev hungry_agent : Row ℕ
hungry_agent = record newcomer { needs = record newcomer.needs { hunger = 1000000000 } }

abbrev hungry_world : World ℕ
hungry_world = world_of hungry_agent other_agent table

crises_exclude_example :
    ((is_hungry fixed 1 hungry_world).0 ≡ success
      → HungerAlone fixed 1 (is_hungry fixed 1 hungry_world).1)
    × ((is_scheduled_eat fixed 1 hungry_world).0 ≡ success
        → HungerAlone fixed 1 (is_scheduled_eat fixed 1 hungry_world).1)
    × ((is_fatigued fixed 1 hungry_world).0 ≡ success
        → FatigueAlone fixed 1 (is_fatigued fixed 1 hungry_world).1)
    × ((is_scheduled_sleep fixed 1 hungry_world).0 ≡ success
        → FatigueAlone fixed 1 (is_scheduled_sleep fixed 1 hungry_world).1)
crises_exclude_example = crises_exclude fixed 1 hungry_world

move_to_target_goes_on_example :
    (move_to_target fixed entities 1 hungry_world ≡ (success, hungry_world))
    ⊎ ((move_to_target fixed entities 1 hungry_world).0 ≡ running)
      × (is_moving (((move_to_target fixed entities 1 hungry_world).1.rows 1).toil.state) ≡ true)
move_to_target_goes_on_example = move_to_target_goes_on fixed entities 1 hungry_world

-- No one in the world has furniture.
no_furniture :
    (a b c : Row ℕ)
    → a.needs.occupied_furniture ≡ none
    → b.needs.occupied_furniture ≡ none
    → c.needs.occupied_furniture ≡ none
    → IsOwned (world_of a b c)
no_furniture a b c ha hb hc x g h = absurd (ground arith)

interact_furniture-IsOwned_example : IsOwned (interact_furniture fixed entities 1 hungry_world).1
interact_furniture-IsOwned_example =
    interact_furniture-IsOwned fixed entities 1 hungry_world
      (record { agent_valid = refl; no_furniture = refl; fresh_invalid = refl })
      (no_furniture hungry_agent other_agent table refl refl refl)

-- The agent sits at the table, and lacks one unit of what it needs.
abbrev diner : Row ℕ
diner = record newcomer {
  needs = record newcomer.needs {
    hunger = 9400000000;
    is_resolving_survival = true;
    current_survival_type = hunger_need;
    occupied_furniture = some 3;
  };
}

abbrev dinner : World ℕ
dinner = world_of diner other_agent (record table {
  affordance = some (record { use_of = eat; occupied_by = some 1; is_temporary = false });
})

table_gives : recovery fixed entities hunger_need (some 3) dinner ≡ 50000000
unfolding recovery
table_gives = refl

first_tick_is_short :
    (k : ℕ)
    → k < 1
    → fixed.le 9500000000 (filled fixed entities 1 hunger_need 50000000 (suc k) 9400000000) ≡ false
first_tick_is_short zero h = refl
first_tick_is_short (suc k) h = absurd (ground arith)

recovery_finishes_example :
    let (status, after) =
      interact_furniture fixed entities 1 (rest fixed entities 1 hunger_need 50000000 1 dinner) in
    ((rest fixed entities 1 hunger_need 50000000 1 dinner).calls ≡ [])
    × ((f : ℕ)
        → f ≢ 1
        → (rest fixed entities 1 hunger_need 50000000 1 dinner).rows f ≡ dinner.rows f)
    × (status ≡ success)
    × IsRecovered fixed entities 1 after
    × (after.calls ≡ report_job_status 7 0 0 "survival_resolved" ∷ [])
    × ((f : ℕ) → f ≢ 1 → some 3 ≡ some f → IsGivenBack fixed entities 1 f after dinner)
recovery_finishes_example =
    recovery_finishes fixed entities 1 hunger_need 50000000 1 9400000000 dinner (inl refl)
      (record { need_is = refl; level_is = refl; settled = refl; amount_is = table_gives })
      first_tick_is_short refl
