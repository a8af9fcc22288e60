-- ===== src/Behavior/Wander.antt =====
-- ConditionCanWander and ActionWander: an agent with nothing to do walks about within the place
-- where it is.
use mundus_vivens_game_serve.Common.{
  ℕ, zero, suc, ◌-◌, ◌%◌, false, not, ◌&&◌, Option, none, some, ltb, ◌==◌, if◌then◌else◌,
}
use mundus_vivens_game_serve.Common.Float.{Float}
use mundus_vivens_game_serve.Common.Int.{pos}
use mundus_vivens_game_serve.Grid.{Field}
use mundus_vivens_game_serve.Agents.{LocationComp, idle, moving, same_text}
use mundus_vivens_game_serve.Agents.Furniture.{is_some, is_working}
use mundus_vivens_game_serve.Agents.JobDriver.{roaming, waiting}
use mundus_vivens_game_serve.Agents.Planning.{is_moving}
use mundus_vivens_game_serve.Agents.Tree.{NodeStatus, success, failure, running}
use mundus_vivens_game_serve.Agents.World.{Row, World, put_row, draw, is_present, forget_path}
use mundus_vivens_game_serve.Places.Region.{get_location_name_at}
use mundus_vivens_game_serve.Behavior.Combat.{target_of}
use mundus_vivens_game_serve.Behavior.Flee.{clamp_inside, random_unit, is_open}
use mundus_vivens_game_serve.Behavior.Seek.{is_idle}

module _ {F : Type 0} where
  pub can_wander : ℕ → World F → NodeStatus × World F
  can_wander e w =
      let r = w.rows e in
      if r.job.is_active
      then (failure, w)
      else if r.needs.is_resolving_survival
      then (failure, w)
      else if is_present (target_of r.combat) w
      then (failure, w)
      else if is_some r.busy
      then (failure, w)
      else (success, w)

module _ (fl : Float) (grid : Field) where
  open fl use {F, add, mul, dec}

  -- Up to `tries` random positions near the agent, until one is open and of the same place.
  pub pick_target : ℕ → LocationComp F → World F → Option (F × F) × World F
  pick_target zero loc w = (none, w)
  pick_target (suc tries) loc w =
      let (roll_x, drawn_x) = draw w in
      let (roll_z, drawn) = draw drawn_x in
      let tx = clamp_inside fl (add loc.x (mul (random_unit fl roll_x) (dec 15 0))) in
      let tz = clamp_inside fl (add loc.z (mul (random_unit fl roll_z) (dec 15 0))) in
      let later = pick_target tries loc drawn in
      if is_open fl grid (tx, tz)
        && same_text (get_location_name_at fl tx tz w.places) loc.location_name
      then (some (tx, tz), drawn)
      else later

  abbrev end_wander : Row F → Row F
  end_wander r = record r {
    job = record r.job { intent = "" };
    toil = record r.toil { state = idle; current_action = "" };
    activity = waiting;
  }

  abbrev start_wander : F × F → Row F → Row F
  start_wander (target_x, target_z) r = record r {
    job = record r.job {
      target_x = target_x;
      target_z = target_z;
      target_location = r.location.location_name;
      intent = roaming;
      priority = pos 0;
      is_active = false;
    };
    path = forget_path r.path;
    toil = record r.toil { state = moving; current_action = roaming };
    activity = "주변 배회 중";
  }

  -- One idle tick in forty begins a walk.
  pub begin_wander : ℕ → World F → NodeStatus × World F
  begin_wander e w =
      let r = w.rows e in
      let (roll, drawn) = draw w in
      if not (roll % 40 == 0)
      then (running, put_row e (record r { activity = waiting }) drawn)
      else (let (target, after) = pick_target 10 r.location drawn in
          elim target [
            | some dest ↦ (running, put_row e (start_wander dest r) after)
            | none ↦ (failure, after)
          ])

  pub wander : ℕ → World F → NodeStatus × World F
  wander e w =
      let r = w.rows e in
      if is_moving r.toil.state
      then (running, w)
      else if is_working r.toil.state && same_text r.job.intent roaming
      then if ltb 0 r.toil.duration_ticks
        then (
          running,
          put_row e
              (record r { toil = record r.toil { duration_ticks = r.toil.duration_ticks - 1 } }) w,
        )
        else (success, put_row e (end_wander r) w)
      else if is_idle r.toil.state
      then begin_wander e w
      else (failure, w)
