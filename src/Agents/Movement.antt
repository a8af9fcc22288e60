-- ===== src/Agents/Movement.antt =====
-- SystemMovement: one call on one agent. The agent's position is written through
-- `UpdateEntityPosition`, which the registry of the places models; a change of sign is a
-- subtraction from 0.
pub mod Arrival
mod Tests
use Prim.Native.String.{String}
use mundus_vivens_game_serve.Common.{
  ℕ, zero, suc, ◌+◌, ◌-◌, Bool, true, false, not, ◌&&◌, ◌||◌, Option, none, some, List, [], ◌∷◌,
  length, get_or, ltb, leb, if◌then◌else◌,
}
use mundus_vivens_game_serve.Common.Float.{Float}
use mundus_vivens_game_serve.Grid.Find.{GridVector2}
use mundus_vivens_game_serve.Places.{LocationRegistry}
use mundus_vivens_game_serve.Places.Position.{update_entity_position}
use mundus_vivens_game_serve.Agents.{
  LocationComp, JobComp, ToilComp, ToilState, idle, moving, working, interrupted, VelocityComp,
  PathfindingComp,
}
use mundus_vivens_game_serve.Agents.Planning.{is_moving, is_empty}

-- The components of an agent of the system's view, and its activity.
pub record Traveller (F : Type 0) : Type 0 where
  pub entity : ℕ
  pub location : LocationComp F
  pub toil : ToilComp
  pub path : PathfindingComp F
  pub velocity : VelocityComp F
  pub job : JobComp F
  pub current_activity : String

module _ (fl : Float) (is_path_blocked : fl.F → fl.F → fl.F → fl.F → Bool) where
  open fl use {F, add, sub, mul, div, sqrt, lt, le, dec}

  -- Places are the registry that the position is written to.
  abbrev pub Places : Type 0
  Places = LocationRegistry F

  abbrev pub distance : F → F → F → F → F
  distance x z x' z' = let dx = sub x' x in let dz = sub z' z in sqrt (add (mul dx dx) (mul dz dz))

  abbrev pub at_rest : VelocityComp F
  at_rest = record { speed = dec 0 0; dir_x = dec 0 0; dir_z = dec 0 0 }

  abbrev pub or_same : LocationComp F → Option (LocationComp F) → LocationComp F
  or_same loc none = loc
  or_same loc (some settled) = settled

  -- The agent is at (x, z) now.
  pub put : F → F → Traveller F → Places → Traveller F × Places
  put x z t places =
      let loc = record t.location { x = x; z = z } in
      let (settled, after) = update_entity_position fl t.entity x z (some loc) places in
      (record t { location = or_same loc settled }, after)

  -- The arrival at the target of the job, after which the path is the given one.
  pub arrive : PathfindingComp F → Traveller F → Places → Traveller F × Places
  arrive path t places =
      let at_height = record t { location = record t.location { y = t.job.target_y } } in
      let (there, after) = put t.job.target_x t.job.target_z at_height places in
      (
        record there {
          toil = record { state = working; duration_ticks = 3; current_action = t.job.intent };
          current_activity = t.job.intent;
          velocity = at_rest;
          path = record path {
            current_waypoint_index = 0;
            is_partial = false;
            cap_retry_count = 0;
          };
        },
        after,
      )

  -- One step of the current speed, in 1/20 of a second, along the direction.
  pub advance : F → F → Traveller F → Places → Traveller F × Places
  advance dir_x dir_z t places =
      let move_step = mul t.velocity.speed (dec 5 2) in
      put (add t.location.x (mul dir_x move_step)) (add t.location.z (mul dir_z move_step))
        (record t { velocity = record t.velocity { dir_x = dir_x; dir_z = dir_z } }) places

  -- The direction, turned aside where the way ahead is blocked.
  pub steer : F → F → F → F → F × F
  steer x z steer_x steer_z =
      let ahead_x = add x (mul steer_x (dec 15 1)) in
      let ahead_z = add z (mul steer_z (dec 15 1)) in
      let perp_x = sub (dec 0 0) steer_z in
      let perp_z = steer_x in
      let left_blocked =
        is_path_blocked x z (add x (mul perp_x (dec 12 1))) (add z (mul perp_z (dec 12 1))) in
      let right_blocked =
        is_path_blocked x z (sub x (mul perp_x (dec 12 1))) (sub z (mul perp_z (dec 12 1))) in
      let to_right = left_blocked && not right_blocked in
      let avoid_x = if to_right then sub (dec 0 0) perp_x else perp_x in
      let avoid_z = if to_right then sub (dec 0 0) perp_z else perp_z in
      let turned_x = add steer_x (mul avoid_x (dec 7 1)) in
      let turned_z = add steer_z (mul avoid_z (dec 7 1)) in
      let steer_len = sqrt (add (mul turned_x turned_x) (mul turned_z turned_z)) in
      if not (is_path_blocked x z ahead_x ahead_z)
      then (steer_x, steer_z)
      else if lt (dec 1 3) steer_len
      then (div turned_x steer_len, div turned_z steer_len)
      else (turned_x, turned_z)

  -- Without waypoints the agent heads straight for the target.
  pub seek : Traveller F → Places → Traveller F × Places
  seek t places =
      let loc = t.location in
      let dist = distance loc.x loc.z t.job.target_x t.job.target_z in
      let (dir_x, dir_z) =
        steer loc.x loc.z (div (sub t.job.target_x loc.x) dist)
          (div (sub t.job.target_z loc.z) dist) in
      if lt dist (dec 8 1) then arrive t.path t places else advance dir_x dir_z t places

  -- All waypoints are used up. At the end of a partial path, far from the target, the path is
  -- dropped and the agent stays on the move.
  pub end_path : Traveller F → Places → Traveller F × Places
  end_path t places =
      let dist_to_final = distance t.location.x t.location.z t.job.target_x t.job.target_z in
      let dropped = record t.path { waypoints = []; current_waypoint_index = 0 } in
      if lt dist_to_final (dec 1 0) || not t.path.is_partial
      then arrive (record t.path { waypoints = [] }) t places
      else (record t { path = dropped }, places)

  abbrev next_waypoint : Traveller F → Traveller F
  next_waypoint t = record t {
    path = record t.path { current_waypoint_index = t.path.current_waypoint_index + 1 };
  }

  pub follow : GridVector2 F → Traveller F → Places → Traveller F × Places
  follow target t places =
      let loc = t.location in
      let dist = distance loc.x loc.z target.x target.z in
      let dir_x = div (sub target.x loc.x) dist in
      let dir_z = div (sub target.z loc.z) dist in
      let turned = record t { velocity = record t.velocity { dir_x = dir_x; dir_z = dir_z } } in
      if lt dist (dec 1 1)
      then (next_waypoint t, places)
      else if le dist (mul t.velocity.speed (dec 5 2))
      then put target.x target.z (next_waypoint turned) places
      else advance dir_x dir_z t places

  -- The waypoint at an index that is in range.
  abbrev pub no_waypoint : GridVector2 F
  no_waypoint = record { x = dec 0 0; z = dec 0 0 }

  pub move_one : Traveller F → Places → Traveller F × Places
  move_one t places =
      let i = t.path.current_waypoint_index in
      if not (is_moving t.toil.state)
      then (record t { velocity = at_rest }, places)
      else if is_empty t.path.waypoints
      then seek t places
      else if leb (length t.path.waypoints) i
      then end_path t places
      else follow (get_or t.path.waypoints i no_waypoint) t places
