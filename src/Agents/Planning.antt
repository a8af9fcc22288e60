-- ===== src/Agents/Planning.antt =====
-- SystemPathfinding: which agents on the move get a path, within the budget of searches of a tick.
-- What the system uses of the map is an interface, with the state that a search changes; the random
-- spread about a place is a function of the entity.
pub mod Budget
use Prim.Native.String.{String, len}
use mundus_vivens_game_serve.Common.{
  ℕ, zero, suc, ◌+◌, Bool, true, false, not, ◌&&◌, ◌||◌, Option, none, some, List, [], ◌∷◌, length,
  ltb, leb, ◌==◌, if◌then◌else◌,
}
use mundus_vivens_game_serve.Common.Float.{Float}
use mundus_vivens_game_serve.Grid.Find.{GridVector2, PathResult}
use mundus_vivens_game_serve.Agents.{
  LocationComp, JobComp, ToilComp, ToilState, idle, moving, working, interrupted, VelocityComp,
  PathfindingComp,
}

pub record Navigator (F : Type 0) : Type 1 where
  pub State : Type 0
  pub get_location_coords : String → Option (GridVector2 F)
  pub is_path_blocked : F → F → F → F → Bool
  pub find_path : F → F → F → F → State → PathResult F × State

-- The components of an agent that the system's view and its lookups take.
pub record Mover (F : Type 0) : Type 0 where
  pub entity : ℕ
  pub job : JobComp F
  pub toil : ToilComp
  pub location : LocationComp F
  pub pathfinding : Option (PathfindingComp F)
  pub velocity : Option (VelocityComp F)

abbrev pub is_moving : ToilState → Bool
is_moving idle = false
is_moving moving = true
is_moving working = false
is_moving interrupted = false

abbrev pub max_pathfinds_per_tick : ℕ
max_pathfinds_per_tick = 8

abbrev pub is_empty {ℓ} : {A : Type ℓ} → List A → Bool
is_empty [] = true
is_empty (x ∷ xs) = false

module _ (fl : Float) (nav : Navigator fl.F) (spread : ℕ → GridVector2 fl.F → GridVector2 fl.F)
    (npc_speed : fl.F) where
  open fl use {F, add, sub, mul, sqrt, lt, eq, dec}
  open nav use {State, get_location_coords, is_path_blocked, find_path}

  abbrev new_path : PathfindingComp F
  new_path = record {
    waypoints = [];
    current_waypoint_index = 0;
    last_target_x = dec 0 0;
    last_target_z = dec 0 0;
    is_partial = false;
    cap_retry_count = 0;
    last_cap_pos_x = dec 0 0;
    last_cap_pos_z = dec 0 0;
  }

  -- `get_or_emplace`
  abbrev pub path_of : Option (PathfindingComp F) → PathfindingComp F
  path_of none = new_path
  path_of (some path) = path

  -- A new velocity has no direction; either way the speed is set.
  abbrev pub with_speed : Option (VelocityComp F) → Option (VelocityComp F)
  with_speed none = some (record { speed = npc_speed; dir_x = dec 0 0; dir_z = dec 0 0 })
  with_speed (some vel) = some (record vel { speed = npc_speed })

  abbrev pub stopped : Option (VelocityComp F) → Option (VelocityComp F)
  stopped none = none
  stopped (some vel) = some (record { speed = dec 0 0; dir_x = dec 0 0; dir_z = dec 0 0 })

  -- The coordinates of a place that is known by its name only; (0, 0) if nobody knows it.
  abbrev pub place_of : Option (GridVector2 F) → GridVector2 F
  place_of none = record { x = dec 0 0; z = dec 0 0 }
  place_of (some p) = p

  pub look_up_target : Mover F → Mover F
  look_up_target m =
      let job = m.job in
      let target = spread m.entity (place_of (get_location_coords job.target_location)) in
      if not (len job.target_location == 0)
        && eq job.target_x (dec 0 0)
        && eq job.target_z (dec 0 0)
      then record m { job = record job { target_x = target.x; target_z = target.z } }
      else m

  -- A path to a target that has moved by more than 2 is dropped.
  pub fresh_path : Mover F → PathfindingComp F
  fresh_path m =
      let path = path_of m.pathfinding in
      let t_dx = sub m.job.target_x path.last_target_x in
      let t_dz = sub m.job.target_z path.last_target_z in
      if lt (dec 4 0) (add (mul t_dx t_dx) (mul t_dz t_dz))
      then record path { waypoints = [] }
      else path

  pub go_straight : PathfindingComp F → Mover F → Mover F
  go_straight path m = record m {
    pathfinding = some (record path {
      waypoints = [];
      current_waypoint_index = 0;
      last_target_x = m.job.target_x;
      last_target_z = m.job.target_z;
      is_partial = false;
      cap_retry_count = 0;
    });
    velocity = with_speed m.velocity;
  }

  -- The agent gives up.
  pub give_up : PathfindingComp F → Mover F → Mover F
  give_up path m = record m {
    toil = record m.toil { state = idle };
    pathfinding = some (record path { waypoints = [] });
    velocity = stopped m.velocity;
  }

  -- The guard against a partial path that starts where the last one did.
  pub retry_guard : PathfindingComp F → Mover F → Mover F
  retry_guard path m =
      let dx = sub m.location.x path.last_cap_pos_x in
      let dz = sub m.location.z path.last_cap_pos_z in
      let moved = sqrt (add (mul dx dx) (mul dz dz)) in
      let count = if lt moved (dec 1 0) then path.cap_retry_count + 1 else 0 in
      let capped = record path {
        cap_retry_count = count;
        last_cap_pos_x = m.location.x;
        last_cap_pos_z = m.location.z;
      } in
      if leb 2 count
      then give_up (record capped { cap_retry_count = 0 }) m
      else record m { pathfinding = some capped; velocity = with_speed m.velocity }

  pub take_path : PathResult F → PathfindingComp F → Mover F → Mover F
  take_path res path m =
      let aimed = record path { last_target_x = m.job.target_x; last_target_z = m.job.target_z } in
      let taken = record aimed {
        waypoints = res.waypoints;
        current_waypoint_index = 0;
        is_partial = res.is_partial;
      } in
      if not res.is_failed && not (is_empty res.waypoints)
      then if res.is_partial then retry_guard taken m else record m {
        pathfinding = some (record taken { cap_retry_count = 0 });
        velocity = with_speed m.velocity;
      }
      else give_up aimed m

  -- One agent, with the number of searches made in this tick.
  pub plan_moving : Mover F → ℕ → State → Mover F × ℕ × State
  plan_moving m0 count st =
      let m = look_up_target m0 in
      let path = fresh_path m in
      let at = m.location in
      let (res, after) = find_path at.x at.z m.job.target_x m.job.target_z st in
      if not (is_path_blocked at.x at.z m.job.target_x m.job.target_z)
      then (go_straight path m, count, st)
      else if not (is_empty path.waypoints)
      then (record m { pathfinding = some path }, count, st)
      else if leb max_pathfinds_per_tick count
      then (record m { pathfinding = some path }, count, st)
      else (take_path res path m, count + 1, after)

  pub plan_one : Mover F → ℕ → State → Mover F × ℕ × State
  plan_one m count st = if is_moving m.toil.state then plan_moving m count st else (m, count, st)

  pub plan_all : List (Mover F) → ℕ → State → List (Mover F) × State
  plan_all [] count st = ([], st)
  plan_all (m ∷ ms) count st =
      let (m', count', st') = plan_one m count st in
      let (ms', st'') = plan_all ms count' st' in (m' ∷ ms', st'')

  -- `SystemPathfinding`
  pub system_pathfinding : List (Mover F) → State → List (Mover F) × State
  system_pathfinding ms st = plan_all ms 0 st
