-- ===== src/Behavior/Flee.antt =====
-- ActionFlee: away from the target, by 15, to a tile that can be walked on; where the way straight
-- ahead is none, four turns are tried. `cos` and `sin` are the C++ library's. The entity's number
-- is below 2^31, as the source's cast to `int` has it.
pub mod Destination
use Prim.Native.String.{String}
use mundus_vivens_game_serve.Common.{
  ℕ, ◌+◌, ◌%◌, Bool, true, false, not, ◌&&◌, ◌||◌, Option, none, some, List, [], ◌∷◌, ◌==◌,
  if◌then◌else◌,
}
use mundus_vivens_game_serve.Common.Float.{Float}
use mundus_vivens_game_serve.Common.Int.{ℤ, pos, ◌-ℤ◌}
use mundus_vivens_game_serve.Grid.{Field, is_walkable}
use mundus_vivens_game_serve.Agents.{LocationComp, JobComp, PathfindingComp, moving}
use mundus_vivens_game_serve.Agents.Planning.{is_moving, is_empty}
use mundus_vivens_game_serve.Agents.Tree.{NodeStatus, failure, running}
use mundus_vivens_game_serve.Agents.World.{Row, World, put_row, draw, forget_path}
use mundus_vivens_game_serve.Behavior.Combat.{target_of}
use mundus_vivens_game_serve.Places.{wilderness_name}

module _ (fl : Float) where
  open fl use {F, add, sub, mul, div, sqrt, lt, dec, of_ℤ}

  -- `std::clamp(v, 5, 1995)`
  abbrev pub clamp_inside : F → F
  clamp_inside v = if lt v (dec 5 0) then dec 5 0 else if lt (dec 1995 0) v then dec 1995 0 else v

  -- `(rand() % 200 - 100) / 100`
  abbrev pub random_unit : ℕ → F
  random_unit roll = div (of_ℤ (pos (roll % 200) -ℤ pos 100)) (dec 100 0)

  abbrev length_of : F → F → F
  length_of x z = sqrt (add (mul x x) (mul z z))

  -- Whether the tile of a clamped position can be walked on.
  abbrev pub is_open : Field → F × F → Bool
  is_open grid (x, z) = is_walkable grid (fl.floor x) (fl.floor z)

module _ (fl : Float) (grid : Field) (cos sin : fl.F → fl.F) where
  open fl use {F, add, sub, mul, div, lt, dec}

  -- Away from the target at (x, z), or in a random direction where the two are too near.
  pub direction_from : LocationComp F → LocationComp F → World F → (F × F) × World F
  direction_from target loc w =
      let dx = sub loc.x target.x in
      let dz = sub loc.z target.z in
      let dist = length_of fl dx dz in
      let (roll_x, drawn_x) = draw w in
      let (roll_z, drawn) = draw drawn_x in
      let rx = random_unit fl roll_x in
      let rz = random_unit fl roll_z in
      let r_dist = length_of fl rx rz in
      if lt (dec 1 2) dist
      then ((div dx dist, div dz dist), w)
      else ((if lt (dec 0 0) r_dist then (div rx r_dist, div rz r_dist) else (rx, rz)), drawn)

  -- The position 15 from here in the direction, inside the field.
  abbrev pub ahead : LocationComp F → F × F → F × F
  ahead loc (dir_x, dir_z) = (
    clamp_inside fl (add loc.x (mul dir_x (dec 15 0))),
    clamp_inside fl (add loc.z (mul dir_z (dec 15 0))),
  )

  abbrev rotate : F → F × F → F × F
  rotate angle (dir_x, dir_z) = (
    sub (mul dir_x (cos angle)) (mul dir_z (sin angle)),
    add (mul dir_x (sin angle)) (mul dir_z (cos angle)),
  )

  abbrev angles : List F
  angles = dec 785 3 ∷ sub (dec 0 0) (dec 785 3) ∷ dec 157 2 ∷ sub (dec 0 0) (dec 157 2) ∷ []

  -- The first turn that leads to an open tile; none, and the agent stays.
  pub turn_aside : LocationComp F → F × F → List F → F × F
  turn_aside loc dir [] = (clamp_inside fl loc.x, clamp_inside fl loc.z)
  turn_aside loc dir (angle ∷ rest) =
      let later = turn_aside loc dir rest in
      let dest = ahead loc (rotate angle dir) in if is_open fl grid dest then dest else later

  pub flee_destination : LocationComp F → F × F → F × F
  flee_destination loc dir =
      let dest = ahead loc dir in if is_open fl grid dest then dest else turn_aside loc dir angles

  -- `need_recalculate`
  pub needs_direction : ℕ → ℕ → Row F → Bool
  needs_direction e tick r = if not (is_moving r.toil.state) then true else elim r.path [
    | none ↦ true
    | some path ↦
        is_empty path.waypoints
        || lt (length_of fl (sub r.location.x r.job.target_x) (sub r.location.z r.job.target_z))
            (dec 2 0)
        || (tick + e) % 20 == 0
  ]

  abbrev pub run_to : F × F → Row F → Row F
  run_to (dest_x, dest_z) r = record r {
    job = record r.job { target_x = dest_x; target_z = dest_z; target_location = wilderness_name };
    path = forget_path r.path;
    toil = record r.toil { state = moving };
    activity = "도망치는 중!";
  }

  unfoldable pub flee : ℕ → World F → NodeStatus × World F
  flee e w =
      let r = w.rows e in
      elim (target_of r.combat) [
        | none ↦ (failure, w)
        | some t ↦
            let target = w.rows t in
            let (dir, after) = direction_from target.location r.location w in
            if not target.is_valid
            then (failure, w)
            else if needs_direction e w.tick r
            then (running, put_row e (run_to (flee_destination r.location dir) r) after)
            else (running, w)
      ]
