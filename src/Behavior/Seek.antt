-- ===== src/Behavior/Seek.antt =====
-- ActionFindFurniture and ActionMoveToTarget. Where no furniture is near enough, the agent makes
-- a camp in the wilderness, and stays where it is elsewhere.
pub mod Endless
use Prim.Native.String.{String, ◌++◌}
use mundus_vivens_game_serve.Common.{
  ℕ, Bool, true, false, not, ◌&&◌, ◌||◌, Option, none, some, List, [], ◌∷◌, ◌==◌, if◌then◌else◌,
}
use mundus_vivens_game_serve.Common.Float.{Float}
use mundus_vivens_game_serve.Agents.{
  LocationComp, JobComp, AffordanceType, AffordanceComp, SurvivalType, ToilState, no_need,
  hunger_need, fatigue_need, sleep, eat, idle, moving, working, interrupted, unspecified, same_text,
}
use mundus_vivens_game_serve.Agents.Furniture.{for_sleep, for_meals, is_hunger, is_some}
use mundus_vivens_game_serve.Agents.JobDriver.{moving_to}
use mundus_vivens_game_serve.Agents.Planning.{is_moving, is_empty}
use mundus_vivens_game_serve.Agents.Tree.{NodeStatus, success, failure, running}
use mundus_vivens_game_serve.Agents.World.{Row, World, Entities, put_row, forget_path, blank_row}
use mundus_vivens_game_serve.Places.Position.{update_entity_position}

-- Whether furniture of this kind serves the need.
abbrev pub serves : SurvivalType → AffordanceType → Bool
serves no_need use_of = false
serves hunger_need use_of = for_meals use_of
serves fatigue_need use_of = for_sleep use_of

abbrev pub is_wild : String → Bool
is_wild name = same_text name "Wilderness" || same_text name "황무지"

abbrev pub campfire : String
campfire = "임시 모닥불"

abbrev pub campsite : String
campsite = "임시 야영지"

abbrev pub is_idle : ToilState → Bool
is_idle idle = true
is_idle moving = false
is_idle working = false
is_idle interrupted = false

module _ (fl : Float) (ecs : Entities fl.F) where
  open fl use {F, add, sub, mul, sqrt, lt, eq, dec}

  abbrev pub distance_to : F → F → LocationComp F → F
  distance_to x z loc =
      let dx = sub x loc.x in let dz = sub z loc.z in sqrt (add (mul dx dx) (mul dz dz))

  -- A place that is empty and serves the need.
  abbrev pub is_free : SurvivalType → Option AffordanceComp → Bool
  is_free need none = false
  is_free need (some aff) = serves need aff.use_of && not (is_some aff.occupied_by)

  -- The distance that is compared; another zone counts as 1000 further.
  abbrev remoteness : LocationComp F → LocationComp F → F
  remoteness loc furn =
      let dist = distance_to furn.x furn.z loc in
      if furn.zone_id == loc.zone_id then dist else add dist (dec 1000 0)

  pub nearest :
      SurvivalType
      → LocationComp F
      → List ℕ
      → Option (LocationComp F) × F
      → World F
      → Option (LocationComp F) × F
  nearest need loc [] best w = best
  nearest need loc (f ∷ rest) best w =
      let furn = w.rows f in
      let dist = remoteness loc furn.location in
      nearest need loc rest
        (if furn.is_valid && is_free need furn.affordance && lt dist best.1
          then (some furn.location, dist)
          else best)
        w

  -- A camp for the need, at the place.
  unfoldable pub spawn_camp : Bool → LocationComp F → World F → ℕ × World F
  spawn_camp is_eating loc w =
      let camp_ent = ecs.fresh w in
      let camp_loc = record loc { kind = unspecified; region_id = 0; territory_id = 0 } in
      let (settled, places) =
        update_entity_position fl camp_ent loc.x loc.z (some camp_loc) w.places in
      (
        camp_ent,
        put_row camp_ent
            (record (blank_row fl) {
              is_valid = true;
              identity = record {
                npc_id = 0;
                display_name = if is_eating then campfire else campsite;
              };
              location = elim settled [ none ↦ camp_loc | some at ↦ at ];
              affordance = some (record {
                use_of = if is_eating then eat else sleep;
                occupied_by = none;
                is_temporary = true;
              });
            })
            (record w { places = places }),
      )

  abbrev pub aim_at : LocationComp F → Row F → Row F
  aim_at loc r = record r {
    job = record r.job {
      target_location = loc.location_name;
      target_x = loc.x;
      target_y = loc.y;
      target_z = loc.z;
    };
    toil = record r.toil { state = idle };
  }

  -- No furniture is near enough.
  pub make_do : ℕ → World F → World F
  make_do e w =
      let r = w.rows e in
      let camped =
        if is_wild r.location.location_name
        then (spawn_camp (is_hunger r.needs.current_survival_type) r.location w).1
        else w in
      put_row e (aim_at r.location r) camped

  abbrev pub has_target : JobComp F → Bool
  has_target job =
      not (same_text job.target_location "")
      && (not (eq job.target_x (dec 0 0)) || not (eq job.target_z (dec 0 0)))

  pub find_furniture : ℕ → World F → NodeStatus × World F
  find_furniture e w =
      let r = w.rows e in
      let (target_furn, min_dist) =
        nearest r.needs.current_survival_type r.location (ecs.visit w) (none, dec 999999 0) w in
      if has_target r.job then (success, w) else (
        success,
        elim target_furn [
          | none ↦ make_do e w
          | some furn ↦ if lt min_dist (dec 50 0) then put_row e (aim_at furn r) w else make_do e w
        ],
      )

  abbrev set_out : Row F → Row F
  set_out r = record r {
    toil = record r.toil { state = moving };
    activity = moving_to ++ r.job.target_location;
    path = forget_path r.path;
  }

  abbrev is_stuck : Row F → Bool
  is_stuck r = elim r.path [
    | none ↦ false
    | some path ↦ is_idle r.toil.state && is_empty path.waypoints
  ]

  pub move_to_target : ℕ → World F → NodeStatus × World F
  move_to_target e w =
      let r = w.rows e in
      if same_text r.location.location_name r.job.target_location
      then (success, w)
      else if lt (distance_to r.job.target_x r.job.target_z r.location) (dec 8 1)
      then (success, w)
      else if not (is_moving r.toil.state)
      then (running, put_row e (set_out r) w)
      else if is_stuck r
      then (failure, w)
      else (running, w)
