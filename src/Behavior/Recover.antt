-- ===== src/Behavior/Recover.antt =====
-- ActionInteractFurniture: the agent takes free furniture of its zone, or makes a camp, or lies
-- down on the floor; then its need is met a little with each tick, and at last the furniture is
-- given back. `get` on furniture without an affordance is undefined in the source.
pub mod Ownership
pub mod Finish
pub mod Charging
use Prim.Native.String.{String}
use mundus_vivens_game_serve.Common.{
  ℕ, Bool, true, false, not, ◌&&◌, ◌||◌, Option, none, some, List, [], ◌∷◌, ◌++◌, ◌==◌,
  if◌then◌else◌,
}
use mundus_vivens_game_serve.Common.Float.{Float}
use mundus_vivens_game_serve.Agents.{
  LocationComp, AffordanceType, AffordanceComp, SurvivalType, NeedsComp, no_need, sleep, eat, sit,
  drink, pray, unspecified_use, idle, working, same_text,
}
use mundus_vivens_game_serve.Agents.Furniture.{is_hunger, is_fatigue, is_some, vacate}
use mundus_vivens_game_serve.Agents.JobDriver.{waiting}
use mundus_vivens_game_serve.Agents.Tree.{NodeStatus, success, running}
use mundus_vivens_game_serve.Agents.World.{
  Row, World, Entities, put_row, send, destroy_row, report_job_status,
}
use mundus_vivens_game_serve.Places.{remove_entity}
use mundus_vivens_game_serve.Behavior.Seek.{is_free, is_wild, spawn_camp}

abbrev pub eating : String
eating = "Eating"

abbrev pub sleeping : String
sleeping = "Sleeping"

abbrev pub eating_on_floor : String
eating_on_floor = "Eating_On_Floor"

abbrev pub sleeping_on_floor : String
sleeping_on_floor = "Sleeping_On_Floor"

abbrev pub is_sit : AffordanceType → Bool
is_sit unspecified_use = false
is_sit sit = true
is_sit sleep = false
is_sit eat = false
is_sit drink = false
is_sit pray = false

abbrev pub is_camp : Option AffordanceComp → Bool
is_camp none = false
is_camp (some aff) = aff.is_temporary

abbrev pub map_affordance :
    (AffordanceComp → AffordanceComp) → Option AffordanceComp → Option AffordanceComp
map_affordance f none = none
map_affordance f (some aff) = some (f aff)

abbrev pub taken_by : ℕ → AffordanceComp → AffordanceComp
taken_by e aff = record aff { occupied_by = some e }

module _ (fl : Float) (ecs : Entities fl.F) where
  open fl use {F, add, lt, le, dec}

  -- The first free furniture of the zone, in the order of the view.
  pub first_free : SurvivalType → ℕ → List ℕ → World F → Option ℕ
  first_free need zone [] w = none
  first_free need zone (f ∷ rest) w =
      let later = first_free need zone rest w in
      let furn = w.rows f in
      if furn.is_valid && furn.location.zone_id == zone && is_free fl ecs need furn.affordance
      then some f
      else later

  -- Furniture to take, and the world with it.
  pub choose_furniture : ℕ → World F → Option ℕ × World F
  choose_furniture e w =
      let r = w.rows e in
      elim (first_free r.needs.current_survival_type r.location.zone_id (ecs.visit w) w) [
        | some f ↦ (some f, w)
        | none ↦
            if is_wild r.location.location_name
            then (let (camp_ent, camped) =
                  spawn_camp fl ecs (is_hunger r.needs.current_survival_type) r.location w in
                (some camp_ent, camped))
            else (none, w)
      ]

  abbrev seated_activity : Bool → Bool → String
  seated_activity is_eating in_camp =
      if is_eating
      then if in_camp then "황무지 야영지에서 식사 중" else "식탁에 앉아 식사 중"
      else if in_camp
      then "황무지 야영지에서 숙면 중"
      else "침대에서 숙면 중"

  abbrev sit_at : Bool → ℕ → Row F → Row F → Row F
  sit_at is_eating f furn r = record r {
    needs = record r.needs { occupied_furniture = some f };
    location = record r.location { x = furn.location.x; y = furn.location.y; z = furn.location.z };
    toil = record {
      state = working;
      duration_ticks = 9999;
      current_action = if is_eating then eating else sleeping;
    };
    activity = seated_activity is_eating (is_camp furn.affordance);
  }

  pub take_seat : ℕ → ℕ → World F → World F
  take_seat e f w =
      let r = w.rows e in
      let furn = w.rows f in
      put_row e (sit_at (is_hunger r.needs.current_survival_type) f furn r)
        (put_row f (record furn { affordance = map_affordance (taken_by e) furn.affordance }) w)

  pub lie_down : Row F → Row F
  lie_down r =
      let is_eating = is_hunger r.needs.current_survival_type in
      record r {
        toil = record {
          state = working;
          duration_ticks = 9999;
          current_action = if is_eating then eating_on_floor else sleeping_on_floor;
        };
        activity = if is_eating then "자리가 부족해 바닥에서 식사 중" else "자리가 부족해 구석에서 선잠 중";
      }

  pub settle_down : ℕ → World F → World F
  settle_down e w =
      let (target_furn, after) = choose_furniture e w in
      elim target_furn [
        | some f ↦ take_seat e f after
        | none ↦ put_row e (lie_down (after.rows e)) after
      ]

  -- What one tick gives, by the need and the furniture.
  unfoldable pub recovery : SurvivalType → Option ℕ → World F → F
  recovery need seat w = elim seat [
    | none ↦ if is_hunger need then dec 125 3 else if is_fatigue need then dec 25 3 else dec 0 0
    | some f ↦ elim ((w.rows f).affordance) [
      | none ↦ dec 0 0
      | some aff ↦
          if is_hunger need
          then if aff.is_temporary then dec 25 2 else dec 5 1
          else if is_fatigue need
          then if aff.is_temporary
            then dec 625 4
            else if is_sit aff.use_of
            then dec 83 3
            else dec 125 3
          else dec 0 0
    ]
  ]

  abbrev pub fill_up : F → F → F
  fill_up v amount =
      let filled = add v amount in if lt (dec 100 0) filled then dec 100 0 else filled

  pub recharge : F → NeedsComp F → NeedsComp F
  recharge amount needs = record needs {
    hunger =
        if is_hunger needs.current_survival_type then fill_up needs.hunger amount else needs.hunger;
    fatigue =
        if is_fatigue needs.current_survival_type
        then fill_up needs.fatigue amount
        else needs.fatigue;
  }

  pub is_resolved : NeedsComp F → Bool
  is_resolved needs =
      is_hunger needs.current_survival_type && le (dec 95 0) needs.hunger
      || is_fatigue needs.current_survival_type && le (dec 95 0) needs.fatigue

  -- A camp is taken down.
  pub release_seat : Option ℕ → World F → World F
  release_seat none w = w
  release_seat (some f) w =
      let furn = w.rows f in
      if is_camp furn.affordance
      then destroy_row fl f (record w { places = remove_entity f w.places })
      else put_row f (record furn { affordance = map_affordance vacate furn.affordance }) w

  abbrev pub recovered : Row F → Row F
  recovered r = record r {
    needs = record r.needs {
      occupied_furniture = none;
      is_resolving_survival = false;
      current_survival_type = no_need;
    };
    job = record r.job { is_active = false };
    toil = record { state = idle; duration_ticks = 0; current_action = "" };
    activity = waiting;
  }

  pub finish_recovery : ℕ → World F → World F
  finish_recovery e w =
      let r = w.rows e in
      let left = release_seat r.needs.occupied_furniture w in
      put_row e (recovered r)
        (send (report_job_status r.identity.npc_id r.job.job_id 0 "survival_resolved") left)

  abbrev pub is_settled : Row F → Bool
  is_settled r =
      is_some r.needs.occupied_furniture
      || same_text r.toil.current_action eating_on_floor
      || same_text r.toil.current_action sleeping_on_floor

  pub interact_furniture : ℕ → World F → NodeStatus × World F
  interact_furniture e w =
      let r = w.rows e in
      if not (is_settled r)
      then (running, settle_down e w)
      else (let amount = recovery r.needs.current_survival_type r.needs.occupied_furniture w in
          let needs = recharge amount r.needs in
          let charged = put_row e (record r { needs = needs }) w in
          if is_resolved needs then (success, finish_recovery e charged) else (running, charged))
