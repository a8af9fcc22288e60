-- ===== src/Agents/Furniture.antt =====
-- SystemSurvival.cpp: the decay of the needs, and SystemAffordanceResolver, which keeps furniture
-- and its occupants in agreement. A component's pool is an association list by entity, and
-- `is_alive` is `reg.valid`. A valid piece of furniture has an affordance; the source's `get` on an
-- entity without one is undefined, and is no match here.
pub mod Ownership
pub mod Release
pub mod Resolver
mod Tests
use Prim.Native.String.{String}
use text.Mathlib.Text.{find?}
use mundus_vivens_game_serve.Common.{
  ℕ, zero, suc, Bool, true, false, not, ◌&&◌, ◌||◌, Option, none, some, List, [], ◌∷◌, ◌==◌,
  if◌then◌else◌,
}
use mundus_vivens_game_serve.Common.Dict.{Eq, nat_eq, lookup, erase, adjust}
use mundus_vivens_game_serve.Common.Float.{Float}
use mundus_vivens_game_serve.Agents.{
  NeedsComp, ToilComp, JobComp, AffordanceComp, AffordanceType, ToilState, JobCategory,
  SurvivalType, idle, moving, working, interrupted, sleep_job, eat_job, unspecified_job, social_job,
  work_job, travel_job, survival_job, combat_job, no_need, hunger_need, fatigue_need,
  unspecified_use, sit, sleep, eat, drink, pray,
}
use mundus_vivens_game_serve.Grid.Route.{write}
use mundus_vivens_game_serve.Places.{LocationRegistry, remove_entity}

pub record Scene (F : Type 0) : Type 0 where
  pub is_alive : ℕ → Bool
  pub affordances : List (ℕ × AffordanceComp)
  pub needs : List (ℕ × NeedsComp F)
  pub tasks : List (ℕ × (ToilComp × JobComp F))
  pub display_names : List (ℕ × String)
  pub places : LocationRegistry F

abbrev pub is_working : ToilState → Bool
is_working idle = false
is_working moving = false
is_working working = true
is_working interrupted = false

abbrev pub is_sleep : JobCategory → Bool
is_sleep unspecified_job = false
is_sleep sleep_job = true
is_sleep eat_job = false
is_sleep social_job = false
is_sleep work_job = false
is_sleep travel_job = false
is_sleep survival_job = false
is_sleep combat_job = false

abbrev pub is_eat : JobCategory → Bool
is_eat unspecified_job = false
is_eat sleep_job = false
is_eat eat_job = true
is_eat social_job = false
is_eat work_job = false
is_eat travel_job = false
is_eat survival_job = false
is_eat combat_job = false

abbrev pub is_hunger : SurvivalType → Bool
is_hunger no_need = false
is_hunger hunger_need = true
is_hunger fatigue_need = false

abbrev pub is_fatigue : SurvivalType → Bool
is_fatigue no_need = false
is_fatigue hunger_need = false
is_fatigue fatigue_need = true

abbrev pub for_sleep : AffordanceType → Bool
for_sleep unspecified_use = false
for_sleep sit = true
for_sleep sleep = true
for_sleep eat = false
for_sleep drink = false
for_sleep pray = false

abbrev pub for_meals : AffordanceType → Bool
for_meals unspecified_use = false
for_meals sit = true
for_meals sleep = false
for_meals eat = true
for_meals drink = true
for_meals pray = false

abbrev pub is_some {ℓ} : {A : Type ℓ} → Option A → Bool
is_some none = false
is_some (some a) = true

abbrev pub is_entity : ℕ → Option ℕ → Bool
is_entity f none = false
is_entity f (some e) = e == f

module _ (fl : Float) where
  open fl use {F, sub, lt, dec}

  abbrev floor_at_zero : F → F
  floor_at_zero v = if lt v (dec 0 0) then dec 0 0 else v

  -- `SystemSurvivalOverride`, on one agent.
  pub decay : ToilComp → JobComp F → NeedsComp F → NeedsComp F
  decay toil job needs =
      let at_work = job.is_active && is_working toil.state in
      let is_scheduled_sleep = at_work && is_sleep job.category in
      let is_scheduled_eat = at_work && is_eat job.category in
      let seated = is_some needs.occupied_furniture in
      let skip_hunger_decay =
        needs.is_resolving_survival && is_hunger needs.current_survival_type
        || is_scheduled_eat && seated in
      let skip_fatigue_decay =
        needs.is_resolving_survival && is_fatigue needs.current_survival_type
        || is_scheduled_sleep && seated in
      record needs {
        hunger =
            floor_at_zero (if skip_hunger_decay then needs.hunger else sub needs.hunger (dec 45 3));
        fatigue =
            floor_at_zero
              (if skip_fatigue_decay then needs.fatigue else sub needs.fatigue (dec 25 3));
      }

abbrev pub vacate : AffordanceComp → AffordanceComp
vacate aff = record aff { occupied_by = none }

abbrev pub suits : (AffordanceType → Bool) → Option AffordanceComp → Bool
suits ok none = false
suits ok (some aff) = ok aff.use_of

abbrev pub is_makeshift : Option String → Bool
is_makeshift none = false
is_makeshift (some name) = is_some (find? name "임시")

module _ {F : Type 0} where
  -- Whether the entity's needs name this piece of furniture.
  abbrev pub claims : ℕ → Option (NeedsComp F) → Bool
  claims f none = false
  claims f (some needs) = is_entity f needs.occupied_furniture

  abbrev pub is_held : (ℕ → Bool) → List (ℕ × NeedsComp F) → ℕ → Option ℕ → Bool
  is_held is_alive needs f none = true
  is_held is_alive needs f (some e) = is_alive e && claims f (lookup e needs)

  -- The first loop: an occupant that is gone, or has other furniture, is forgotten.
  pub mend :
      (ℕ → Bool) → List (ℕ × NeedsComp F) → List (ℕ × AffordanceComp) → List (ℕ × AffordanceComp)
  mend is_alive needs [] = []
  mend is_alive needs ((f, aff) ∷ rest) =
      (f, if is_held is_alive needs f aff.occupied_by then aff else vacate aff)
      ∷ mend is_alive needs rest

  -- `keep_furniture`
  pub keeps : ToilComp → JobComp F → ℕ → Scene F → Bool
  keeps toil job f st =
      if not (job.is_active && is_working toil.state)
      then false
      else if is_sleep job.category
      then st.is_alive f && suits for_sleep (lookup f st.affordances)
      else if is_eat job.category
      then st.is_alive f && suits for_meals (lookup f st.affordances)
      else false

  pub destroy : ℕ → Scene F → Scene F
  destroy f st = record {
    is_alive = write st.is_alive f false;
    affordances = erase f st.affordances;
    needs = erase f st.needs;
    tasks = erase f st.tasks;
    display_names = erase f st.display_names;
    places = remove_entity f st.places;
  }

  -- Furniture that is given back: makeshift furniture is taken down.
  pub give_back : ℕ → Scene F → Scene F
  give_back f st =
      let freed = record st { affordances = adjust f vacate st.affordances } in
      if not (st.is_alive f)
      then st
      else if is_makeshift (lookup f st.display_names)
      then destroy f freed
      else freed

  abbrev pub stand_up : ℕ → Scene F → Scene F
  stand_up e st = record st {
    needs = adjust e (λ needs. record needs { occupied_furniture = none }) st.needs;
  }

  -- The second loop, on one agent with these components.
  pub tend_to : ℕ → NeedsComp F → ToilComp → JobComp F → Scene F → Scene F
  tend_to e needs toil job st =
      if needs.is_resolving_survival then st else elim needs.occupied_furniture [
        | none ↦ st
        | some f ↦ if keeps toil job f st then st else stand_up e (give_back f st)
      ]

  pub tend : ℕ → Scene F → Scene F
  tend e st = elim (lookup e st.needs) [
    | none ↦ st
    | some needs ↦ elim (lookup e st.tasks) [
      | none ↦ st
      | some (toil, job) ↦ tend_to e needs toil job st
    ]
  ]

  pub tend_all : List (ℕ × NeedsComp F) → Scene F → Scene F
  tend_all [] st = st
  tend_all ((e, needs) ∷ rest) st = tend_all rest (tend e st)

  -- `SystemAffordanceResolver`
  pub resolve_affordances : Scene F → Scene F
  resolve_affordances st =
      let mended = record st { affordances = mend st.is_alive st.needs st.affordances } in
      tend_all st.needs mended
