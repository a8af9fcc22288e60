-- ===== src/Agents/Furniture/Tests.antt =====
-- A bed with an occupant on record who is up, while another sleeps in it.
use mundus_vivens_game_serve.Common.{
  ℕ, ◌≡◌, refl, true, false, none, some, [], ◌∷◌, ◌==◌, ==_iff, sym, ap, ◌∙◌, inl, inr, Bool-cases,
  arith,
}
use mundus_vivens_game_serve.Common.Dict.{lookup, nat_eq}
use mundus_vivens_game_serve.Agents.{NeedsComp, AffordanceComp, sleep, no_need}
use mundus_vivens_game_serve.Agents.Furniture.{Scene, mend, resolve_affordances}
use mundus_vivens_game_serve.Agents.Furniture.Ownership.{IsOwned, IsFurnished, some_inj}
use mundus_vivens_game_serve.Agents.Furniture.Resolver.{resolve_affordances-IsOwned}

abbrev bed : AffordanceComp
bed = record { use_of = sleep; occupied_by = some 1; is_temporary = false }

abbrev awake : NeedsComp ℕ
awake = record {
  hunger = 0;
  fatigue = 0;
  is_resolving_survival = false;
  current_survival_type = no_need;
  occupied_furniture = none;
}

abbrev asleep : NeedsComp ℕ
asleep = record awake { occupied_furniture = some 2 }

abbrev bedroom : Scene ℕ
bedroom = record {
  is_alive = λ e. true;
  affordances = (2, bed) ∷ [];
  needs = (1, awake) ∷ (3, asleep) ∷ [];
  tasks = [];
  display_names = [];
  places = record {
    location_centers = [];
    cell_entities = [];
    entity_to_cell = [];
    name_to_zone = [];
    zone_to_name = [];
    next_zone_id = 1;
    region_map = λ i. 0;
    region_map_size = 0;
    map_width = 0;
    map_height = 0;
  };
}

bed_mended :
    mend bedroom.is_alive bedroom.needs bedroom.affordances
    ≡ (2, record bed { occupied_by = none }) ∷ []
unfolding mend
bed_mended = refl

only_bed : (f : ℕ) (aff : AffordanceComp) → lookup f bedroom.affordances ≡ some aff → 2 ≡ f
only_bed f aff at = elim (Bool-cases (2 == f)) [
  | inl is ↦ (==_iff 2 f).0 is
  | inr other ↦ let lost : none ≡ some aff = rw other at at in absurd (ground arith)
]

only_sleeper :
    (e : ℕ) (needs : NeedsComp ℕ) (f : ℕ)
    → lookup e bedroom.needs ≡ some needs
    → needs.occupied_furniture ≡ some f
    → (aff : AffordanceComp) × (lookup f bedroom.affordances ≡ some aff)
only_sleeper e needs f at has = elim (Bool-cases (1 == e)) [
  | inl is ↦
      let up : awake ≡ needs = some_inj (rw is at at) in
      let nothing : none ≡ some f = ap (λ n. n.occupied_furniture) up ∙ has in absurd (ground arith)
  | inr other ↦ elim (Bool-cases (3 == e)) [
    | inl is ↦
        let down : asleep ≡ needs = some_inj (rw (other, is) at at) in
        let two : 2 ≡ f = some_inj (ap (λ n. n.occupied_furniture) down ∙ has) in
        (bed, rw (sym two) refl)
    | inr nobody ↦ let lost : none ≡ some needs = rw (other, nobody) at at in absurd (ground arith)
  ]
]

bedroom-IsFurnished : IsFurnished bedroom
bedroom-IsFurnished = record {
  standing = λ f aff at. refl;
  listed = λ e needs f at has alive. only_sleeper e needs f at has;
  inert = λ f aff at. rw (sym (only_bed f aff at)) refl;
}

resolve_affordances-IsOwned_example :
    IsOwned (resolve_affordances bedroom) × IsFurnished (resolve_affordances bedroom)
resolve_affordances-IsOwned_example = resolve_affordances-IsOwned bedroom bedroom-IsFurnished
