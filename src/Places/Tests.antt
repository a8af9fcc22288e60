-- ===== src/Places/Tests.antt =====
-- A registry with one place, and entities that move about it.
use mundus_vivens_game_serve.Common.{
  ℕ, ◌≡◌, refl, Bool-cases, inl, inr, sym, none, some, List, [], ◌∷◌, arith,
}
use mundus_vivens_game_serve.Common.Dict.{string_eq, nat_eq}
use mundus_vivens_game_serve.Common.Fixed.{fixed}
use mundus_vivens_game_serve.Agents.{LocationComp, pub_house, unspecified}
use mundus_vivens_game_serve.Places.{
  LocationRegistry, LocationMeta, get_or_create_zone_id, cell, wilderness_name,
}
use mundus_vivens_game_serve.Places.Cells.{IsIndexed, occurrences, is_at}
use mundus_vivens_game_serve.Places.History.{
  Move, move, remove, apply_moves, last_cell, cell-apply_moves,
}
use mundus_vivens_game_serve.Places.Zones.{IsNamed, IsCreated, get_or_create_zone_id-IsCreated}
use mundus_vivens_game_serve.Places.Region.{get_location_name_at}
use mundus_vivens_game_serve.Places.Position.{update_entity_position}
use mundus_vivens_game_serve.Places.Position.Arrival.{IsSettled, update_entity_position-IsSettled}

abbrev tavern : LocationMeta ℕ
tavern = record {
  x = 2000000000;
  z = 3000000000;
  kind = pub_house;
  region_id = 1;
  territory_id = 2;
}

abbrev one_place : LocationRegistry ℕ
one_place = record {
  location_centers = ("tavern", tavern) ∷ [];
  cell_entities = [];
  entity_to_cell = [];
  name_to_zone = ("tavern", 1) ∷ [];
  zone_to_name = wilderness_name ∷ "tavern" ∷ [];
  next_zone_id = 2;
  region_map = λ i. 0;
  region_map_size = 0;
  map_width = 0;
  map_height = 0;
}

one_place-IsIndexed : IsIndexed one_place
unfolding cell
one_place-IsIndexed e key = refl

one_place-IsNamed : IsNamed one_place
one_place-IsNamed = record {
  next_is = refl;
  names = λ name id at. elim (Bool-cases (string_eq.beq "tavern" name)) [
    | inl same ↦
        let is : "tavern" ≡ name = (string_eq.beq_iff "tavern" name).0 same in
        let found : some 1 ≡ some id = rw same at at in
        let one : 1 ≡ id = ground arith in rw (sym one, sym is) refl
    | inr other ↦ let lost : none ≡ some id = rw other at at in absurd (ground arith)
  ];
}

-- The name that the registry answers outside of every place is no place of its own, and gets an id
-- of its own: not 0, the zone that the baked map has there.
wilderness_zone : (get_or_create_zone_id wilderness_name one_place).0 ≡ 2
unfolding get_or_create_zone_id
wilderness_zone = refl

abbrev walk_about : List Move
walk_about = move 7 3 ∷ move 8 3 ∷ move 7 4 ∷ remove 8 ∷ []

cell-apply_moves_example :
    occurrences 7 (cell 4 (apply_moves walk_about one_place))
    ≡ is_at 4 (last_cell 7 walk_about none)
cell-apply_moves_example = cell-apply_moves walk_about one_place 7 4 one_place-IsIndexed

get_or_create_zone_id-IsCreated_example :
    IsCreated "market" one_place (get_or_create_zone_id "market" one_place)
get_or_create_zone_id-IsCreated_example =
    get_or_create_zone_id-IsCreated "market" one_place one_place-IsNamed (omega arith)

abbrev wanderer : LocationComp ℕ
wanderer = record {
  zone_id = 0;
  location_name = "";
  x = 0;
  y = 0;
  z = 0;
  kind = unspecified;
  region_id = 0;
  territory_id = 0;
}

update_entity_position-IsSettled_example :
    (settled : LocationComp ℕ) × (after : LocationRegistry ℕ) × (update_entity_position fixed 7
        2100000000 3000000000
        (some wanderer)
        one_place
      ≡ (some settled, after))
    × IsSettled fixed 7 2100000000 3000000000
        (get_location_name_at fixed 2100000000 3000000000 one_place)
        settled
        after
update_entity_position-IsSettled_example =
    update_entity_position-IsSettled fixed 7 2100000000 3000000000 wanderer one_place
      one_place-IsIndexed one_place-IsNamed (omega arith)
