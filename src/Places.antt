-- ===== src/Places.antt =====
-- LocationRegistry: the named places with their zone ids, and the spatial index of the entities by
-- cells of 8 by 8. The maps are association lists; `region_map` is a function of the tile's index,
-- of which `region_map_size` entries are there.
pub mod Zones
pub mod Cells
pub mod History
pub mod Region
pub mod Position
mod Tests
use Prim.Native.String.{String}
use mundus_vivens_game_serve.Common.{
  ℕ, zero, suc, ◌+◌, ◌-◌, ◌*◌, ◌%◌, min, Bool, true, false, not, ◌&&◌, ◌||◌, Option, none, some,
  List, [], ◌∷◌, ◌++◌, length, get_elem?, ltb, leb, ◌==◌, if◌then◌else◌,
}
use mundus_vivens_game_serve.Common.Dict.{Eq, lookup, insert, erase, nat_eq, string_eq}
use mundus_vivens_game_serve.Common.Float.{Float}
use mundus_vivens_game_serve.Common.Int.{ℤ, pos, negsuc, pos_part, ◌+ℤ◌, ltb_ℤ}
use mundus_vivens_game_serve.Agents.{LocationType, LocationComp, unspecified, wilderness, same_text}

pub record LocationMeta (F : Type 0) : Type 0 where
  pub x : F
  pub z : F
  pub kind : LocationType
  pub region_id : ℕ
  pub territory_id : ℕ

pub record LocationRegistry (F : Type 0) : Type 0 where
  pub location_centers : List (String × LocationMeta F)
  pub cell_entities : List (ℕ × List ℕ)
  pub entity_to_cell : List (ℕ × ℕ)
  pub name_to_zone : List (String × ℕ)
  pub zone_to_name : List String
  pub next_zone_id : ℕ
  pub region_map : ℕ → ℕ
  pub region_map_size : ℕ
  pub map_width : ℕ
  pub map_height : ℕ

abbrev pub wilderness_name : String
wilderness_name = "Wilderness"

abbrev pub two_32 : ℕ
two_32 = 4294967296

-- static_cast<uint32_t> of an int
abbrev pub to_u32 : ℤ → ℕ
to_u32 (pos n) = n % two_32
to_u32 (negsuc n) = two_32 - 1 - n % two_32

-- std::remove and erase: no occurrence is left.
pub remove_all : ℕ → List ℕ → List ℕ
remove_all e [] = []
remove_all e (x ∷ xs) = if x == e then remove_all e xs else x ∷ remove_all e xs

abbrev pub or_empty : Option (List ℕ) → List ℕ
or_empty none = []
or_empty (some es) = es

module _ {F : Type 0} where
  -- `zone_to_name_` with the name of zone 0, which the first call adds.
  abbrev pub named_zones : LocationRegistry F → List String
  named_zones st = if length st.zone_to_name == 0 then wilderness_name ∷ [] else st.zone_to_name

  pub get_or_create_zone_id : String → LocationRegistry F → ℕ × LocationRegistry F
  get_or_create_zone_id name st =
      let zones = named_zones st in
      elim (lookup name st.name_to_zone) [
        | some zone_id ↦ (zone_id, record st { zone_to_name = zones })
        | none ↦ (
          st.next_zone_id,
          record st {
            next_zone_id = (st.next_zone_id + 1) % two_32;
            name_to_zone = insert name st.next_zone_id st.name_to_zone;
            zone_to_name = zones ++ (name ∷ []);
          },
        )
      ]

  pub register_location : String → LocationMeta F → LocationRegistry F → LocationRegistry F
  register_location name meta st =
      (get_or_create_zone_id name
        (record st { location_centers = insert name meta st.location_centers })).1

  -- `cell_entities_[key]`, which is empty for a key that is missing.
  pub cell : ℕ → LocationRegistry F → List ℕ
  cell key st = or_empty (lookup key st.cell_entities)

  abbrev pub set_cell : ℕ → List ℕ → LocationRegistry F → LocationRegistry F
  set_cell key es st = record st { cell_entities = insert key es st.cell_entities }

  pub enter_cell : ℕ → ℕ → LocationRegistry F → LocationRegistry F
  enter_cell e new_cell st =
      set_cell new_cell (cell new_cell st ++ (e ∷ []))
        (record st { entity_to_cell = insert e new_cell st.entity_to_cell })

  abbrev pub leave_cell : ℕ → ℕ → LocationRegistry F → LocationRegistry F
  leave_cell e old_cell st = set_cell old_cell (remove_all e (cell old_cell st)) st

  -- The index of the cells, in `UpdateEntityPosition`.
  pub move_to_cell : ℕ → ℕ → LocationRegistry F → LocationRegistry F
  move_to_cell e new_cell st = elim (lookup e st.entity_to_cell) [
    | none ↦ enter_cell e new_cell st
    | some old_cell ↦
        if old_cell == new_cell then st else enter_cell e new_cell (leave_cell e old_cell st)
  ]

  pub remove_entity : ℕ → LocationRegistry F → LocationRegistry F
  remove_entity e st = elim (lookup e st.entity_to_cell) [
    | none ↦ st
    | some old_cell ↦
        let left = leave_cell e old_cell st in
        record left { entity_to_cell = erase e left.entity_to_cell }
  ]

  -- What the entity's component becomes where the zone has changed.
  pub enter_zone : String → ℕ → LocationRegistry F → LocationComp F → LocationComp F
  enter_zone name zone st loc =
      if not (same_text loc.location_name name) || not (loc.zone_id == zone)
      then elim (lookup name st.location_centers) [
        | some meta ↦ record loc {
          location_name = name;
          zone_id = zone;
          kind = meta.kind;
          region_id = meta.region_id;
          territory_id = meta.territory_id;
        }
        | none ↦ record loc {
          location_name = name;
          zone_id = zone;
          kind = if same_text name wilderness_name then wilderness else unspecified;
          region_id = 0;
          territory_id = 0;
        }
      ]
      else loc
