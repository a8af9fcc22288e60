-- ===== src/Places/Position.antt =====
-- `UpdateEntityPosition` and `GetNearbyEntities`. The component of an entity is `none` if it has
-- none, or if the entity is not valid.
pub mod Arrival
use Prim.Native.String.{String}
use mundus_vivens_game_serve.Common.{
  ℕ, zero, suc, ◌+◌, ◌-◌, ◌*◌, ◌%◌, Bool, true, false, Option, none, some, List, [], ◌∷◌, ◌++◌,
  if◌then◌else◌,
}
use mundus_vivens_game_serve.Common.Dict.{lookup}
use mundus_vivens_game_serve.Common.Float.{Float}
use mundus_vivens_game_serve.Common.Int.{ℤ, pos, negsuc, ◌+ℤ◌}
use mundus_vivens_game_serve.Agents.{LocationComp}
use mundus_vivens_game_serve.Places.{
  LocationRegistry, to_u32, two_32, get_or_create_zone_id, move_to_cell, enter_zone, cell,
}
use mundus_vivens_game_serve.Places.Region.{get_location_name_at}

-- The shift of the first coordinate by 32 bits, and the second in the bits below.
abbrev pub key_of : ℤ → ℤ → ℕ
key_of cx cz = to_u32 cx * two_32 + to_u32 cz

module _ (fl : Float) where
  open fl use {F, add, sub, mul, div, le, dec, floor}

  pub get_cell_key : F → F → ℕ
  get_cell_key x z = key_of (floor (div x (dec 8 0))) (floor (div z (dec 8 0)))

  -- The component with its zone and its coordinates brought up to date.
  pub settle :
      String → F → F → LocationRegistry F → LocationComp F → LocationComp F × LocationRegistry F
  settle name x z st loc =
      let (zone_id, named) = get_or_create_zone_id name st in
      (record (enter_zone name zone_id named loc) { x = x; z = z }, named)

  pub update_entity_position :
      ℕ
      → F
      → F
      → Option (LocationComp F)
      → LocationRegistry F
      → Option (LocationComp F) × LocationRegistry F
  update_entity_position e x z comp st =
      let moved = move_to_cell e (get_cell_key x z) st in
      elim comp [
        | none ↦ (none, moved)
        | some loc ↦
            let (settled, named) = settle (get_location_name_at fl x z moved) x z moved loc in
            (some settled, named)
      ]

  -- The entities of one cell that are near enough.
  pub near_in_cell : F → F → F → (ℕ → Option (LocationComp F)) → List ℕ → List ℕ
  near_in_cell x z radius comp [] = []
  near_in_cell x z radius comp (e ∷ es) =
      let rest = near_in_cell x z radius comp es in
      elim (comp e) [
        | none ↦ rest
        | some loc ↦
            let dx = sub loc.x x in
            let dz = sub loc.z z in
            if le (add (mul dx dx) (mul dz dz)) (mul radius radius) then e ∷ rest else rest
      ]

  abbrev offsets : List ℤ
  offsets = negsuc 0 ∷ pos 0 ∷ pos 1 ∷ []

  pub near_in_column :
      F → F → F → (ℕ → Option (LocationComp F)) → ℤ → ℤ → List ℤ → LocationRegistry F → List ℕ
  near_in_column x z radius comp cx cz [] st = []
  near_in_column x z radius comp cx cz (j ∷ js) st =
      near_in_cell x z radius comp (cell (key_of cx (cz +ℤ j)) st)
      ++ near_in_column x z radius comp cx cz js st

  pub near_in_columns :
      F → F → F → (ℕ → Option (LocationComp F)) → ℤ → ℤ → List ℤ → LocationRegistry F → List ℕ
  near_in_columns x z radius comp cx cz [] st = []
  near_in_columns x z radius comp cx cz (i ∷ is) st =
      near_in_column x z radius comp (cx +ℤ i) cz offsets st
      ++ near_in_columns x z radius comp cx cz is st

  pub get_nearby_entities : F → F → F → (ℕ → Option (LocationComp F)) → LocationRegistry F → List ℕ
  get_nearby_entities x z radius comp st =
      near_in_columns x z radius comp (floor (div x (dec 8 0))) (floor (div z (dec 8 0))) offsets st
