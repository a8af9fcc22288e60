-- ===== src/Places/Region.antt =====
-- The baked map of the regions: `BakeRegionMap`, and `GetLocationNameAt`, which reads it.
pub mod Painted
pub mod Circles
mod Tests
use Prim.Native.String.{String}
use mundus_vivens_game_serve.Common.{
  ℕ, zero, suc, ◌+◌, ◌-◌, ◌*◌, min, Bool, true, false, not, ◌&&◌, Option, none, some, List, [], ◌∷◌,
  length, get_or, ltb, ◌==◌, if◌then◌else◌,
}
use mundus_vivens_game_serve.Common.Float.{Float}
use mundus_vivens_game_serve.Common.Int.{ℤ, pos, pos_part, ◌+ℤ◌}
use mundus_vivens_game_serve.Grid.{clamp}
use mundus_vivens_game_serve.Grid.Route.{write}
use mundus_vivens_game_serve.Places.{
  LocationRegistry, LocationMeta, get_or_create_zone_id, wilderness_name,
}

module _ (fl : Float) where
  open fl use {F, add, sub, mul, sqrt, lt, le, dec, of_ℤ, round, floor, ceil}

  abbrev pub location_radius : F
  location_radius = dec 8 0

  -- The tile is at most the radius away from the place.
  abbrev pub is_inside : LocationMeta F → ℕ → ℕ → Bool
  is_inside location x z =
      let dx = sub (of_ℤ (pos x)) location.x in
      let dz = sub (of_ℤ (pos z)) location.z in
      le (add (mul dx dx) (mul dz dz)) (mul location_radius location_radius)

  pub mark_tile : LocationMeta F → ℕ → ℕ → ℕ → ℕ → (ℕ → ℕ) → ℕ → ℕ
  mark_tile location zone_id height x z map =
      if is_inside location x z then write map (x * height + z) zone_id else map

  -- The inner loop, for so many values of z from the given one.
  pub mark_column : LocationMeta F → ℕ → ℕ → ℕ → ℕ → ℕ → (ℕ → ℕ) → ℕ → ℕ
  mark_column location zone_id height x zero z map = map
  mark_column location zone_id height x (suc count) z map =
      mark_column location zone_id height x count (suc z)
        (mark_tile location zone_id height x z map)

  -- The outer loop, for so many values of x, over z from `min_z`, `count_z` of them.
  pub mark_columns : LocationMeta F → ℕ → ℕ → ℕ → ℕ → ℕ → ℕ → (ℕ → ℕ) → ℕ → ℕ
  mark_columns location zone_id height min_z count_z zero x map = map
  mark_columns location zone_id height min_z count_z (suc count) x map =
      mark_columns location zone_id height min_z count_z count (suc x)
        (mark_column location zone_id height x count_z min_z map)

  -- max(0, floor(v - radius)), and one more than min(size - 1, ceil(v + radius)).
  abbrev pub first_tile : F → ℕ
  first_tile v = pos_part (floor (sub v location_radius))

  abbrev pub tiles_end : ℕ → F → ℕ
  tiles_end size v = min size (pos_part (ceil (add v location_radius) +ℤ pos 1))

  pub mark_location : LocationMeta F → ℕ → ℕ → ℕ → (ℕ → ℕ) → ℕ → ℕ
  mark_location location zone_id width height map =
      mark_columns location zone_id height (first_tile location.z)
        (tiles_end height location.z - first_tile location.z)
        (tiles_end width location.x - first_tile location.x) (first_tile location.x) map

  pub bake_locations : List (String × LocationMeta F) → LocationRegistry F → LocationRegistry F
  bake_locations [] st = st
  bake_locations ((name, location) ∷ rest) st =
      let (zone_id, named) = get_or_create_zone_id name st in
      bake_locations rest (record named {
        region_map = mark_location location zone_id st.map_width st.map_height named.region_map;
      })

  pub bake_region_map : ℕ → ℕ → LocationRegistry F → LocationRegistry F
  bake_region_map width height st = bake_locations st.location_centers (record st {
    map_width = width;
    map_height = height;
    region_map = λ i. 0;
    region_map_size = width * height;
  })

  -- The closest place, of those not considered yet and the closest so far.
  pub closest : F → F → List (String × LocationMeta F) → F → String → F × String
  closest x z [] min_dist closest_loc = (min_dist, closest_loc)
  closest x z ((name, coords) ∷ rest) min_dist closest_loc =
      let dx = sub coords.x x in
      let dz = sub coords.z z in
      let dist = sqrt (add (mul dx dx) (mul dz dz)) in
      if lt dist min_dist then closest x z rest dist name else closest x z rest min_dist closest_loc

  abbrev pub last_index : ℕ → ℕ
  last_index size = if ltb 0 size then size - 1 else 1999

  pub zone_name : ℕ → List String → String
  zone_name resolved_zone names =
      if not (resolved_zone == 0) && ltb resolved_zone (length names)
      then get_or names resolved_zone wilderness_name
      else wilderness_name

  pub get_location_name_at : F → F → LocationRegistry F → String
  get_location_name_at x z st =
      let ix = clamp (last_index st.map_width) (round x) in
      let iz = clamp (last_index st.map_height) (round z) in
      let (min_dist, closest_loc) =
        closest x z st.location_centers (dec 999999 0) wilderness_name in
      if not (st.region_map_size == 0)
      then zone_name (st.region_map (ix * st.map_height + iz)) st.zone_to_name
      else if le min_dist location_radius
      then closest_loc
      else wilderness_name
