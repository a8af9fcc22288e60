-- ===== src/Places/Region/Circles.antt =====
-- The circles of the places in the baked map.
use Prim.Native.String.{String}
use mathlib.Core.Path.{subst}
use mundus_vivens_game_serve.Common.{
  ℕ, zero, suc, ◌+◌, ◌-◌, ◌*◌, ◌<◌, ◌≤◌, min, ◌≡◌, refl, sym, ap, ◌∙◌, inl, inr, Bool, true, false,
  some, if◌then◌else◌, List, [], ◌∷◌, arith, none, Option, ◌==◌, ==_iff, Bool-cases,
}
use mundus_vivens_game_serve.Common.Dict.{lookup, string_eq}
use mundus_vivens_game_serve.Common.Float.{Float}
use mundus_vivens_game_serve.Common.Int.{ℤ, pos, pos_part, ◌+ℤ◌, ◌≤ℤ◌}
use mundus_vivens_game_serve.Places.{LocationRegistry, LocationMeta, named_zones}
use mundus_vivens_game_serve.Places.Zones.{known_zone}
use mundus_vivens_game_serve.Places.Region.{
  is_inside, location_radius, mark_tile, mark_column, mark_columns, mark_location, bake_locations,
  bake_region_map,
}
use mundus_vivens_game_serve.Places.Region.Painted.{
  Painted, mark_column-Painted, mark_columns-Painted, mark_location-Painted,
}

-- The zone id that is found, or what was there.
abbrev pub id_or : ℕ → Option ℕ → ℕ
id_or before none = before
id_or before (some id) = id

chosen : {A : Type 0} → (b : Bool) (x y : A) → b ≡ true → (if b then x else y) ≡ x
chosen true x y e = refl
chosen false x y e = cc

not_chosen : {A : Type 0} → (b : Bool) (x y : A) → b ≡ false → (if b then x else y) ≡ y
not_chosen true x y e = cc
not_chosen false x y e = refl

module _ (fl : Float) where
  open fl use {F, add, sub, floor, ceil}

  -- Every place of the list has a zone id in the table.
  abbrev pub AllHaveZones : List (String × LocationMeta F) → List (String × ℕ) → Type 0
  AllHaveZones [] zones = Unit
  AllHaveZones ((name, location) ∷ rest) zones =
      ((id : ℕ) × (lookup name zones ≡ some id)) × AllHaveZones rest zones

  -- The zone of the last place of the list that covers the tile; `before`, if none does.
  abbrev pub zone_of_last : List (String × LocationMeta F) → List (String × ℕ) → ℕ → ℕ → ℕ → ℕ
  zone_of_last [] zones x z before = before
  zone_of_last ((name, location) ∷ rest) zones x z before =
      zone_of_last rest zones x z
        (if is_inside fl location x z then id_or before (lookup name zones) else before)

  -- What the bounds of the loops need of the arithmetic: a tile whose distance is within the
  -- radius lies between the place less the radius, rounded down, and the place with the radius,
  -- rounded up.
  pub record CircleLaws : Type 0 where
    pub reaches_x :
        (location : LocationMeta F) (x z : ℕ)
        → is_inside fl location x z ≡ true
        → (floor (sub location.x (location_radius fl)) ≤ℤ pos x)
          × (pos x ≤ℤ ceil (add location.x (location_radius fl)))
    pub reaches_z :
        (location : LocationMeta F) (x z : ℕ)
        → is_inside fl location x z ≡ true
        → (floor (sub location.z (location_radius fl)) ≤ℤ pos z)
          × (pos z ≤ℤ ceil (add location.z (location_radius fl)))

  module _ (location : LocationMeta F) (id : ℕ) (x z : ℕ) (low : z < 2000)
      (inside : is_inside fl location x z ≡ true) where
    -- A tile that has the zone keeps it, whatever the place marks later.
    keeps_zone :
        (before after : ℕ → ℕ)
        → Painted fl location id 2000 before after
        → before (x * 2000 + z) ≡ id
        → after (x * 2000 + z) ≡ id
    keeps_zone before after p e = elim (p (x * 2000 + z)) [ inl same ↦ same ∙ e | inr c ↦ c.entry ]

    mark_tile-hit : (map : ℕ → ℕ) → mark_tile fl location id 2000 x z map (x * 2000 + z) ≡ id
    unfolding mark_tile
    mark_tile-hit map =
        let at : (x * 2000 + z == x * 2000 + z) ≡ true = ground arith in rw (inside, at)

    mark_column-hit :
        (count from : ℕ) (map : ℕ → ℕ)
        → from ≤ z
        → z < from + count
        → count + from ≤ 2000
        → mark_column fl location id 2000 x count from map (x * 2000 + z) ≡ id
    unfolding mark_column
    mark_column-hit zero from map le lt fits = absurd (omega arith)
    mark_column-hit (suc count) from map le lt fits = elim (Bool-cases (from == z)) [
      | inl here ↦
          let same : from ≡ z = (==_iff _ _).0 here in
          keeps_zone (mark_tile fl location id 2000 x from map) _
            (mark_column-Painted fl location id 2000 x count (suc from)
              (mark_tile fl location id 2000 x from map) (inl (omega arith)))
            (subst (λ k. mark_tile fl location id 2000 x k map (x * 2000 + z) ≡ id) (sym same)
              (mark_tile-hit map))
      | inr later ↦
          mark_column-hit count (suc from) (mark_tile fl location id 2000 x from map) (ground arith)
            (omega arith) (omega arith)
    ]

    mark_columns-hit :
        (min_z count_z count from : ℕ) (map : ℕ → ℕ)
        → min_z ≤ z
        → z < min_z + count_z
        → count_z + min_z ≤ 2000
        → from ≤ x
        → x < from + count
        → mark_columns fl location id 2000 min_z count_z count from map (x * 2000 + z) ≡ id
    unfolding mark_columns
    mark_columns-hit min_z count_z zero from map lez ltz fits le lt = absurd (omega arith)
    mark_columns-hit min_z count_z (suc count) from map lez ltz fits le lt =
        elim (Bool-cases (from == x)) [
          | inl here ↦
              let same : from ≡ x = (==_iff _ _).0 here in
              keeps_zone (mark_column fl location id 2000 from count_z min_z map) _
                (mark_columns-Painted fl location id 2000 min_z count_z count (suc from)
                  (mark_column fl location id 2000 from count_z min_z map) (inl fits))
                (subst
                  (λ k. mark_column fl location id 2000 k count_z min_z map (x * 2000 + z) ≡ id)
                  (sym same) (mark_column-hit count_z min_z map lez ltz fits))
          | inr later ↦
              mark_columns-hit min_z count_z count (suc from)
                (mark_column fl location id 2000 from count_z min_z map) lez ltz fits (ground arith)
                (omega arith)
        ]

    in_bounds :
        (size tile : ℕ) (least most : ℤ)
        → tile < size
        → least ≤ℤ pos tile
        → pos tile ≤ℤ most
        → let first = pos_part least in
          let end = min size (pos_part (most +ℤ pos 1)) in
          (first ≤ tile) × (tile < first + (end - first)) × ((end - first) + first ≤ size)
    unfolding ◌+ℤ◌
    in_bounds size tile least most lt le ge = ground arith

    mark_location-hit :
        (laws : CircleLaws) (width : ℕ) (map : ℕ → ℕ)
        → x < width
        → mark_location fl location id width 2000 map (x * 2000 + z) ≡ id
    unfolding mark_location
    mark_location-hit laws width map lt =
        let (least_x, most_x) = laws.reaches_x location x z inside in
        let (least_z, most_z) = laws.reaches_z location x z inside in
        let (first_x, end_x, _) = in_bounds width x _ _ lt least_x most_x in
        let (first_z, end_z, fits) = in_bounds 2000 z _ _ low least_z most_z in
        mark_columns-hit _ _ _ _ map first_z end_z fits first_x end_x

  -- A place that does not cover the tile leaves it alone.
  mark_location-miss :
      (location : LocationMeta F) (id width : ℕ) (map : ℕ → ℕ) (x z : ℕ)
      → z < 2000
      → is_inside fl location x z ≡ false
      → mark_location fl location id width 2000 map (x * 2000 + z) ≡ map (x * 2000 + z)
  mark_location-miss location id width map x z low out =
      elim (mark_location-Painted fl location id 2000 width map (x * 2000 + z)) [
        | inl same ↦ same
        | inr c ↦
            let same_x : c.x ≡ x = omega (arith, c.at, c.in_column) in
            let same_z : c.z ≡ z = omega (arith, c.at, c.in_column) in
            let inside : is_inside fl location x z ≡ true = rw (same_x, same_z) at c.inside in
            absurd (ground arith)
      ]

  -- The state after one place that has a zone id.
  abbrev marked : LocationMeta F → ℕ → LocationRegistry F → LocationRegistry F
  marked location id st = record st {
    zone_to_name = named_zones st;
    region_map = mark_location fl location id st.map_width st.map_height st.region_map;
  }

  bake_locations-known :
      (name : String) (location : LocationMeta F) (rest : List (String × LocationMeta F)) (id : ℕ)
      (st : LocationRegistry F)
      → lookup name st.name_to_zone ≡ some id
      → bake_locations fl ((name, location) ∷ rest) st
        ≡ bake_locations fl rest (marked location id st)
  unfolding bake_locations
  bake_locations-known name location rest id st known =
      ap
        (λ (r : ℕ × LocationRegistry F). bake_locations fl rest (record r.1 {
          region_map = mark_location fl location r.0 st.map_width st.map_height r.1.region_map;
        }))
        (known_zone name st id known)

  marked_entry :
      (laws : CircleLaws) (location : LocationMeta F) (id width : ℕ) (map : ℕ → ℕ) (x z : ℕ)
      → x < width
      → z < 2000
      → mark_location fl location id width 2000 map (x * 2000 + z)
        ≡ (if is_inside fl location x z then id else map (x * 2000 + z))
  marked_entry laws location id width map x z lt low =
      elim (Bool-cases (is_inside fl location x z)) [
        | inl inside ↦
            mark_location-hit location id x z low inside laws width map lt
            ∙ sym (chosen _ _ _ inside)
        | inr out ↦
            mark_location-miss location id width map x z low out ∙ sym (not_chosen _ _ _ out)
      ]

  bake_locations-zone_of_last :
      (laws : CircleLaws) (places : List (String × LocationMeta F)) (st : LocationRegistry F)
      (x z : ℕ)
      → AllHaveZones places st.name_to_zone
      → x < st.map_width
      → st.map_height ≡ 2000
      → z < 2000
      → (bake_locations fl places st).region_map (x * 2000 + z)
        ≡ zone_of_last places st.name_to_zone x z (st.region_map (x * 2000 + z))
  unfolding bake_locations
  bake_locations-zone_of_last laws [] st x z h lt high low = refl
  bake_locations-zone_of_last laws ((name, location) ∷ rest) st x z h lt high low =
      let (id, known) = h.0 in
      let after = marked location id st in
      let i = x * 2000 + z in
      let entry : after.region_map i ≡ (
          if is_inside fl location x z
          then id_or (st.region_map i) (lookup name st.name_to_zone)
          else st.region_map i) =
        rw (high, known) (marked_entry laws location id st.map_width st.region_map x z lt low) in
      ap (λ (t : LocationRegistry F). t.region_map i)
        (bake_locations-known name location rest id st known)
      ∙ bake_locations-zone_of_last laws rest after x z h.1 lt high low
      ∙ ap (zone_of_last rest st.name_to_zone x z) entry

  -- The map is baked 2000 tiles high, from places that all have a zone id. If a tile within the
  -- radius lies within the rounded bounds of its place, then every tile of the map has the zone id
  -- of the last registered place, in the order of the iteration, whose circle covers it, and 0 if
  -- no circle does.
  pub bake_region_map_covers :
      (laws : CircleLaws) (width : ℕ) (st : LocationRegistry F) (x z : ℕ)
      → AllHaveZones st.location_centers st.name_to_zone
      → x < width
      → z < 2000
      → (bake_region_map fl width 2000 st).region_map (x * 2000 + z)
        ≡ zone_of_last st.location_centers st.name_to_zone x z 0
  unfolding bake_region_map
  bake_region_map_covers laws width st x z h lt low =
      let blank = record st {
        map_width = width;
        map_height = 2000;
        region_map = λ i. 0;
        region_map_size = width * 2000;
      } in
      bake_locations-zone_of_last laws st.location_centers blank x z h lt refl low
