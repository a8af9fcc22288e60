-- ===== src/Places/Region/Painted.antt =====
-- What the loops of BakeRegionMap may change.
use mundus_vivens_game_serve.Common.{
  ℕ, zero, suc, ◌+◌, ◌-◌, ◌*◌, ◌<◌, ◌≤◌, min, ◌≡◌, refl, ◌∙◌, ◌⊎◌, inl, inr, true, List, arith,
  ◌==◌, ==_iff, Bool-cases,
}
use mundus_vivens_game_serve.Common.Dict.{string_eq}
use mundus_vivens_game_serve.Common.Float.{Float}
use mundus_vivens_game_serve.Places.{LocationRegistry, LocationMeta}
use mundus_vivens_game_serve.Places.Region.{
  is_inside, mark_tile, mark_column, mark_columns, mark_location, first_tile, tiles_end,
  get_location_name_at,
}

module _ (fl : Float) where
  open fl use {F, add, sub, floor, ceil}

  -- The entry at `i` is the zone `zone_id`, and `i` is a tile of the field of this height that the
  -- place covers.
  pub record IsCovered (location : LocationMeta F) (zone_id height i v : ℕ) : Type 0 where
    pub x : ℕ
    pub z : ℕ
    pub at : x * height + z ≡ i
    pub in_column : z < height
    pub inside : is_inside fl location x z ≡ true
    pub entry : v ≡ zone_id

  -- What one place may have changed.
  abbrev pub Painted : LocationMeta F → ℕ → ℕ → (ℕ → ℕ) → (ℕ → ℕ) → Type 0
  Painted location zone_id height before after =
      (i : ℕ) → (after i ≡ before i) ⊎ IsCovered location zone_id height i (after i)

  Painted-twice :
      (location : LocationMeta F) (zone_id height : ℕ) (f g h : ℕ → ℕ)
      → Painted location zone_id height f g
      → Painted location zone_id height g h
      → Painted location zone_id height f h
  Painted-twice location zone_id height f g h p q i = elim (q i) [
    | inr c ↦ inr c
    | inl e ↦ elim (p i) [
      | inl d ↦ inl (e ∙ d)
      | inr c ↦ inr (record {
        x = c.x;
        z = c.z;
        at = c.at;
        in_column = c.in_column;
        inside = c.inside;
        entry = e ∙ c.entry;
      })
    ]
  ]

  module _ (location : LocationMeta F) (zone_id height : ℕ) where
    mark_tile-Painted :
        (x z : ℕ) (map : ℕ → ℕ)
        → z < height
        → Painted location zone_id height map (mark_tile fl location zone_id height x z map)
    unfolding mark_tile
    mark_tile-Painted x z map h i = elim (Bool-cases (is_inside fl location x z)) [
      | inr e ↦ rw e (inl refl)
      | inl e ↦ elim (Bool-cases (x * height + z == i)) [
        | inr off ↦ rw (e, off) (inl refl)
        | inl at ↦
            rw (e, at)
              (inr (record {
                x = x;
                z = z;
                at = (==_iff _ _).0 at;
                in_column = h;
                inside = e;
                entry = refl;
              }))
      ]
    ]

    pub mark_column-Painted :
        (x count z : ℕ) (map : ℕ → ℕ)
        → count + z ≤ height ⊎ count ≡ 0
        → Painted location zone_id height map (mark_column fl location zone_id height x count z map)
    unfolding mark_column
    mark_column-Painted x zero z map h = λ i. inl refl
    mark_column-Painted x (suc count) z map h =
        let fits : suc count + z ≤ height = elim h [ inl k ↦ k | inr k ↦ absurd (ground arith) ] in
        Painted-twice location zone_id height map (mark_tile fl location zone_id height x z map) _
          (mark_tile-Painted x z map (omega arith))
          (mark_column-Painted x count (suc z) (mark_tile fl location zone_id height x z map)
            (inl (omega arith)))

    pub mark_columns-Painted :
        (min_z count_z count x : ℕ) (map : ℕ → ℕ)
        → count_z + min_z ≤ height ⊎ count_z ≡ 0
        → Painted location zone_id height map
            (mark_columns fl location zone_id height min_z count_z count x map)
    unfolding mark_columns
    mark_columns-Painted min_z count_z zero x map h = λ i. inl refl
    mark_columns-Painted min_z count_z (suc count) x map h =
        Painted-twice location zone_id height map
          (mark_column fl location zone_id height x count_z min_z map) _
          (mark_column-Painted x count_z min_z map h)
          (mark_columns-Painted min_z count_z count (suc x)
            (mark_column fl location zone_id height x count_z min_z map) h)

    in_field :
        (first size end : ℕ) → (min size end - first) + first ≤ size ⊎ min size end - first ≡ 0
    in_field first size end = ground arith

    pub mark_location-Painted :
        (width : ℕ) (map : ℕ → ℕ)
        → Painted location zone_id height map (mark_location fl location zone_id width height map)
    unfolding mark_location
    mark_location-Painted width map =
        mark_columns-Painted (first_tile fl location.z)
          (tiles_end fl height location.z - first_tile fl location.z)
          (tiles_end fl width location.x - first_tile fl location.x) (first_tile fl location.x) map
          (in_field (first_tile fl location.z) height _)

  -- The name of a position does not depend on the index of the entities.
  pub get_location_name_at-index :
      (x z : F) (st : LocationRegistry F) (cells : List (ℕ × List ℕ)) (at : List (ℕ × ℕ))
      → get_location_name_at fl x z (record st { cell_entities = cells; entity_to_cell = at })
        ≡ get_location_name_at fl x z st
  unfolding get_location_name_at
  get_location_name_at-index x z st cells at = refl
