-- ===== src/Places/Position/Arrival.antt =====
-- What a move of an entity leaves behind, in the index and in its component.
use Prim.Native.String.{String}
use mathlib.Core.Path.{subst}
use text.Mathlib.TextEquality.{eq_iff}
use mundus_vivens_game_serve.Common.{
  ℕ, ◌+◌, ◌<◌, ◌≡◌, refl, sym, ap, ◌∙◌, inl, inr, true, not, ◌||◌, some, length, if◌then◌else◌,
  ◌==◌, ==_iff, arith, Bool-cases, Option-cases,
}
use mundus_vivens_game_serve.Common.Dict.{lookup, string_eq, nat_eq}
use mundus_vivens_game_serve.Common.Float.{Float}
use mundus_vivens_game_serve.Agents.{LocationComp, same_text}
use mundus_vivens_game_serve.Places.{
  LocationRegistry, get_or_create_zone_id, move_to_cell, enter_zone, cell, named_zones, two_32,
}
use mundus_vivens_game_serve.Places.Cells.{IsIndexed, move_to_cell-IsIndexed, move_to_cell-only}
use mundus_vivens_game_serve.Places.Zones.{
  IsNamed, get_or_create_zone_id-IsCreated, get_or_create_zone_id-index,
}
use mundus_vivens_game_serve.Places.History.{moved_at}
use mundus_vivens_game_serve.Places.Region.{get_location_name_at}
use mundus_vivens_game_serve.Places.Region.Painted.{get_location_name_at-index}
use mundus_vivens_game_serve.Places.Position.{settle, update_entity_position, get_cell_key}

module _ {F : Type 0} where
  enter_zone-names :
      (name : String) (zone : ℕ) (st : LocationRegistry F) (loc : LocationComp F)
      → ((enter_zone name zone st loc).location_name ≡ name)
        × ((enter_zone name zone st loc).zone_id ≡ zone)
  unfolding enter_zone
  enter_zone-names name zone st loc =
      elim (Bool-cases (not (same_text loc.location_name name) || not (loc.zone_id == zone))) [
        | inl e ↦ elim (Option-cases (lookup name st.location_centers)) [
          | inl unknown ↦ rw (enter_zone, e, unknown) (refl, refl)
          | inr (meta, known) ↦ rw (enter_zone, e, known) (refl, refl)
        ]
        | inr e ↦
            let same : loc.location_name ≡ name =
              (eq_iff loc.location_name name).0 (ground arith) in
            let same_zone : loc.zone_id ≡ zone = (==_iff loc.zone_id zone).0 (ground arith) in
            rw (enter_zone, e) (same, same_zone)
      ]

module _ (fl : Float) where
  open fl use {F}

  -- The component after the call, and the registry, agree on the zone of the new position.
  pub record IsSettled (e : ℕ) (x z : F) (name : String) (loc : LocationComp F)
      (after : LocationRegistry F) : Type 0 where
    pub has_name : loc.location_name ≡ name
    pub has_zone : lookup name after.name_to_zone ≡ some loc.zone_id
    pub named : IsNamed after
    pub at : (loc.x ≡ x) × (loc.z ≡ z)
    pub in_cell : lookup e after.entity_to_cell ≡ some (get_cell_key fl x z)
    pub indexed : IsIndexed after

  settle-IsSettled :
      (e : ℕ) (name : String) (x z : F) (st : LocationRegistry F) (loc : LocationComp F)
      → IsNamed st
      → length (named_zones st) + 1 < two_32
      → IsIndexed st
      → lookup e st.entity_to_cell ≡ some (get_cell_key fl x z)
      → IsSettled e x z name (settle fl name x z st loc).0 (settle fl name x z st loc).1
  unfolding settle cell
  settle-IsSettled e name x z st loc h few indexed at =
      let (zone, after) = get_or_create_zone_id name st in
      let made = get_or_create_zone_id-IsCreated name st h few in
      let (cells, ats) = get_or_create_zone_id-index name st in
      let names = enter_zone-names name zone after loc in
      record {
        has_name = names.0;
        has_zone = made.listed ∙ ap some (sym names.1);
        named = made.named;
        at = (refl, refl);
        in_cell = ap (lookup e) ats ∙ at;
        indexed = λ d key. rw (cells, ats) (indexed d key);
      }

  moved-IsNamed :
      (e key : ℕ) (st : LocationRegistry F)
      → IsNamed st
      → IsNamed (move_to_cell e key st) × (named_zones (move_to_cell e key st) ≡ named_zones st)
  moved-IsNamed e key st h =
      let (cells, at, only) = move_to_cell-only e key st in
      subst (λ (s : LocationRegistry F). IsNamed s × (named_zones s ≡ named_zones st)) (sym only)
        (record { next_is = h.next_is; names = h.names }, refl)

  same_name :
      (e key : ℕ) (x z : F) (st : LocationRegistry F)
      → get_location_name_at fl x z (move_to_cell e key st) ≡ get_location_name_at fl x z st
  same_name e key x z st =
      let (cells, at, only) = move_to_cell-only e key st in
      ap (get_location_name_at fl x z) only ∙ get_location_name_at-index fl x z st cells at

  -- An entity with a location component that moves to (x, z) is listed in the cell of (x, z), once
  -- there and nowhere else; its component has the new coordinates, the name that the registry has
  -- for them, and the zone id of that name in the table.
  pub update_entity_position-IsSettled :
      (e : ℕ) (x z : F) (loc : LocationComp F) (st : LocationRegistry F)
      → IsIndexed st
      → IsNamed st
      → length (named_zones st) + 1 < two_32
      → (settled : LocationComp F) × (after : LocationRegistry F) × (update_entity_position fl e x z
            (some loc)
            st
          ≡ (some settled, after))
        × IsSettled e x z (get_location_name_at fl x z st) settled after
  unfolding update_entity_position
  update_entity_position-IsSettled e x z loc st indexed h few =
      let key = get_cell_key fl x z in
      let moved = move_to_cell e key st in
      let name = get_location_name_at fl x z moved in
      let (named, zones) = moved-IsNamed e key st h in
      let is : (e == e) ≡ true = (==_iff e e).1 refl in
      let here : (if e == e then some key else lookup e st.entity_to_cell) ≡ some key = rw is in
      let at : lookup e moved.entity_to_cell ≡ some key = moved_at e e key st ∙ here in
      (
        (settle fl name x z moved loc).0,
        (settle fl name x z moved loc).1,
        refl,
        subst
            (λ n.
              IsSettled e x z n (settle fl name x z moved loc).0 (settle fl name x z moved loc).1)
            (same_name e key x z st)
            (settle-IsSettled e name x z moved loc named (rw zones few)
              (move_to_cell-IsIndexed e key st indexed) at),
      )

  -- The component that comes back has the coordinates that it was given.
  pub update_entity_position-at :
      (e : ℕ) (x z : F) (loc : LocationComp F) (st : LocationRegistry F)
      → (c : LocationComp F) × ((update_entity_position fl e x z (some loc) st).0 ≡ some c)
        × (c.x ≡ x)
        × (c.z ≡ z)
  unfolding update_entity_position settle
  update_entity_position-at e x z loc st = (_, refl, refl, refl)
