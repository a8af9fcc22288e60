-- ===== src/Places/Zones.antt =====
-- Zone ids, and the places that they name.
use Prim.Native.String.{String}
use mathlib.Core.Path.{subst}
use mundus_vivens_game_serve.Common.{
  ℕ, zero, suc, ◌+◌, ◌%◌, ◌<◌, ◌≡◌, ◌≢◌, refl, sym, ap, ◌∙◌, inl, inr, false, none, some, List, [],
  ◌∷◌, ◌++◌, length, get_elem?, length-append, ◌==◌, if◌then◌else◌, arith, Bool-cases, Option-cases,
}
use mundus_vivens_game_serve.Common.Dict.{lookup, insert, lookup-insert, string_eq, beq_refl}
use mundus_vivens_game_serve.Places.{
  LocationRegistry, named_zones, get_or_create_zone_id, wilderness_name, two_32,
}

get_elem?-append_left {ℓ} :
    {A : Type ℓ} (xs ys : List A) (i : ℕ) (v : A)
    → get_elem? xs i ≡ some v
    → get_elem? (xs ++ ys) i ≡ some v
get_elem?-append_left [] ys i v h = absurd (ground arith)
get_elem?-append_left (x ∷ xs) ys zero v h = h
get_elem?-append_left (x ∷ xs) ys (suc i) v h = get_elem?-append_left xs ys i v h

get_elem?-append_last {ℓ} :
    {A : Type ℓ} (xs : List A) (v : A) → get_elem? (xs ++ (v ∷ [])) (length xs) ≡ some v
get_elem?-append_last [] v = refl
get_elem?-append_last (x ∷ xs) v = get_elem?-append_last xs v

named_zones_nonempty :
    (zs : List String) → (length (if length zs == 0 then wilderness_name ∷ [] else zs) == 0) ≡ false
named_zones_nonempty [] = refl
named_zones_nonempty (z ∷ zs) = ground arith

append_nonempty : (zs : List String) (name : String) → (length (zs ++ (name ∷ [])) == 0) ≡ false
append_nonempty [] name = refl
append_nonempty (z ∷ zs) name = ground arith

next_fits : (n m : ℕ) → n ≡ m → m + 1 < two_32 → (n + 1) % two_32 ≡ m + 1
next_fits n m e h = omega arith

some_inj : {m n : ℕ} → some m ≡ some n → m ≡ n
some_inj h = ground arith

some≢none : {n : ℕ} → some n ≢ none
some≢none h = absurd (ground arith)

module _ {F : Type 0} where
  -- The next id is the number of named zones, and each id in the table names its own place.
  pub record IsNamed (st : LocationRegistry F) : Type 0 where
    pub next_is : st.next_zone_id ≡ length (named_zones st)
    pub names :
        (name : String) (id : ℕ)
        → lookup name st.name_to_zone ≡ some id
        → get_elem? (named_zones st) id ≡ some name

  pub known_zone :
      (name : String) (st : LocationRegistry F) (id : ℕ)
      → lookup name st.name_to_zone ≡ some id
      → get_or_create_zone_id name st ≡ (id, record st { zone_to_name = named_zones st })
  unfolding get_or_create_zone_id
  known_zone name st id e = rw (get_or_create_zone_id, e)

  new_zone :
      (name : String) (st : LocationRegistry F)
      → lookup name st.name_to_zone ≡ none
      → get_or_create_zone_id name st ≡ (
        st.next_zone_id,
        record st {
          next_zone_id = (st.next_zone_id + 1) % two_32;
          name_to_zone = insert name st.next_zone_id st.name_to_zone;
          zone_to_name = named_zones st ++ (name ∷ []);
        },
      )
  unfolding get_or_create_zone_id
  new_zone name st e = rw (get_or_create_zone_id, e)

  -- The call answers an id that names the place, and every id that was given out stays.
  pub record IsCreated (name : String) (st : LocationRegistry F) (r : ℕ × LocationRegistry F)
      : Type 0 where
    pub named : IsNamed r.1
    pub listed : lookup name r.1.name_to_zone ≡ some r.0
    pub kept :
        (other : String) (id : ℕ)
        → lookup other st.name_to_zone ≡ some id
        → lookup other r.1.name_to_zone ≡ some id

  same_zones :
      (st : LocationRegistry F)
      → named_zones (record st { zone_to_name = named_zones st }) ≡ named_zones st
  same_zones st = rw (named_zones_nonempty st.zone_to_name)

  known-IsCreated :
      (name : String) (st : LocationRegistry F) (id : ℕ)
      → IsNamed st
      → lookup name st.name_to_zone ≡ some id
      → IsCreated name st (id, record st { zone_to_name = named_zones st })
  known-IsCreated name st id h e = record {
    named = record {
      next_is = h.next_is ∙ ap length (sym (same_zones st));
      names = λ n i at. ap (λ zs. get_elem? zs i) (same_zones st) ∙ h.names n i at;
    };
    listed = e;
    kept = λ other i at. at;
  }

  new-IsCreated :
      (name : String) (st : LocationRegistry F)
      → IsNamed st
      → length (named_zones st) + 1 < two_32
      → lookup name st.name_to_zone ≡ none
      → IsCreated name st (
        st.next_zone_id,
        record st {
          next_zone_id = (st.next_zone_id + 1) % two_32;
          name_to_zone = insert name st.next_zone_id st.name_to_zone;
          zone_to_name = named_zones st ++ (name ∷ []);
        },
      )
  new-IsCreated name st h few e =
      let after = insert name st.next_zone_id st.name_to_zone in
      let look : (n : String)
          → lookup n after
            ≡ (if string_eq.beq name n then some st.next_zone_id else lookup n st.name_to_zone) =
        λ n. lookup-insert name n st.next_zone_id st.name_to_zone in
      let zones : (if length (named_zones st ++ (name ∷ [])) == 0
            then wilderness_name ∷ []
            else named_zones st ++ (name ∷ []))
          ≡ named_zones st ++ (name ∷ []) =
        rw (append_nonempty (named_zones st) name) in
      record {
        named = record {
          next_is =
              rw (zones, length-append (named_zones st) (name ∷ []))
                (next_fits st.next_zone_id (length (named_zones st)) h.next_is few);
          names = λ n i at. rw zones (elim (Bool-cases (string_eq.beq name n)) [
            | inl same ↦
                let is : name ≡ n = (string_eq.beq_iff name n).0 same in
                let there : some st.next_zone_id ≡ some i = rw same at (sym (look n) ∙ at) in
                let last : length (named_zones st) ≡ i = sym h.next_is ∙ some_inj there in
                rw (sym last, sym is) (get_elem?-append_last (named_zones st) name)
            | inr other ↦
                let there : lookup n st.name_to_zone ≡ some i = rw other at (sym (look n) ∙ at) in
                get_elem?-append_left (named_zones st) (name ∷ []) i n (h.names n i there)
          ]);
        };
        listed = look name ∙ rw (beq_refl name);
        kept = λ other i at. look other ∙ elim (Bool-cases (string_eq.beq name other)) [
          | inl same ↦
              let is : name ≡ other = (string_eq.beq_iff name other).0 same in
              let lost : lookup other st.name_to_zone ≡ none = rw is at e in
              absurd (some≢none (sym at ∙ lost))
          | inr apart ↦ rw apart at
        ];
      }

  -- With fewer than 2^32 - 1 zones, the id that is answered for a name is in the table under that
  -- name and names it; no id that was given out before has changed, nor what it names.
  pub get_or_create_zone_id-IsCreated :
      (name : String) (st : LocationRegistry F)
      → IsNamed st
      → length (named_zones st) + 1 < two_32
      → IsCreated name st (get_or_create_zone_id name st)
  get_or_create_zone_id-IsCreated name st h few =
      elim (Option-cases (lookup name st.name_to_zone)) [
        | inl new ↦
            subst (IsCreated name st) (sym (new_zone name st new)) (new-IsCreated name st h few new)
        | inr (id, e) ↦
            subst (IsCreated name st) (sym (known_zone name st id e))
              (known-IsCreated name st id h e)
      ]

  -- The index of the entities is not touched.
  pub get_or_create_zone_id-index :
      (name : String) (st : LocationRegistry F)
      → ((get_or_create_zone_id name st).1.cell_entities ≡ st.cell_entities)
        × ((get_or_create_zone_id name st).1.entity_to_cell ≡ st.entity_to_cell)
  get_or_create_zone_id-index name st = elim (Option-cases (lookup name st.name_to_zone)) [
    | inl new ↦ (
      ap (λ r. r.1.cell_entities) (new_zone name st new),
      ap (λ r. r.1.entity_to_cell) (new_zone name st new),
    )
    | inr (id, e) ↦ (
      ap (λ r. r.1.cell_entities) (known_zone name st id e),
      ap (λ r. r.1.entity_to_cell) (known_zone name st id e),
    )
  ]
