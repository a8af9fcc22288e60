-- ===== src/Places/Cells.antt =====
-- The spatial index under its operations.
use mathlib.Core.Path.{subst}
use mundus_vivens_game_serve.Common.{
  ℕ, suc, ◌+◌, ◌≡◌, refl, sym, ap, ◌∙◌, inl, inr, true, false, Option, none, some, List, [], ◌∷◌,
  ◌++◌, ◌==◌, ==_iff, if◌then◌else◌, arith, Bool-cases, Option-cases,
}
use mundus_vivens_game_serve.Common.Dict.{
  lookup, insert, erase, lookup-insert, lookup-erase, nat_eq,
}
use mundus_vivens_game_serve.Places.{
  LocationRegistry, or_empty, remove_all, cell, set_cell, enter_cell, leave_cell, move_to_cell,
  remove_entity,
}

abbrev pub occurrences : ℕ → List ℕ → ℕ
occurrences e [] = 0
occurrences e (x ∷ xs) = if x == e then suc (occurrences e xs) else occurrences e xs

occurrences-append :
    (e : ℕ) (xs ys : List ℕ) → occurrences e (xs ++ ys) ≡ occurrences e xs + occurrences e ys
occurrences-append e [] ys = omega arith
occurrences-append e (x ∷ xs) ys = ground (arith, occurrences-append e xs ys)

occurrences-one : (e d : ℕ) → occurrences e (d ∷ []) ≡ (if d == e then 1 else 0)
occurrences-one e d = refl

occurrences-remove_all :
    (e d : ℕ) (xs : List ℕ)
    → occurrences e (remove_all d xs) ≡ (if d == e then 0 else occurrences e xs)
unfolding remove_all
occurrences-remove_all e d [] = ground arith
occurrences-remove_all e d (x ∷ xs) = ground (arith, occurrences-remove_all e d xs)

abbrev pub is_at : ℕ → Option ℕ → ℕ
is_at key none = 0
is_at key (some k) = if k == key then 1 else 0

entered :
    (d e new_cell key : ℕ) (there here : List ℕ) (at : Option ℕ)
    → occurrences d here ≡ (if e == d then 0 else is_at key at)
    → occurrences d there ≡ (if e == d then 0 else is_at new_cell at)
    → occurrences d (if new_cell == key then there ++ (e ∷ []) else here)
      ≡ is_at key (if e == d then some new_cell else at)
entered d e new_cell key there here at h k =
    ground (arith, occurrences-append d there (e ∷ []), occurrences-one d e)

left :
    (d e old_cell key : ℕ) (there here : List ℕ) (at : Option ℕ)
    → occurrences d here ≡ is_at key at
    → occurrences d there ≡ is_at old_cell at
    → (e ≡ d → at ≡ some old_cell)
    → occurrences d (if old_cell == key then remove_all e there else here)
      ≡ (if e == d then 0 else is_at key at)
left d e old_cell key there here at h k same = ground (arith, occurrences-remove_all d e there)

module _ {F : Type 0} where
  -- In every cell, every entity occurs once if it was put there last, and else not at all.
  abbrev pub IsIndexed : LocationRegistry F → Type 0
  IsIndexed st = (e key : ℕ) → occurrences e (cell key st) ≡ is_at key (lookup e st.entity_to_cell)

  cell-set_cell :
      (key k : ℕ) (es : List ℕ) (st : LocationRegistry F)
      → cell k (set_cell key es st) ≡ (if key == k then es else cell k st)
  unfolding cell
  cell-set_cell key k es st = elim (Bool-cases (key == k)) [
    | inl e ↦ rw e (rw e at (ap or_empty (lookup-insert key k es st.cell_entities)))
    | inr e ↦ rw e (rw e at (ap or_empty (lookup-insert key k es st.cell_entities)))
  ]

  -- The entity is in no cell, and the others are where they belong.
  abbrev IsAbsent : ℕ → LocationRegistry F → Type 0
  IsAbsent e st =
      (d key : ℕ)
      → occurrences d (cell key st) ≡ (if e == d then 0 else is_at key (lookup d st.entity_to_cell))

  enter_cell-IsIndexed :
      (e new_cell : ℕ) (st : LocationRegistry F)
      → IsAbsent e st
      → IsIndexed (enter_cell e new_cell st)
  unfolding enter_cell cell
  enter_cell-IsIndexed e new_cell st h d key =
      let now : cell key (enter_cell e new_cell st)
          ≡ (if new_cell == key then cell new_cell st ++ (e ∷ []) else cell key st) =
        cell-set_cell new_cell key (cell new_cell st ++ (e ∷ []))
          (record st { entity_to_cell = insert e new_cell st.entity_to_cell }) in
      rw (now, lookup-insert e d new_cell st.entity_to_cell)
        (entered d e new_cell key (cell new_cell st) (cell key st) (lookup d st.entity_to_cell)
          (h d key) (h d new_cell))

  leave_cell-IsAbsent :
      (e old_cell : ℕ) (st : LocationRegistry F)
      → IsIndexed st
      → lookup e st.entity_to_cell ≡ some old_cell
      → IsAbsent e (leave_cell e old_cell st)
  leave_cell-IsAbsent e old_cell st h at d key =
      rw (cell-set_cell old_cell key (remove_all e (cell old_cell st)) st) (
        left d e old_cell key (cell old_cell st) (cell key st) (lookup d st.entity_to_cell)
          (h d key) (h d old_cell) (λ same. rw same at at))

  IsAbsent-at_first :
      (e : ℕ) (st : LocationRegistry F)
      → IsIndexed st
      → lookup e st.entity_to_cell ≡ none
      → IsAbsent e st
  IsAbsent-at_first e st h new d key = elim (Bool-cases (e == d)) [
    | inl same ↦
        let at : e ≡ d = (==_iff e d).0 same in
        let none_here : lookup d st.entity_to_cell ≡ none = rw at at new in
        rw same (h d key ∙ ap (is_at key) none_here)
    | inr other ↦ rw other (h d key)
  ]

  pub move_to_cell-new :
      (e new_cell : ℕ) (st : LocationRegistry F)
      → lookup e st.entity_to_cell ≡ none
      → move_to_cell e new_cell st ≡ enter_cell e new_cell st
  unfolding move_to_cell enter_cell
  move_to_cell-new e new_cell st at = rw (move_to_cell, at)

  pub move_to_cell-same :
      (e old_cell new_cell : ℕ) (st : LocationRegistry F)
      → lookup e st.entity_to_cell ≡ some old_cell
      → (old_cell == new_cell) ≡ true
      → move_to_cell e new_cell st ≡ st
  unfolding move_to_cell
  move_to_cell-same e old_cell new_cell st at same = rw (move_to_cell, at, same)

  pub move_to_cell-other :
      (e old_cell new_cell : ℕ) (st : LocationRegistry F)
      → lookup e st.entity_to_cell ≡ some old_cell
      → (old_cell == new_cell) ≡ false
      → move_to_cell e new_cell st ≡ enter_cell e new_cell (leave_cell e old_cell st)
  unfolding move_to_cell enter_cell
  move_to_cell-other e old_cell new_cell st at other = rw (move_to_cell, at, other)

  pub move_to_cell-IsIndexed :
      (e new_cell : ℕ) (st : LocationRegistry F)
      → IsIndexed st
      → IsIndexed (move_to_cell e new_cell st)
  move_to_cell-IsIndexed e new_cell st h = elim (Option-cases (lookup e st.entity_to_cell)) [
    | inl new ↦
        subst IsIndexed (sym (move_to_cell-new e new_cell st new))
          (enter_cell-IsIndexed e new_cell st (IsAbsent-at_first e st h new))
    | inr (old_cell, at) ↦ elim (Bool-cases (old_cell == new_cell)) [
      | inl same ↦ subst IsIndexed (sym (move_to_cell-same e old_cell new_cell st at same)) h
      | inr other ↦ subst IsIndexed (sym (move_to_cell-other e old_cell new_cell st at other)) (
          enter_cell-IsIndexed e new_cell (leave_cell e old_cell st)
            (leave_cell-IsAbsent e old_cell st h at))
    ]
  ]

  pub remove_entity-unknown :
      (e : ℕ) (st : LocationRegistry F)
      → lookup e st.entity_to_cell ≡ none
      → remove_entity e st ≡ st
  unfolding remove_entity
  remove_entity-unknown e st at = rw (remove_entity, at)

  pub remove_entity-known :
      (e old_cell : ℕ) (st : LocationRegistry F)
      → lookup e st.entity_to_cell ≡ some old_cell
      → remove_entity e st
        ≡ record (leave_cell e old_cell st) { entity_to_cell = erase e st.entity_to_cell }
  unfolding remove_entity
  remove_entity-known e old_cell st at = rw (remove_entity, at)

  erased-IsIndexed :
      (e : ℕ) (st : LocationRegistry F)
      → IsAbsent e st
      → IsIndexed (record st { entity_to_cell = erase e st.entity_to_cell })
  unfolding cell
  erased-IsIndexed e st h d key =
      h d key
      ∙ rw (lookup-erase e d st.entity_to_cell)
          (elim (Bool-cases (e == d)) [ inl same ↦ rw same | inr other ↦ rw other ])

  pub remove_entity-IsIndexed :
      (e : ℕ) (st : LocationRegistry F) → IsIndexed st → IsIndexed (remove_entity e st)
  remove_entity-IsIndexed e st h = elim (Option-cases (lookup e st.entity_to_cell)) [
    | inl unknown ↦ subst IsIndexed (sym (remove_entity-unknown e st unknown)) h
    | inr (old_cell, at) ↦
        subst IsIndexed (sym (remove_entity-known e old_cell st at))
          (erased-IsIndexed e (leave_cell e old_cell st) (leave_cell-IsAbsent e old_cell st h at))
  ]

  -- Only the two maps of the index change.
  pub move_to_cell-only :
      (e key : ℕ) (st : LocationRegistry F)
      → (cells : List (ℕ × List ℕ)) × (at : List (ℕ × ℕ)) × (move_to_cell e key st
          ≡ record st { cell_entities = cells; entity_to_cell = at })
  unfolding enter_cell
  move_to_cell-only e key st = elim (Option-cases (lookup e st.entity_to_cell)) [
    | inl new ↦ (_, _, move_to_cell-new e key st new)
    | inr (old_cell, at) ↦ elim (Bool-cases (old_cell == key)) [
      | inl same ↦
          (st.cell_entities, st.entity_to_cell, move_to_cell-same e old_cell key st at same)
      | inr other ↦ (_, _, move_to_cell-other e old_cell key st at other)
    ]
  ]
