-- ===== src/Places/History.antt =====
-- The spatial index after any history of calls.
use mundus_vivens_game_serve.Common.{
  ℕ, ◌≡◌, ap, ◌∙◌, inl, inr, true, Option, none, some, List, [], ◌∷◌, ◌==◌, ==_iff, if◌then◌else◌,
  Bool-cases, Option-cases,
}
use mundus_vivens_game_serve.Common.Dict.{lookup, lookup-insert, lookup-erase, nat_eq}
use mundus_vivens_game_serve.Places.{
  LocationRegistry, cell, enter_cell, leave_cell, move_to_cell, remove_entity,
}
use mundus_vivens_game_serve.Places.Cells.{
  occurrences, is_at, IsIndexed, move_to_cell-IsIndexed, remove_entity-IsIndexed, move_to_cell-new,
  move_to_cell-same, move_to_cell-other, remove_entity-unknown, remove_entity-known,
}

-- The calls that change the index.
pub data Move : Type 0 where
  move : ℕ → ℕ → Move
  remove : ℕ → Move

-- Where the calls leave the entity.
abbrev pub last_cell : ℕ → List Move → Option ℕ → Option ℕ
last_cell e [] k = k
last_cell e (move d key ∷ ms) k = last_cell e ms (if d == e then some key else k)
last_cell e (remove d ∷ ms) k = last_cell e ms (if d == e then none else k)

unmoved :
    (e d old_cell new_cell : ℕ) (at : Option ℕ)
    → (e ≡ d → at ≡ some old_cell)
    → (old_cell == new_cell) ≡ true
    → at ≡ (if e == d then some new_cell else at)
unmoved e d old_cell new_cell at here same =
    let one : old_cell ≡ new_cell = (==_iff old_cell new_cell).0 same in
    elim (Bool-cases (e == d)) [
      | inl is ↦ rw is (here ((==_iff e d).0 is) ∙ ap some one)
      | inr other ↦ rw other
    ]

unlisted : (e d : ℕ) (at : Option ℕ) → (e ≡ d → at ≡ none) → at ≡ (if e == d then none else at)
unlisted e d at here = elim (Bool-cases (e == d)) [
  | inl is ↦ rw is (here ((==_iff e d).0 is))
  | inr other ↦ rw other
]

module _ {F : Type 0} where
  abbrev pub apply_move : Move → LocationRegistry F → LocationRegistry F
  apply_move (move e key) st = move_to_cell e key st
  apply_move (remove e) st = remove_entity e st

  abbrev pub apply_moves : List Move → LocationRegistry F → LocationRegistry F
  apply_moves [] st = st
  apply_moves (m ∷ ms) st = apply_moves ms (apply_move m st)

  entered_at :
      (e d key : ℕ) (st : LocationRegistry F)
      → lookup d (enter_cell e key st).entity_to_cell
        ≡ (if e == d then some key else lookup d st.entity_to_cell)
  unfolding enter_cell
  entered_at e d key st = lookup-insert e d key st.entity_to_cell

  pub moved_at :
      (e d key : ℕ) (st : LocationRegistry F)
      → lookup d (move_to_cell e key st).entity_to_cell
        ≡ (if e == d then some key else lookup d st.entity_to_cell)
  moved_at e d key st = elim (Option-cases (lookup e st.entity_to_cell)) [
    | inl new ↦
        ap (λ s. lookup d s.entity_to_cell) (move_to_cell-new e key st new) ∙ entered_at e d key st
    | inr (old_cell, at) ↦ elim (Bool-cases (old_cell == key)) [
      | inl same ↦
          ap (λ s. lookup d s.entity_to_cell) (move_to_cell-same e old_cell key st at same)
          ∙ unmoved e d old_cell key _ (λ is. rw is at at) same
      | inr other ↦
          ap (λ s. lookup d s.entity_to_cell) (move_to_cell-other e old_cell key st at other)
          ∙ entered_at e d key (leave_cell e old_cell st)
    ]
  ]

  removed_at :
      (e d : ℕ) (st : LocationRegistry F)
      → lookup d (remove_entity e st).entity_to_cell
        ≡ (if e == d then none else lookup d st.entity_to_cell)
  removed_at e d st = elim (Option-cases (lookup e st.entity_to_cell)) [
    | inl unknown ↦
        ap (λ s. lookup d s.entity_to_cell) (remove_entity-unknown e st unknown)
        ∙ unlisted e d _ (λ is. rw is at unknown)
    | inr (old_cell, at) ↦
        ap (λ s. lookup d s.entity_to_cell) (remove_entity-known e old_cell st at)
        ∙ lookup-erase e d st.entity_to_cell
  ]

  -- After any calls that move and remove entities, from an index that is right, each cell lists
  -- an entity once if the last call for that entity put it there, or there was no such call and it
  -- was there before, and otherwise not at all.
  pub cell-apply_moves :
      (ms : List Move) (st : LocationRegistry F) (e key : ℕ)
      → IsIndexed st
      → occurrences e (cell key (apply_moves ms st))
        ≡ is_at key (last_cell e ms (lookup e st.entity_to_cell))
  cell-apply_moves [] st e key h = h e key
  cell-apply_moves (move d k ∷ ms) st e key h =
      cell-apply_moves ms (move_to_cell d k st) e key (move_to_cell-IsIndexed d k st h)
      ∙ ap (λ at. is_at key (last_cell e ms at)) (moved_at d e k st)
  cell-apply_moves (remove d ∷ ms) st e key h =
      cell-apply_moves ms (remove_entity d st) e key (remove_entity-IsIndexed d st h)
      ∙ ap (λ at. is_at key (last_cell e ms at)) (removed_at d e st)
