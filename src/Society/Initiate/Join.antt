-- ===== src/Society/Initiate/Join.antt =====
-- How a group grows as others join it.
use mundus_vivens_game_serve.Common.{
  ℕ, ◌≤◌, ◌≡◌, refl, inl, inr, Bool, true, false, ◌||◌, ◌==◌, List, [], ◌∷◌, ◌++◌, if◌then◌else◌,
  arith, Bool-cases, length, leb,
}
use mundus_vivens_game_serve.Common.Dict.{nat_eq}
use mundus_vivens_game_serve.Common.Float.{Float}
use mundus_vivens_game_serve.Common.{length-append}
use mundus_vivens_game_serve.Agents.Furniture.{is_some}
use mundus_vivens_game_serve.Agents.World.{World}
use mundus_vivens_game_serve.Society.Candidates.Free.{IsCalm, is_in-append}
use mundus_vivens_game_serve.Society.Dialogue.{is_in}
use mundus_vivens_game_serve.Society.Initiate.{joins, join_all}

module _ (fl : Float) (shuffle : World fl.F → List ℕ → List ℕ) where
  open fl use {F}

  joins-IsCalm :
      (other : ℕ) (group : List ℕ) (w : World F) → IsCalm w (joins fl shuffle other group w).1
  unfolding joins
  joins-IsCalm other group w x = ground arith

  pub join_all-IsCalm :
      (i t : ℕ) (cs group : List ℕ) (w : World F) → IsCalm w (join_all fl shuffle i t group cs w).1
  unfolding join_all
  join_all-IsCalm i t [] group w x = refl
  join_all-IsCalm i t (c ∷ cs) group w x =
      let (is_in_group, asked) = joins fl shuffle c group w in
      ground (
        arith,
        joins-IsCalm c group w x,
        join_all-IsCalm i t cs group w x,
        join_all-IsCalm i t cs (if is_in_group then group ++ (c ∷ []) else group) asked x,
      )

  -- What follows from the ways in which one candidate may go.
  join_step :
      (P : List ℕ × World F → Type 0) (i t : ℕ) (group : List ℕ) (c : ℕ) (cs : List ℕ) (w : World F)
      → P (join_all fl shuffle i t group cs w)
      → P (group, w)
      → (leb 4 (length group) ≡ false
          → P (
              join_all fl shuffle i t
                (if (joins fl shuffle c group w).0 then group ++ (c ∷ []) else group)
                cs
                (joins fl shuffle c group w).1))
      → P (join_all fl shuffle i t group (c ∷ cs) w)
  unfolding join_all
  join_step P i t group c cs w skipped full answered = elim (Bool-cases (c == i || c == t)) [
    | inl pair ↦ rw (join_all, pair) skipped
    | inr other ↦ elim (Bool-cases (leb 4 (length group))) [
      | inl many ↦ rw (join_all, other, many) full
      | inr few ↦ elim (Bool-cases (is_some (w.rows c).busy)) [
        | inl busy ↦ rw (join_all, other, few, busy) skipped
        | inr free ↦ rw (join_all, other, few, free) (answered few)
      ]
    ]
  ]

  -- At least the two, and four at most.
  abbrev pub IsSized : List ℕ → Type 0
  IsSized group = (2 ≤ length group) × (length group ≤ 4)

  grown-IsSized :
      (b : Bool) (c : ℕ) (group : List ℕ)
      → IsSized group
      → leb 4 (length group) ≡ false
      → IsSized (if b then group ++ (c ∷ []) else group)
  grown-IsSized true c group sized few = ground (arith, length-append group (c ∷ []), sized, few)
  grown-IsSized false c group sized few = sized

  pub join_all-IsSized :
      (i t : ℕ) (cs group : List ℕ) (w : World F)
      → IsSized group
      → IsSized (join_all fl shuffle i t group cs w).0
  unfolding join_all
  join_all-IsSized i t [] group w sized = sized
  join_all-IsSized i t (c ∷ cs) group w sized =
      let asked = (joins fl shuffle c group w).1 in
      join_step (λ r. IsSized r.0) i t group c cs w (join_all-IsSized i t cs group w sized) sized
        (λ few.
          join_all-IsSized i t cs
            (if (joins fl shuffle c group w).0 then group ++ (c ∷ []) else group) asked
            (grown-IsSized (joins fl shuffle c group w).0 c group sized few))

  grown_member :
      (b : Bool) (c x : ℕ) (group cs : List ℕ)
      → (is_in x (if b then group ++ (c ∷ []) else group) || is_in x cs) ≡ true
      → (is_in x group || is_in x (c ∷ cs)) ≡ true
  unfolding is_in
  grown_member true c x group cs h = ground (arith, h, is_in-append x group (c ∷ []))
  grown_member false c x group cs h = ground (arith, h)

  pub join_all_members :
      (i t : ℕ) (cs group : List ℕ) (w : World F) (x : ℕ)
      → is_in x (join_all fl shuffle i t group cs w).0 ≡ true
      → (is_in x group || is_in x cs) ≡ true
  unfolding join_all is_in
  join_all_members i t [] group w x = λ h. ground (arith, h)
  join_all_members i t (c ∷ cs) group w x =
      let (is_in_group, asked) = joins fl shuffle c group w in
      join_step (λ r. is_in x r.0 ≡ true → (is_in x group || is_in x (c ∷ cs)) ≡ true) i t group c
        cs w (λ h. grown_member false c x group cs (join_all_members i t cs group w x h))
        (λ h. ground (arith, h))
        (λ few h.
          grown_member is_in_group c x group cs
            (join_all_members i t cs (if is_in_group then group ++ (c ∷ []) else group) asked x h))
