-- ===== src/Grid/Route/Reset.antt =====
-- The tables between two calls, and their reset at the indices of `visited_nodes`.
use mathlib.Core.List.{Memᴰ}
use mathlib.Core.List.Memᴰ.{head, tail}
use mundus_vivens_game_serve.Common.{
  ℕ, zero, suc, ◌≡◌, refl, sym, ◌⊎◌, inl, inr, true, false, not, ◌&&◌, ◌||◌, none, List, [], ◌∷◌,
  Bool-cases, ◌==◌, ==_iff,
}
use mundus_vivens_game_serve.Common.Float.{Float}
use mundus_vivens_game_serve.Common.Int.{pos, pos_part, ◌+ℤ◌}
use mundus_vivens_game_serve.Grid.{Cell, Field, index, is_walkable}
use mundus_vivens_game_serve.Grid.Route.Moves.{Popped-cases}
use mundus_vivens_game_serve.Grid.Route.{
  Node, Scores, Move, Search, Best, eq_cell, unreached, relax, try_move, try_moves, moves, pop_min,
  better, search, reset_tables,
}

module _ (fl : Float) where
  open fl use {F}

  abbrev pub IsFresh : Scores F → ℕ → Type 0
  IsFresh sc i = (sc.g_score i ≡ unreached fl) × (sc.parent i ≡ none)

  abbrev pub IsTracked : Scores F → Type 0
  IsTracked sc = (i : ℕ) → Memᴰ i sc.visited_nodes ⊎ IsFresh sc i

  reset_tables-keeps :
      (xs : List ℕ) (sc : Scores F) (i : ℕ) → IsFresh sc i → IsFresh (reset_tables fl xs sc) i
  unfolding reset_tables
  reset_tables-keeps [] sc i h = h
  reset_tables-keeps (x ∷ xs) sc i h =
      reset_tables-keeps xs _ i
        (elim (Bool-cases (x == i)) [ inl e ↦ rw e (refl, refl) | inr e ↦ rw e h ])

  reset_tables-clears :
      (xs : List ℕ) (sc : Scores F) (i : ℕ) → Memᴰ i xs → IsFresh (reset_tables fl xs sc) i
  unfolding reset_tables
  reset_tables-clears [] sc i m = elim m [ ]
  reset_tables-clears (x ∷ xs) sc i (head e) =
      let same : (x == i) ≡ true = (==_iff x i).1 (sym e) in
      reset_tables-keeps xs _ i (rw same (refl, refl))
  reset_tables-clears (x ∷ xs) sc i (tail m) = reset_tables-clears xs _ i m

  pub reset_tables-IsFresh :
      (sc : Scores F) (i : ℕ) → IsTracked sc → IsFresh (reset_tables fl sc.visited_nodes sc) i
  reset_tables-IsFresh sc i h = elim (h i) [
    | inl m ↦ reset_tables-clears sc.visited_nodes sc i m
    | inr f ↦ reset_tables-keeps sc.visited_nodes sc i f
  ]

module _ (fl : Float) (unreached_le : fl.le (unreached fl) (unreached fl) ≡ true) where
  open fl use {F, lt, le, add}

  relax-IsTracked :
      (goal curr : Cell) (tentative : F) (n : Cell) (s : Search F)
      → IsTracked fl s.scores
      → IsTracked fl (relax fl goal curr tentative n s).scores
  unfolding relax
  relax-IsTracked goal curr tentative n s h i =
      elim (Bool-cases (lt tentative (s.scores.g_score (index n)))) [
        | inr kept ↦ rw kept (h i)
        | inl e ↦ elim (Bool-cases (le (unreached fl) (s.scores.g_score (index n)))) [
          | inl first ↦ elim (Bool-cases (index n == i)) [
            | inl at ↦ rw (e, first) (inl (head (sym ((==_iff (index n) i).0 at))))
            | inr off ↦ elim (h i) [
              | inl m ↦ rw (e, first) (inl (tail m))
              | inr f ↦ rw (e, first, off) (inr f)
            ]
          ]
          | inr again ↦ elim (h i) [
            | inl m ↦ rw (e, again) (inl m)
            | inr f ↦ elim (Bool-cases (index n == i)) [
              | inl at ↦
                  let same : index n ≡ i = (==_iff (index n) i).0 at in
                  let open_score : le (unreached fl) (unreached fl) ≡ false =
                    rw (same, f.0) at again in
                  cc (open_score, unreached_le)
              | inr off ↦ rw (e, again, off) (inr f)
            ]
          ]
        ]
      ]

  try_move-IsTracked :
      (grid : Field) (goal : Cell) (curr : Node F) (mv : Move F) (s : Search F)
      → IsTracked fl s.scores
      → IsTracked fl (try_move fl grid goal curr mv s).scores
  unfolding try_move
  try_move-IsTracked grid goal curr mv s h =
      let (cx, cz) = curr.cell in
      let nx = pos cx +ℤ mv.dx in
      let nz = pos cz +ℤ mv.dz in
      elim (Bool-cases (is_walkable grid nx nz)) [
        | inr e ↦ rw e h
        | inl e ↦
            elim (Bool-cases (
              mv.is_diagonal
              && (not (is_walkable grid nx (pos cz)) || not (is_walkable grid (pos cx) nz)))) [
                | inl cut ↦ rw (e, cut) h
                | inr clear ↦
                    rw (e, clear)
                      (relax-IsTracked goal curr.cell (add curr.g mv.cost)
                        (pos_part nx, pos_part nz) s h)
              ]
      ]

  try_moves-IsTracked :
      (grid : Field) (goal : Cell) (curr : Node F) (mvs : List (Move F)) (s : Search F)
      → IsTracked fl s.scores
      → IsTracked fl (try_moves fl grid goal curr mvs s).scores
  unfolding try_moves
  try_moves-IsTracked grid goal curr [] s h = h
  try_moves-IsTracked grid goal curr (mv ∷ rest) s h =
      try_moves-IsTracked grid goal curr rest (try_move fl grid goal curr mv s)
        (try_move-IsTracked grid goal curr mv s h)

  pub search-IsTracked :
      (left : ℕ) (grid : Field) (goal : Cell) (b : Best F) (s : Search F)
      → IsTracked fl s.scores
      → IsTracked fl (search fl left grid goal b s).scores
  unfolding search
  search-IsTracked zero grid goal b s h = elim (Popped-cases (pop_min fl s.open_set)) [
    | inl e ↦ rw (e, search) h
    | inr (curr, rest, e) ↦ rw (e, search) h
  ]
  search-IsTracked (suc left) grid goal b s h = elim (Popped-cases (pop_min fl s.open_set)) [
    | inl e ↦ rw (e, search) h
    | inr (curr, rest, e) ↦ elim (Bool-cases (eq_cell curr.cell goal)) [
      | inl found ↦ rw (e, search, found) h
      | inr going ↦ elim (Bool-cases (lt (s.scores.g_score (index curr.cell)) curr.g)) [
        | inl stale ↦
            rw (e, search, going, stale)
              (search-IsTracked left grid goal b (record s { open_set = rest }) h)
        | inr fresh ↦
            rw (e, search, going, fresh)
              (search-IsTracked left grid goal (better fl goal curr.cell b)
                (try_moves fl grid goal curr (moves fl) (record s { open_set = rest }))
                (try_moves-IsTracked grid goal curr (moves fl) (record s { open_set = rest }) h))
      ]
    ]
  ]
