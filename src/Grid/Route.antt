-- ===== src/Grid/Route.antt =====
-- GridMap::FindPath: A* over the field, with a cap on its rounds, a cache of finished paths, and
-- score tables that stay between calls. A table is a function of the tile's index; `none` is the
-- parent {-1, -1}. The priority queue is the list of its nodes, and gives a node of least `f`.
pub mod Laws
pub mod Trail
pub mod Moves
pub mod Round
pub mod Loop
pub mod Trace
pub mod Reset
pub mod Examples
use mathlib.Core.Option
use mathlib.Core.List.{reverse}
use mundus_vivens_game_serve.Common.{
  ℕ, zero, suc, ◌+◌, ◌-◌, ◌*◌, ◌/◌, ◌≡◌, Bool, true, false, not, ◌&&◌, ◌||◌, Option, none, some,
  List, [], ◌∷◌, map, length, min, ltb, ◌==◌, if◌then◌else◌,
}
use mundus_vivens_game_serve.Common.Float.{Float}
use mundus_vivens_game_serve.Common.Int.{ℤ, pos, negsuc, pos_part, ◌+ℤ◌}
use mundus_vivens_game_serve.Grid.{Cell, Field, index, width, height, is_walkable, tile_of}
use mundus_vivens_game_serve.Grid.Sight.{abs_diff}

pub record Node (F : Type 0) : Type 0 where
  pub cell : Cell
  pub g : F
  pub f : F

-- The tables `g_score` and `parent`, and the indices that were written since the last reset.
pub record Scores (F : Type 0) : Type 0 where
  pub g_score : ℕ → F
  pub parent : ℕ → Option Cell
  pub visited_nodes : List ℕ

pub record Move (F : Type 0) : Type 0 where
  pub dx : ℤ
  pub dz : ℤ
  pub is_diagonal : Bool
  pub cost : F

pub record Search (F : Type 0) : Type 0 where
  pub scores : Scores F
  pub open_set : List (Node F)

pub record Best (F : Type 0) : Type 0 where
  pub cell : Cell
  pub h : F

pub record Outcome (F : Type 0) : Type 0 where
  pub found : Bool
  pub hit_cap : Bool
  pub best : Cell
  pub scores : Scores F

abbrev pub write {ℓ} : {A : Type ℓ} → (ℕ → A) → ℕ → A → ℕ → A
write table i v j = if i == j then v else table j

abbrev pub eq_cell : Cell → Cell → Bool
eq_cell (x, z) (x', z') = x == x' && z == z'

-- The walk back over the parents, for at most `fuel` tiles; `none` if it does not end by then.
pub trace : ℕ → (ℕ → Option Cell) → Cell → Option (List Cell)
trace zero parent c = none
trace (suc fuel) parent c = elim (parent (index c)) [
  | none ↦ some (c ∷ [])
  | some p ↦ Option.map (λ path. c ∷ path) (trace fuel parent p)
]

module _ (fl : Float) where
  open fl use {F, add, sub, mul, lt, le, dec, of_ℤ}

  abbrev pub unreached : F
  unreached = dec 1000000000 0

  abbrev pub straight : F
  straight = dec 1 0

  abbrev pub diagonal : F
  diagonal = dec 141421356 8

  pub heuristic : Cell → Cell → F
  heuristic (x1, z1) (x2, z2) =
      let dx = abs_diff x1 x2 in
      let dz = abs_diff z1 z2 in
      add (of_ℤ (pos (dx + dz))) (mul (sub diagonal (dec 2 0)) (of_ℤ (pos (min dx dz))))

  -- The tables are reset at the indices that the last search wrote.
  pub reset_tables : List ℕ → Scores F → Scores F
  reset_tables [] s = record s { visited_nodes = [] }
  reset_tables (i ∷ rest) s =
      reset_tables rest
        (record s { g_score = write s.g_score i unreached; parent = write s.parent i none })

  abbrev pub moves : List (Move F)
  moves =
      record { dx = negsuc 0; dz = pos 0; is_diagonal = false; cost = straight }
      ∷ record { dx = pos 1; dz = pos 0; is_diagonal = false; cost = straight }
      ∷ record { dx = pos 0; dz = negsuc 0; is_diagonal = false; cost = straight }
      ∷ record { dx = pos 0; dz = pos 1; is_diagonal = false; cost = straight }
      ∷ record { dx = negsuc 0; dz = negsuc 0; is_diagonal = true; cost = diagonal }
      ∷ record { dx = negsuc 0; dz = pos 1; is_diagonal = true; cost = diagonal }
      ∷ record { dx = pos 1; dz = negsuc 0; is_diagonal = true; cost = diagonal }
      ∷ record { dx = pos 1; dz = pos 1; is_diagonal = true; cost = diagonal }
      ∷ []

  -- `n` is reached from `curr` at the cost `tentative`: recorded if that is less than before.
  pub relax : Cell → Cell → F → Cell → Search F → Search F
  unfolding heuristic
  relax goal curr tentative n s =
      let sc = s.scores in
      let i = index n in
      if lt tentative (sc.g_score i)
      then record {
        scores = record {
          g_score = write sc.g_score i tentative;
          parent = write sc.parent i (some curr);
          visited_nodes =
              if le unreached (sc.g_score i) then i ∷ sc.visited_nodes else sc.visited_nodes;
        };
        open_set =
            record { cell = n; g = tentative; f = add tentative (heuristic n goal) } ∷ s.open_set;
      }
      else s

  -- One round of the loop over the eight directions.
  pub try_move : Field → Cell → Node F → Move F → Search F → Search F
  unfolding relax
  try_move grid goal curr mv s =
      let (x, z) = curr.cell in
      let nx = pos x +ℤ mv.dx in
      let nz = pos z +ℤ mv.dz in
      if not (is_walkable grid nx nz)
      then s
      else if mv.is_diagonal
          && (not (is_walkable grid nx (pos z)) || not (is_walkable grid (pos x) nz))
      then s
      else relax goal curr.cell (add curr.g mv.cost) (pos_part nx, pos_part nz) s

  pub try_moves : Field → Cell → Node F → List (Move F) → Search F → Search F
  unfolding try_move
  try_moves grid goal curr [] s = s
  try_moves grid goal curr (mv ∷ rest) s =
      try_moves grid goal curr rest (try_move grid goal curr mv s)

  pub least_of :
      Node F → List (Node F) → Option (Node F × List (Node F)) → Option (Node F × List (Node F))
  least_of n ns none = some (n, [])
  least_of n ns (some (m, rest)) = if lt m.f n.f then some (m, n ∷ rest) else some (n, ns)

  pub pop_min : List (Node F) → Option (Node F × List (Node F))
  unfolding least_of
  pop_min [] = none
  pop_min (n ∷ ns) = least_of n ns (pop_min ns)

  pub better : Cell → Cell → Best F → Best F
  unfolding heuristic
  better goal c b = let h = heuristic c goal in if lt h b.h then record { cell = c; h = h } else b

  -- The main loop, with the rounds that are left below the cap.
  pub search : ℕ → Field → Cell → Best F → Search F → Outcome F
  search zero grid goal b s = elim (pop_min s.open_set) [
    | none ↦ record { found = false; hit_cap = false; best = b.cell; scores = s.scores }
    | some _ ↦ record { found = false; hit_cap = true; best = b.cell; scores = s.scores }
  ]
  search (suc left) grid goal b s = elim (pop_min s.open_set) [
    | none ↦ record { found = false; hit_cap = false; best = b.cell; scores = s.scores }
    | some (curr, rest) ↦
        let popped = record s { open_set = rest } in
        let stale = search left grid goal b popped in
        let expanded =
          search left grid goal (better goal curr.cell b) (try_moves grid goal curr moves popped) in
        if eq_cell curr.cell goal
        then record { found = true; hit_cap = false; best = curr.cell; scores = s.scores }
        else if lt (s.scores.g_score (index curr.cell)) curr.g
        then stale
        else expanded
  ]
