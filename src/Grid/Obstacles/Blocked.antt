-- ===== src/Grid/Obstacles/Blocked.antt =====
-- Which tiles the obstacles block.
use mundus_vivens_game_serve.Common.{
  ℕ, zero, suc, ◌+◌, ◌-◌, ◌*◌, ◌≤◌, ◌<◌, ◌≡◌, refl, sym, ◌∙◌, inl, inr, Bool, true, false, not,
  ◌&&◌, ◌||◌, List, [], ◌∷◌, leb, ltb, ◌==◌, arith, Bool-cases,
}
use mundus_vivens_game_serve.Common.Int.{ℤ}
use mundus_vivens_game_serve.Grid.{Field, clamp, clamp-lt}
use mundus_vivens_game_serve.Grid.Route.{write}
use mundus_vivens_game_serve.Grid.Obstacles.{
  Entry, rect, incomplete, ill_typed, ObstacleFile, missing, malformed, entries, block_column,
  block_columns, block_rect, load_entries, load_obstacles,
}

-- Whether z is one of so many values from the given one.
abbrev in_run : ℕ → ℕ → ℕ → Bool
in_run first count z = leb first z && ltb z (first + count)

and_on : (g : Bool) → (g && true) ≡ g
and_on true = refl
and_on false = refl

off_and : (g : Bool) → false ≡ (g && false)
off_and true = refl
off_and false = refl

write_at :
    (grid : Field) (x z x' z' : ℕ)
    → z < 2000
    → z' < 2000
    → write grid (x * 2000 + z) false (x' * 2000 + z')
      ≡ (grid (x' * 2000 + z') && not (x == x' && z == z'))
write_at grid x z x' z' h h' = elim (Bool-cases (x * 2000 + z == x' * 2000 + z')) [
  | inl e ↦
      let same_x : (x == x') ≡ true = ground arith in
      let same_z : (z == z') ≡ true = ground arith in
      rw (e, same_x, same_z) (off_and (grid (x' * 2000 + z')))
  | inr e ↦
      let apart : (x == x' && z == z') ≡ false = ground arith in
      rw (e, apart) (sym (and_on (grid (x' * 2000 + z'))))
]

no_run : (g : Bool) (x x' z z' : ℕ) → g ≡ (g && not (x == x' && in_run z 0 z'))
no_run g x x' z z' = ground arith

longer_run :
    (g : Bool) (x x' z z' count : ℕ)
    → (g && not (x == x' && z == z') && not (x == x' && in_run (suc z) count z'))
      ≡ (g && not (x == x' && in_run z (suc count) z'))
longer_run g x x' z z' count = ground arith

block_column-at :
    (x count z : ℕ) (grid : Field) (x' z' : ℕ)
    → z + count ≤ 2000
    → z' < 2000
    → block_column x count z grid (x' * 2000 + z')
      ≡ (grid (x' * 2000 + z') && not (x == x' && in_run z count z'))
unfolding block_column
block_column-at x zero z grid x' z' h h' = no_run (grid (x' * 2000 + z')) x x' z z'
block_column-at x (suc count) z grid x' z' h h' =
    block_column-at x count (suc z) (write grid (x * 2000 + z) false) x' z' (omega arith) h'
    ∙ rw (write_at grid x z x' z' (omega arith) h')
        (longer_run (grid (x' * 2000 + z')) x x' z z' count)

no_columns :
    (g : Bool) (x x' min_z count_z z' : ℕ)
    → g ≡ (g && not (in_run x 0 x' && in_run min_z count_z z'))
no_columns g x x' min_z count_z z' = ground arith

more_columns :
    (g row : Bool) (x x' count : ℕ)
    → (g && not (x == x' && row) && not (in_run (suc x) count x' && row))
      ≡ (g && not (in_run x (suc count) x' && row))
more_columns g row x x' count = ground arith

block_columns-at :
    (min_z count_z count x : ℕ) (grid : Field) (x' z' : ℕ)
    → min_z + count_z ≤ 2000
    → z' < 2000
    → block_columns min_z count_z count x grid (x' * 2000 + z')
      ≡ (grid (x' * 2000 + z') && not (in_run x count x' && in_run min_z count_z z'))
unfolding block_columns
block_columns-at min_z count_z zero x grid x' z' h h' =
    no_columns (grid (x' * 2000 + z')) x x' min_z count_z z'
block_columns-at min_z count_z (suc count) x grid x' z' h h' =
    block_columns-at min_z count_z count (suc x) (block_column x count_z min_z grid) x' z' h h'
    ∙ rw (block_column-at x count_z min_z grid x' z' h h')
        (more_columns (grid (x' * 2000 + z')) (in_run min_z count_z z') x x' count)

-- Whether the tile lies between the bounds, which are clamped to the field.
abbrev pub covers : ℤ → ℤ → ℤ → ℤ → ℕ → ℕ → Bool
covers min_x min_z max_x max_z x z =
    leb (clamp 1999 min_x) x
    && leb x (clamp 1999 max_x)
    && (leb (clamp 1999 min_z) z && leb z (clamp 1999 max_z))

-- Whether one of the entries before the first one of a wrong type covers the tile.
pub covered : List Entry → ℕ → ℕ → Bool
covered [] x z = false
covered (rect min_x min_z max_x max_z ∷ rest) x z =
    covers min_x min_z max_x max_z x z || covered rest x z
covered (incomplete ∷ rest) x z = covered rest x z
covered (ill_typed ∷ rest) x z = false

run_between : (lo hi x : ℕ) → in_run lo (suc hi - lo) x ≡ (leb lo x && leb x hi)
run_between lo hi x = ground arith

block_rect-at :
    (min_x min_z max_x max_z : ℕ) (grid : Field) (x z : ℕ)
    → min_z < 2000
    → max_z < 2000
    → z < 2000
    → block_rect min_x min_z max_x max_z grid (x * 2000 + z)
      ≡ (grid (x * 2000 + z) && not (leb min_x x && leb x max_x && (leb min_z z && leb z max_z)))
unfolding block_rect
block_rect-at min_x min_z max_x max_z grid x z h k low =
    block_columns-at min_z (suc max_z - min_z) (suc max_x - min_x) min_x grid x z (omega arith) low
    ∙ rw (run_between min_x max_x x, run_between min_z max_z z)

two_covers : (g a b : Bool) → (g && not a && not b) ≡ (g && not (a || b))
two_covers true true b = refl
two_covers true false b = refl
two_covers false a b = refl

load_entries-covered :
    (es : List Entry) (grid : Field) (x z : ℕ)
    → z < 2000
    → load_entries es grid (x * 2000 + z) ≡ (grid (x * 2000 + z) && not (covered es x z))
unfolding load_entries covered
load_entries-covered [] grid x z low = sym (and_on (grid (x * 2000 + z)))
load_entries-covered (rect min_x min_z max_x max_z ∷ rest) grid x z low =
    load_entries-covered rest _ x z low
    ∙ rw
        (block_rect-at (clamp 1999 min_x) (clamp 1999 min_z) (clamp 1999 max_x) (clamp 1999 max_z)
          grid x z (clamp-lt 1999 min_z) (clamp-lt 1999 max_z) low)
        (two_covers (grid (x * 2000 + z)) (covers min_x min_z max_x max_z x z) (covered rest x z))
load_entries-covered (incomplete ∷ rest) grid x z low = load_entries-covered rest grid x z low
load_entries-covered (ill_typed ∷ rest) grid x z low = sym (and_on (grid (x * 2000 + z)))

wall_end :
    (g : Bool) (x z : ℕ)
    → (g && not (45 == x && in_run 30 41 z)) ≡ (g && not (45 == x && (leb 30 z && leb z 70)))
wall_end g x z = ground arith

-- The tiles that a file blocks: the wall, none, or those that its entries cover.
pub blocked_by : ObstacleFile → ℕ → ℕ → Bool
blocked_by missing x z = 45 == x && (leb 30 z && leb z 70)
blocked_by malformed x z = false
blocked_by (entries es) x z = covered es x z

-- After the obstacles are loaded, a tile of the field is walkable just if it was before and the file
-- does not block it: without a file the tiles (45, 30) to (45, 70), for a malformed file none, and
-- else those that one of its entries covers, up to the first entry of a wrong type.
pub load_obstacles-blocked_by :
    (file : ObstacleFile) (grid : Field) (x z : ℕ)
    → z < 2000
    → load_obstacles file grid (x * 2000 + z) ≡ (grid (x * 2000 + z) && not (blocked_by file x z))
unfolding load_obstacles blocked_by
load_obstacles-blocked_by missing grid x z low =
    block_column-at 45 41 30 grid x z (omega arith) low ∙ wall_end (grid (x * 2000 + z)) x z
load_obstacles-blocked_by malformed grid x z low = sym (and_on (grid (x * 2000 + z)))
load_obstacles-blocked_by (entries es) grid x z low = load_entries-covered es grid x z low
