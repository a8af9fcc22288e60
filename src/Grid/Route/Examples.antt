-- ===== src/Grid/Route/Examples.antt =====
-- A field with a wall, a run of the search on it, and the laws of the numbers that the run computes
-- with.
use mundus_vivens_game_serve.Common.{
  ℕ, ◌≡◌, refl, true, not, ◌&&◌, none, some, [], ◌∷◌, arith, ◌==◌, if◌then◌else◌,
}
use mundus_vivens_game_serve.Common.Fixed.{fixed}
use mundus_vivens_game_serve.Grid.{Field, is_walkable}
use mundus_vivens_game_serve.Common.Int.{◌+ℤ◌}
use mundus_vivens_game_serve.Grid.Route.{
  Outcome, heuristic, search, relax, try_move, try_moves, least_of, pop_min, better, unreached,
  trace,
}
use mundus_vivens_game_serve.Grid.Route.Laws.{FloatLaws}

pub fixed_laws : FloatLaws fixed
fixed_laws = record {
  IsNumber = λ a. Unit;
  dec-IsNumber = λ n k. tt;
  add-IsNumber = λ a n k h. tt;
  le_refl = λ a h. ground arith;
  lt_irrefl = λ a h. ground arith;
  lt_trans = λ a b c ha hb hc h k. ground arith;
  lt_of_not_lt = λ a b c ha hb hc h k. ground arith;
  straight_grows = λ n g h few. ground arith;
  diagonal_grows = λ n g h few. ground arith;
}

-- A wall at x = 2 from z = 0 to z = 1.
abbrev pub walled : Field
walled i = not (i == 4000) && not (i == 4001)

abbrev around : Outcome ℕ
around =
    search fixed 100 walled (3, 0) (record { cell = (1, 0); h = 200000000 })
      (record {
        scores = record {
          g_score = λ i. if i == 2000 then 0 else unreached fixed;
          parent = λ i. none;
          visited_nodes = 2000 ∷ [];
        };
        open_set = record { cell = (1, 0); g = 0; f = 200000000 } ∷ [];
      })

around-found : around.found ≡ true
unfolding search relax try_move try_moves least_of pop_min better heuristic is_walkable ◌+ℤ◌
around-found = refl

around-trace :
    trace 10 around.scores.parent (3, 0)
    ≡ some ((3, 0) ∷ (3, 1) ∷ (3, 2) ∷ (2, 2) ∷ (1, 2) ∷ (1, 1) ∷ (1, 0) ∷ [])
unfolding search relax try_move try_moves least_of pop_min better heuristic trace is_walkable ◌+ℤ◌
around-trace = refl
