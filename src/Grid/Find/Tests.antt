-- ===== src/Grid/Find/Tests.antt =====
-- Runs of `FindPath` on a field with a wall.
use mundus_vivens_game_serve.Common.{ℕ, refl, inr, none, [], arith}
use mundus_vivens_game_serve.Common.Fixed.{fixed}
use mundus_vivens_game_serve.Grid.{tile_of}
use mundus_vivens_game_serve.Grid.Route.{unreached}
use mundus_vivens_game_serve.Grid.Route.Examples.{fixed_laws, walled}
use mundus_vivens_game_serve.Grid.Find.{Finder, find_path}
use mundus_vivens_game_serve.Grid.Find.Cache.{IsSound}
use mundus_vivens_game_serve.Grid.Find.Answer.{Answered, run, find_path-Answered}

abbrev new_finder : Finder ℕ
new_finder = record {
  scores = record { g_score = λ i. unreached fixed; parent = λ i. none; visited_nodes = [] };
  path_cache = [];
}

new_finder-IsSound : IsSound fixed walled new_finder
new_finder-IsSound = record {
  tracked = λ i. inr (refl, refl);
  honest = λ key entry e. absurd (ground arith);
}

find_path-Answered_example :
    Answered fixed walled fixed_laws
      (run fixed walled 100 new_finder.scores
        (tile_of fixed 100000000 0)
        (tile_of fixed 300000000 0))
      (tile_of fixed 100000000 0)
      (tile_of fixed 300000000 0)
      (find_path fixed walled 100000000 0 300000000 0 100 new_finder)
find_path-Answered_example =
    find_path-Answered fixed walled fixed_laws 100000000 0 300000000 0 100 new_finder (omega arith)
      new_finder-IsSound
