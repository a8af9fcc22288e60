-- ===== src/Grid/Obstacles/Tests.antt =====
-- A file with one rectangle that reaches out of the field.
use mundus_vivens_game_serve.Common.{◌+◌, ◌*◌, ◌≡◌, refl, true, false, not, ◌&&◌, [], ◌∷◌, arith}
use mundus_vivens_game_serve.Common.Int.{pos, negsuc}
use mundus_vivens_game_serve.Grid.{Field, clamp}
use mundus_vivens_game_serve.Grid.Obstacles.{
  ObstacleFile, entries, rect, ill_typed, load_obstacles, load_entries, block_rect, block_columns,
  block_column,
}
use mundus_vivens_game_serve.Grid.Obstacles.Blocked.{blocked_by, load_obstacles-blocked_by}

abbrev corner : ObstacleFile
corner = entries (rect (negsuc 4) (pos 0) (pos 1) (pos 1) ∷ ill_typed ∷ [])

abbrev all_open : Field
all_open i = true

corner_blocked : load_obstacles corner all_open (1 * 2000 + 1) ≡ false
unfolding load_obstacles load_entries block_rect block_columns block_column clamp
corner_blocked = refl

load_obstacles-blocked_by_example :
    load_obstacles corner all_open (1 * 2000 + 1)
    ≡ (all_open (1 * 2000 + 1) && not (blocked_by corner 1 1))
load_obstacles-blocked_by_example = load_obstacles-blocked_by corner all_open 1 1 (omega arith)
