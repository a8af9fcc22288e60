-- ===== src/Grid/Sight/Tests.antt =====
-- Lines of sight on a field with one blocked tile, (1, 0).
use mundus_vivens_game_serve.Common.{◌≡◌, refl, true, false, not, some, ◌==◌}
use mundus_vivens_game_serve.Common.Int.{◌+ℤ◌, ◌-ℤ◌, ◌*ℤ◌}
use mundus_vivens_game_serve.Grid.{Field, is_walkable}
use mundus_vivens_game_serve.Grid.Sight.{is_line_blocked, walk, walk_step}
use mundus_vivens_game_serve.Grid.Sight.Verdict.{Judges, is_line_blocked-Judges}

abbrev one_blocked : Field
one_blocked i = not (i == 2000)

sees_past : is_line_blocked one_blocked (0, 0) (1, 2) ≡ some false
unfolding is_line_blocked walk walk_step is_walkable ◌+ℤ◌ ◌-ℤ◌ ◌*ℤ◌
sees_past = refl

sees_not : is_line_blocked one_blocked (2, 0) (0, 0) ≡ some true
unfolding is_line_blocked walk walk_step is_walkable ◌+ℤ◌ ◌-ℤ◌ ◌*ℤ◌
sees_not = refl

is_line_blocked-Judges_example :
    Judges one_blocked (2, 0) (0, 0) (is_line_blocked one_blocked (2, 0) (0, 0))
is_line_blocked-Judges_example = is_line_blocked-Judges one_blocked (2, 0) (0, 0)
