-- ===== src/Grid/Obstacles.antt =====
-- `GridMap::LoadMap` and `GetLocationCoords`. What the JSON library makes of the obstacle file is
-- the input: it may be missing, no JSON, or a list of entries, of which some lack a bound and one
-- that has a bound of the wrong type ends the loading by an exception.
pub mod Blocked
mod Tests
use Prim.Native.String.{String}
use mundus_vivens_game_serve.Common.{
  ℕ, zero, suc, ◌+◌, ◌-◌, ◌*◌, Bool, true, false, Option, none, some, List, [], ◌∷◌, leb,
  if◌then◌else◌,
}
use mundus_vivens_game_serve.Common.Dict.{Eq, string_eq, lookup, insert}
use mundus_vivens_game_serve.Common.Int.{ℤ}
use mundus_vivens_game_serve.Grid.{Field, index, width, height, clamp}
use mundus_vivens_game_serve.Grid.Route.{write}
use mundus_vivens_game_serve.Grid.Find.{GridVector2}

pub data Entry : Type 0 where
  rect : (min_x min_z max_x max_z : ℤ) → Entry
  incomplete : Entry
  ill_typed : Entry

pub data ObstacleFile : Type 0 where
  missing : ObstacleFile
  malformed : ObstacleFile
  entries : List Entry → ObstacleFile

-- The inner loop, for so many values of z from the given one.
pub block_column : ℕ → ℕ → ℕ → Field → Field
block_column x zero z grid = grid
block_column x (suc count) z grid = block_column x count (suc z) (write grid (x * height + z) false)

pub block_columns : ℕ → ℕ → ℕ → ℕ → Field → Field
block_columns min_z count_z zero x grid = grid
block_columns min_z count_z (suc count) x grid =
    block_columns min_z count_z count (suc x) (block_column x count_z min_z grid)

-- From the least to the greatest tile, both clamped to the field; none if they are swapped.
pub block_rect : ℕ → ℕ → ℕ → ℕ → Field → Field
block_rect min_x min_z max_x max_z grid =
    block_columns min_z (suc max_z - min_z) (suc max_x - min_x) min_x grid

pub load_entries : List Entry → Field → Field
load_entries [] grid = grid
load_entries (rect min_x min_z max_x max_z ∷ rest) grid = load_entries rest (
    block_rect (clamp (width - 1) min_x) (clamp (height - 1) min_z) (clamp (width - 1) max_x)
      (clamp (height - 1) max_z) grid)
load_entries (incomplete ∷ rest) grid = load_entries rest grid
load_entries (ill_typed ∷ rest) grid = grid

-- Without a file there is a wall at x = 45, for z from 30 to 70.
pub load_obstacles : ObstacleFile → Field → Field
load_obstacles missing grid = block_column 45 41 30 grid
load_obstacles malformed grid = grid
load_obstacles (entries es) grid = load_entries es grid

module _ {F : Type 0} where
  pub load_locations :
      List (String × GridVector2 F) → List (String × GridVector2 F) → List (String × GridVector2 F)
  load_locations [] coords = coords
  load_locations ((name, at) ∷ rest) coords = load_locations rest (insert name at coords)

  pub get_location_coords : String → List (String × GridVector2 F) → Option (GridVector2 F)
  get_location_coords loc_name coords = lookup loc_name coords
