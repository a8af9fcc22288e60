-- ===== src/Grid/Find.antt =====
-- `GridMap::FindPath` around its search, with the state that stays between calls: the score tables
-- and the cache of finished paths, keyed by the 8x8 buckets of both ends. The list is the map's
-- content; only its size and its lookups are used.
pub mod Cache
pub mod Answer
mod Tests
use mathlib.Core.List.{reverse}
use mundus_vivens_game_serve.Common.{
  ℕ, zero, suc, ◌+◌, ◌-◌, ◌*◌, ◌/◌, ◌≡◌, ◌↔◌, ap, arith, Bool, true, false, not, ◌&&◌, ◌||◌, Option,
  none, some, List, [], ◌∷◌, map, length, ltb, ◌==◌, if◌then◌else◌,
}
use mundus_vivens_game_serve.Common.Dict.{Eq, lookup, insert}
use mundus_vivens_game_serve.Common.Float.{Float}
use mundus_vivens_game_serve.Common.Int.{ℤ, pos}
use mundus_vivens_game_serve.Grid.{Cell, Field, index, width, height, is_walkable, tile_of}
use mundus_vivens_game_serve.Grid.Sight.{is_line_blocked}
use mundus_vivens_game_serve.Grid.Route.{
  Node, Scores, Search, Best, Outcome, write, eq_cell, trace, unreached, heuristic, reset_tables,
  search,
}

pub record GridVector2 (F : Type 0) : Type 0 where
  pub x : F
  pub z : F

pub record PathResult (F : Type 0) : Type 0 where
  pub waypoints : List (GridVector2 F)
  pub is_partial : Bool
  pub is_failed : Bool

-- (sx_bucket, sz_bucket) and (ex_bucket, ez_bucket).
abbrev pub PathCacheKey : Type 0
PathCacheKey = Cell × Cell

abbrev pub eq_key : PathCacheKey → PathCacheKey → Bool
eq_key (a, b) (c, d) = eq_cell a c && eq_cell b d

-- `PathCacheKey` of two tiles.
abbrev pub bucket : Cell → Cell
bucket (x, z) = (x / 8, z / 8)

abbrev pub cache_key : Cell → Cell → PathCacheKey
cache_key a b = (bucket a, bucket b)

pub record PathCacheEntry (F : Type 0) : Type 0 where
  pub waypoints : List (GridVector2 F)
  pub tick_computed : ℕ

pub record Finder (F : Type 0) : Type 0 where
  pub scores : Scores F
  pub path_cache : List (PathCacheKey × PathCacheEntry F)

pub eq_key_iff : (a b : PathCacheKey) → (eq_key a b ≡ true) ↔ (a ≡ b)
eq_key_iff ((x, z), (x2, z2)) ((y, w), (y2, w2)) = (
  (λ h.
      let e1 : x ≡ y = ground arith in
      let e2 : z ≡ w = ground arith in
      let e3 : x2 ≡ y2 = ground arith in
      let e4 : z2 ≡ w2 = ground arith in λ i. ((e1 i, e2 i), (e3 i, e4 i))),
  (λ h.
      let e1 : x ≡ y = ap (λ k. k.0.0) h in
      let e2 : z ≡ w = ap (λ k. k.0.1) h in
      let e3 : x2 ≡ y2 = ap (λ k. k.1.0) h in let e4 : z2 ≡ w2 = ap (λ k. k.1.1) h in ground arith),
)

instance abbrev pub key_eq : Eq PathCacheKey
key_eq = record { beq = eq_key; beq_iff = eq_key_iff }

-- What a lookup in the cache is used for: an entry without waypoints counts as missing.
pub usable : {F : Type 0} → Option (PathCacheEntry F) → Option (List (GridVector2 F))
usable none = none
usable (some entry) = if length entry.waypoints == 0 then none else some entry.waypoints

module _ (fl : Float) where
  open fl use {F, dec, of_ℤ}

  abbrev pub waypoint : Cell → GridVector2 F
  waypoint (x, z) = record { x = of_ℤ (pos x); z = of_ℤ (pos z) }

  abbrev pub failed : PathResult F
  failed = record { waypoints = []; is_partial = false; is_failed = true }

  abbrev pub complete : List (GridVector2 F) → PathResult F
  complete ws = record { waypoints = ws; is_partial = false; is_failed = false }

  -- The score tables and the queue before the first round.
  pub begin_search : Cell → Cell → Scores F → Search F
  begin_search start goal before =
      let fresh = reset_tables fl before.visited_nodes before in
      record {
        scores = record {
          g_score = write fresh.g_score (index start) (dec 0 0);
          parent = fresh.parent;
          visited_nodes = index start ∷ fresh.visited_nodes;
        };
        open_set = record { cell = start; g = dec 0 0; f = heuristic fl start goal } ∷ [];
      }

  -- A finished path goes to the cache, which is emptied first if it has more than 500.
  pub remember :
      PathCacheKey
      → List (GridVector2 F)
      → List (PathCacheKey × PathCacheEntry F)
      → List (PathCacheKey × PathCacheEntry F)
  remember key ws cache =
      insert key (record { waypoints = ws; tick_computed = 0 })
        (if ltb 500 (length cache) then [] else cache)

  -- The walk back from the goal, or from the best tile, and the result made of it.
  pub finish :
      Cell
      → Cell
      → List (PathCacheKey × PathCacheEntry F)
      → Outcome F
      → Option (PathResult F × Finder F)
  finish start goal cache o =
      let target = if o.found then goal else o.best in
      if eq_cell target start
      then some (failed, record { scores = o.scores; path_cache = cache })
      else elim (trace (width * height) o.scores.parent target) [
        | none ↦ none
        | some rev_path ↦
            let ws = map waypoint (reverse rev_path) in
            some (
              record { waypoints = ws; is_partial = o.hit_cap && not o.found; is_failed = false },
              record {
                scores = o.scores;
                path_cache =
                    if o.found && not (length ws == 0)
                    then remember (cache_key start goal) ws cache
                    else cache;
              },
            )
      ]

  -- `none` is a walk back that does not end.
  pub find_path : Field → F → F → F → F → ℕ → Finder F → Option (PathResult F × Finder F)
  find_path grid start_x start_z end_x end_z max_iterations st =
      let start = tile_of fl start_x start_z in
      let goal = tile_of fl end_x end_z in
      if eq_cell start goal
      then some (complete (waypoint goal ∷ []), st)
      else if not (is_walkable grid (pos goal.0) (pos goal.1))
      then some (failed, st)
      else elim (usable (lookup (cache_key start goal) st.path_cache)) [
        | some ws ↦ some (complete ws, st)
        | none ↦ finish start goal st.path_cache (
            search fl max_iterations grid goal
              (record { cell = start; h = heuristic fl start goal })
              (begin_search start goal st.scores))
      ]

  -- `IsPathBlocked`.
  pub is_path_blocked : Field → F → F → F → F → Option Bool
  is_path_blocked grid x1 z1 x2 z2 = is_line_blocked grid (tile_of fl x1 z1) (tile_of fl x2 z2)
