-- ===== src/Grid/Find/Answer.antt =====
-- The contract of `FindPath`: what its results are, and the state between two calls.
use mathlib.Core.List.{reverse}
use mathlib.Core.List.Memᴰ.{head}
use mundus_vivens_game_serve.Common.{
  ℕ, ◌≤◌, ◌≡◌, ◌≢◌, inl, inr, refl, sym, ◌∙◌, ap, arith, true, false, not, ◌&&◌, Option, some, List,
  [], ◌∷◌, map, length, ◌==◌, ==_iff, if◌then◌else◌, Bool-cases, Option-cases,
}
use mundus_vivens_game_serve.Common.Dict.{lookup}
use mundus_vivens_game_serve.Common.Float.{Float}
use mundus_vivens_game_serve.Common.Int.{pos}
use mundus_vivens_game_serve.Grid.{
  Cell, Field, InField, index, is_walkable, tile_of, tile_of-InField,
}
use mundus_vivens_game_serve.Grid.Route.{
  Scores, Outcome, eq_cell, unreached, heuristic, reset_tables, search,
}
use mundus_vivens_game_serve.Grid.Route.Laws.{FloatLaws, nothing, max_moves}
use mundus_vivens_game_serve.Grid.Route.Trail.{Trail, root}
use mundus_vivens_game_serve.Grid.Route.Round.{Inv}
use mundus_vivens_game_serve.Grid.Route.Loop.{Arrives, search-Arrives, eq_cell→≡}
use mundus_vivens_game_serve.Grid.Route.Trace.{IsRoute, trace-IsRoute}
use mundus_vivens_game_serve.Grid.Route.Reset.{
  IsTracked, IsFresh, reset_tables-IsFresh, search-IsTracked,
}
use mundus_vivens_game_serve.Grid.Find.{
  PathResult, Finder, GridVector2, usable, waypoint, failed, complete, begin_search, remember,
  finish, find_path, cache_key, key_eq,
}
use mundus_vivens_game_serve.Grid.Find.Cache.{
  Remembered, IsSound, usable-Remembered, remember-honest,
}

module _ (fl : Float) (grid : Field) where
  open fl use {F, dec}

  -- The search that a call without a usable cache entry makes.
  abbrev pub run : ℕ → Scores F → Cell → Cell → Outcome F
  run max_iterations before start goal =
      search fl max_iterations grid goal (record { cell = start; h = heuristic fl start goal })
        (begin_search fl start goal before)

  -- The results for two tiles, where `o` is what the search that is not saved by the cache returns.
  pub data Answer (o : Outcome F) (start goal : Cell) : PathResult F → Type 0 where
    same_tile : start ≡ goal → Answer o start goal (complete fl (waypoint fl goal ∷ []))
    unwalkable :
        is_walkable grid (pos goal.0) (pos goal.1) ≡ false → Answer o start goal (failed fl)
    cached :
        (ws : List (GridVector2 F))
        → Remembered fl grid (cache_key start goal) ws
        → Answer o start goal (complete fl ws)
    stuck : o.found ≡ false → o.best ≡ start → Answer o start goal (failed fl)
    walked :
        (cells : List Cell)
        → IsRoute grid start cells o.best
        → o.best ≢ start
        → (o.found ≡ true → o.best ≡ goal)
        → Answer o start goal (record {
          waypoints = map (waypoint fl) cells;
          is_partial = o.hit_cap && not o.found;
          is_failed = false;
        })

  -- The first state of a search satisfies the invariant of the loop.
  module _ (laws : FloatLaws fl) where
    open laws use {IsNumber, dec-IsNumber, lt_irrefl, le_refl}

    begin_search-IsTracked :
        (start goal : Cell) (before : Scores F)
        → IsTracked fl before
        → IsTracked fl (begin_search fl start goal before).scores
    unfolding begin_search
    begin_search-IsTracked start goal before h i =
        let fresh = reset_tables-IsFresh fl before i h in
        elim (Bool-cases (index start == i)) [
          | inl at ↦ inl (head (sym ((==_iff (index start) i).0 at)))
          | inr off ↦ rw off (inr fresh)
        ]

    begin_search-Inv :
        (start goal : Cell) (inside : InField start) (before : Scores F)
        → IsTracked fl before
        → Inv fl laws grid start inside 0 start (begin_search fl start goal before)
    unfolding begin_search
    begin_search-Inv start goal inside before h =
        let clean : (i : ℕ) → IsFresh fl (reset_tables fl before.visited_nodes before) i =
          λ i. reset_tables-IsFresh fl before i h in
        let at_start : (index start == index start) ≡ true = (==_iff _ _).1 refl in
        let way : Trail fl laws grid start inside (begin_search fl start goal before).scores start =
          root refl (clean (index start)).1 in
        record {
          numbers = λ i. elim (Bool-cases (index start == i)) [
            | inl at ↦ rw at (dec-IsNumber 0 0)
            | inr off ↦ rw (off, (clean i).0) (dec-IsNumber 1000000000 0)
          ];
          queue = (
            record {
              moves_made = 0;
              sum = nothing;
              few = omega arith;
              number = dec-IsNumber 0 0;
              settled = rw at_start (lt_irrefl (dec 0 0) (dec-IsNumber 0 0));
              trail = way;
            },
            tt,
          );
          best_trail = way;
        }

    abbrev pub Answered : Outcome F → Cell → Cell → Option (PathResult F × Finder F) → Type 0
    Answered o start goal r =
        (result : PathResult F) × (after : Finder F) × (r ≡ some (result, after))
        × Answer o start goal result
        × IsSound fl grid after

    run-Arrives :
        (max_iterations : ℕ) (start goal : Cell) (inside : InField start) (before : Scores F)
        → max_iterations ≤ max_moves
        → IsTracked fl before
        → Arrives fl laws grid start inside goal (run max_iterations before start goal)
    run-Arrives max_iterations start goal inside before few h =
        search-Arrives fl laws grid start inside max_iterations 0 goal
          (record { cell = start; h = heuristic fl start goal }) (begin_search fl start goal before)
          (omega arith) (begin_search-Inv start goal inside before h)

    run-IsTracked :
        (max_iterations : ℕ) (start goal : Cell) (before : Scores F)
        → IsTracked fl before
        → IsTracked fl (run max_iterations before start goal).scores
    run-IsTracked max_iterations start goal before h =
        search-IsTracked fl (le_refl (unreached fl) (dec-IsNumber 1000000000 0)) max_iterations grid
          goal (record { cell = start; h = heuristic fl start goal })
          (begin_search fl start goal before) (begin_search-IsTracked start goal before h)

    finish_walk-Answered :
        (start goal : Cell) (st : Finder F) (o : Outcome F)
        → o.best ≢ start
        → (inside : InField start) → Arrives fl laws grid start inside goal o
        → IsTracked fl o.scores
        → IsSound fl grid st
        → (path : List Cell) → IsRoute grid start (reverse path) o.best
        → Answered o start goal (
            some (
              record {
                waypoints = map (waypoint fl) (reverse path);
                is_partial = o.hit_cap && not o.found;
                is_failed = false;
              },
              record {
                scores = o.scores;
                path_cache =
                    if o.found && not (length (map (waypoint fl) (reverse path)) == 0)
                    then remember fl
                        (cache_key start goal)
                        (map (waypoint fl) (reverse path))
                        st.path_cache
                    else st.path_cache;
              },
            ))
    finish_walk-Answered start goal st o away inside arrives tracked sound path route = (
      _,
      _,
      refl,
      walked (reverse path) route away arrives.reached,
      record {
        tracked = tracked;
        honest =
            elim (Bool-cases (o.found && not (length (map (waypoint fl) (reverse path)) == 0))) [
              | inr kept ↦ rw kept sound.honest
              | inl new ↦
                  let at_goal : o.best ≡ goal = arrives.reached (ground arith) in
                  rw new (
                    remember-honest fl grid (cache_key start goal)
                      (map (waypoint fl) (reverse path)) st.path_cache
                      (record {
                        a = start;
                        b = goal;
                        cells = reverse path;
                        from = refl;
                        to = refl;
                        drawn = refl;
                        route = rw at_goal at route;
                      })
                      sound.honest)
            ];
      },
    )

    finish-Answered :
        (start goal : Cell) (st : Finder F) (o : Outcome F)
        → start ≢ goal
        → (inside : InField start) → Arrives fl laws grid start inside goal o
        → IsTracked fl o.scores
        → IsSound fl grid st
        → Answered o start goal (finish fl start goal st.path_cache o)
    unfolding finish
    finish-Answered start goal st o apart inside arrives tracked sound =
        let target : (if o.found then goal else o.best) ≡ o.best = elim (Bool-cases o.found) [
          | inl e ↦ rw e (sym (arrives.reached e))
          | inr e ↦ rw e
        ] in
        elim (Bool-cases (eq_cell o.best start)) [
          | inl e ↦
              let at : o.best ≡ start = eq_cell→≡ o.best start e in
              let lost : o.found ≡ false = elim (Bool-cases o.found) [
                | inl f ↦ absurd (apart (sym at ∙ arrives.reached f))
                | inr f ↦ f
              ] in
              rw (target, e)
                (
                  failed fl,
                  record { scores = o.scores; path_cache = st.path_cache },
                  refl,
                  stuck lost at,
                  record { tracked = tracked; honest = sound.honest },
                )
          | inr e ↦
              let away : o.best ≢ start = λ same.
                cc (e, (==_iff _ _).1 (ap (λ c. c.0) same), (==_iff _ _).1 (ap (λ c. c.1) same)) in
              let (path, walk, route) =
                trace-IsRoute fl laws grid start inside o.scores arrives.numbers arrives.trail in
              rw (target, e, walk)
                (finish_walk-Answered start goal st o away inside arrives tracked sound path route)
        ]

    -- With at most 2^22 rounds, from sound state, `FindPath` always returns. Its waypoints are the
    -- goal alone if it is the start's tile; or those that the cache holds for the buckets of the
    -- two tiles, a walk over legal moves between tiles of these buckets; or a walk over legal moves
    -- from the start to the best tile of the search, which is the goal if that was found. It fails
    -- only if the goal is not walkable or the search, which did not find the goal, has the start
    -- for its best tile. The state is sound again: every cached path is such a walk, and every
    -- changed entry of the score tables is listed for the next reset.
    pub find_path-Answered :
        (start_x start_z end_x end_z : F) (max_iterations : ℕ) (st : Finder F)
        → max_iterations ≤ max_moves
        → IsSound fl grid st
        → Answered
            (run max_iterations st.scores (tile_of fl start_x start_z) (tile_of fl end_x end_z))
            (tile_of fl start_x start_z)
            (tile_of fl end_x end_z)
            (find_path fl grid start_x start_z end_x end_z max_iterations st)
    unfolding find_path
    find_path-Answered start_x start_z end_x end_z max_iterations st few sound =
        let start = tile_of fl start_x start_z in
        let goal = tile_of fl end_x end_z in
        elim (Bool-cases (eq_cell start goal)) [
          | inl same ↦ rw same (_, st, refl, same_tile (eq_cell→≡ start goal same), sound)
          | inr apart ↦ elim (Bool-cases (is_walkable grid (pos goal.0) (pos goal.1))) [
            | inr blocked ↦ rw (apart, blocked) (_, st, refl, unwalkable blocked, sound)
            | inl free ↦
                elim (Option-cases (usable (lookup (cache_key start goal) st.path_cache))) [
                  | inr (ws, hit) ↦
                      rw (apart, free, hit)
                        (
                          _,
                          st,
                          refl,
                          cached ws (
                              usable-Remembered fl grid (cache_key start goal) _ ws
                                (sound.honest (cache_key start goal)) hit),
                          sound,
                        )
                  | inl miss ↦
                      let inside = tile_of-InField fl start_x start_z in
                      let apart_tiles : start ≢ goal = λ same. cc (
                        apart,
                        (==_iff _ _).1 (ap (λ c. c.0) same),
                        (==_iff _ _).1 (ap (λ c. c.1) same),
                      ) in
                      rw (apart, free, miss)
                        (finish-Answered start goal st (run max_iterations st.scores start goal)
                          apart_tiles inside
                          (run-Arrives max_iterations start goal inside st.scores few sound.tracked)
                          (run-IsTracked max_iterations start goal st.scores sound.tracked) sound)
                ]
          ]
        ]
