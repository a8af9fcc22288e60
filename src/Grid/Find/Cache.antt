-- ===== src/Grid/Find/Cache.antt =====
-- The cache of paths, and what its entries promise.
use mundus_vivens_game_serve.Common.{
  ◌≡◌, inl, inr, refl, sym, ◌∙◌, arith, Option, none, some, List, [], map, length, ltb,
  if◌then◌else◌, Bool-cases,
}
use mundus_vivens_game_serve.Common.Dict.{lookup, lookup-insert}
use mundus_vivens_game_serve.Common.Float.{Float}
use mundus_vivens_game_serve.Grid.{Cell, Field}
use mundus_vivens_game_serve.Grid.Route.Trace.{IsRoute}
use mundus_vivens_game_serve.Grid.Route.Reset.{IsTracked}
use mundus_vivens_game_serve.Grid.Find.{
  PathCacheEntry, PathCacheKey, Finder, GridVector2, usable, waypoint, remember, bucket, key_eq,
  eq_key,
}

module _ (fl : Float) (grid : Field) where
  open fl use {F, lt, le, dec}

  -- The waypoints of a walk between some two tiles of the key's buckets.
  pub record Remembered (key : PathCacheKey) (ws : List (GridVector2 F)) : Type 0 where
    pub a : Cell
    pub b : Cell
    pub cells : List Cell
    pub from : bucket a ≡ key.0
    pub to : bucket b ≡ key.1
    pub drawn : ws ≡ map (waypoint fl) cells
    pub route : IsRoute grid a cells b

  pub record IsSound (st : Finder F) : Type 0 where
    pub tracked : IsTracked fl st.scores
    pub honest :
        (key : PathCacheKey) (entry : PathCacheEntry F)
        → lookup key st.path_cache ≡ some entry
        → Remembered key entry.waypoints

  pub usable-Remembered :
      (key : PathCacheKey) (found : Option (PathCacheEntry F)) (ws : List (GridVector2 F))
      → ((entry : PathCacheEntry F) → found ≡ some entry → Remembered key entry.waypoints)
      → usable found ≡ some ws
      → Remembered key ws
  unfolding usable
  usable-Remembered key none ws h e = absurd (ground arith)
  usable-Remembered key (some entry) ws h e =
      let same : entry.waypoints ≡ ws = ground arith in rw (sym same) (h entry refl)

  pub remember-honest :
      (key : PathCacheKey) (ws : List (GridVector2 F))
      (cache : List (PathCacheKey × PathCacheEntry F))
      → Remembered key ws
      → ((j : PathCacheKey) (entry : PathCacheEntry F)
          → lookup j cache ≡ some entry
          → Remembered j entry.waypoints)
      → (j : PathCacheKey) (entry : PathCacheEntry F)
      → lookup j (remember fl key ws cache) ≡ some entry
      → Remembered j entry.waypoints
  unfolding remember
  remember-honest key ws cache r h j entry e =
      let kept = if ltb 500 (length cache) then [] else cache in
      let new : PathCacheEntry F = record { waypoints = ws; tick_computed = 0 } in
      let there : (if eq_key key j then some new else lookup j kept) ≡ some entry =
        sym (lookup-insert key j new kept) ∙ e in
      elim (Bool-cases (eq_key key j)) [
        | inl at ↦
            let same : key ≡ j = (key_eq.beq_iff key j).0 at in
            let same_entry : some new ≡ some entry = rw at at there in
            let same_ws : ws ≡ entry.waypoints = cc same_entry in rw (sym same, sym same_ws) r
        | inr off ↦
            let old : lookup j kept ≡ some entry = rw off at there in
            elim (Bool-cases (ltb 500 (length cache))) [
              | inl full ↦ absurd (ground (arith, rw full at old))
              | inr room ↦ h j entry (rw room at old)
            ]
      ]
