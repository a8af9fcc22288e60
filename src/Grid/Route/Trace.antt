-- ===== src/Grid/Route/Trace.antt =====
-- The walk back over the parents.
use mathlib.Core.List.{reverse, reverse-cons}
use mundus_vivens_game_serve.Common.{
  ℕ, zero, suc, ◌*◌, ◌≤◌, ◌≡◌, refl, sym, ap, true, some, List, [], ◌∷◌, ◌++◌, length, arith,
}
use mundus_vivens_game_serve.Common.Float.{Float}
use mundus_vivens_game_serve.Common.Pigeonhole.{Fresh, Distinct, Below, pigeonhole}
use mundus_vivens_game_serve.Grid.{Cell, Field, InField, index, index-lt, width, height}
use mundus_vivens_game_serve.Grid.Route.{Scores, trace}
use mundus_vivens_game_serve.Grid.Route.Laws.{FloatLaws}
use mundus_vivens_game_serve.Grid.Route.Trail.{Edge, Trail, root, link, Trail-InField}

-- The tiles of a walk over legal moves, both ends among them.
pub data IsRoute (grid : Field) : Cell → List Cell → Cell → Type 0 where
  alone : {c : Cell} → IsRoute grid c (c ∷ []) c
  extend :
      {a b : Cell} {path : List Cell} (c : Cell)
      → IsRoute grid a path b
      → Edge grid b c
      → IsRoute grid a (path ++ (c ∷ [])) c

module _ (fl : Float) (laws : FloatLaws fl) (grid : Field) (start : Cell) (inside : InField start)
    (sc : Scores fl.F) (numbers : (i : ℕ) → laws.IsNumber (sc.g_score i)) where
  open fl use {F, lt}
  open laws use {IsNumber, lt_irrefl, lt_trans}

  abbrev Way : Cell → Type 0
  Way = Trail fl laws grid start inside sc

  tiles : {c : Cell} → Way c → List Cell
  tiles {c} (root _ _) = c ∷ []
  tiles {c} (link p _ _ _ t) = c ∷ tiles t

  abbrev indices : List Cell → List ℕ
  indices [] = []
  indices (c ∷ cs) = index c ∷ indices cs

  -- Every tile further back than a higher score is another one than that score's.
  tiles-Fresh :
      {c : Cell} (t : Way c) (i : ℕ)
      → lt (sc.g_score (index c)) (sc.g_score i) ≡ true
      → Fresh i (indices (tiles t))
  unfolding tiles
  tiles-Fresh {c} (root _ _) i h =
      ((λ e. cc (rw e at h, lt_irrefl (sc.g_score (index c)) (numbers (index c)))), tt)
  tiles-Fresh {c} (link p _ _ falls t) i h = (
    (λ e. cc (rw e at h, lt_irrefl (sc.g_score (index c)) (numbers (index c)))),
    tiles-Fresh t i (lt_trans _ _ _ (numbers (index p)) (numbers (index c)) (numbers i) falls h),
  )

  tiles-Distinct : {c : Cell} (t : Way c) → Distinct (indices (tiles t))
  unfolding tiles
  tiles-Distinct (root _ _) = (tt, tt)
  tiles-Distinct {c} (link p _ _ falls t) = (tiles-Fresh t (index c) falls, tiles-Distinct t)

  tiles-Below : {c : Cell} (t : Way c) → Below (width * height) (indices (tiles t))
  unfolding tiles
  tiles-Below {c} (root e n) =
      (index-lt c (Trail-InField fl laws grid start inside {sc = sc} (root e n)), tt)
  tiles-Below {c} (link p e edge falls t) = (
    index-lt c (Trail-InField fl laws grid start inside {sc = sc} (link p e edge falls t)),
    tiles-Below t,
  )

  length-indices : (cs : List Cell) → length (indices cs) ≡ length cs
  length-indices [] = refl
  length-indices (c ∷ cs) = ap suc (length-indices cs)

  length-tiles : {c : Cell} (t : Way c) → length (tiles t) ≤ width * height
  length-tiles t =
      rw (sym (length-indices (tiles t)))
        (pigeonhole (width * height) (indices (tiles t)) (tiles-Distinct t) (tiles-Below t))

  tiles-IsRoute : {c : Cell} (t : Way c) → IsRoute grid start (reverse (tiles t)) c
  unfolding tiles
  tiles-IsRoute {c} (root e _) = rw e alone
  tiles-IsRoute {c} (link p _ edge _ t) =
      rw (reverse-cons c (tiles t)) (extend c (tiles-IsRoute t) edge)

  trace-tiles :
      {c : Cell} (t : Way c) (fuel : ℕ)
      → length (tiles t) ≤ fuel
      → trace fuel sc.parent c ≡ some (tiles t)
  unfolding tiles trace
  trace-tiles (root _ _) zero h = absurd (omega arith)
  trace-tiles (link _ _ _ _ _) zero h = absurd (omega arith)
  trace-tiles {c} (root _ e) (suc fuel) h = rw (trace, e)
  trace-tiles {c} (link p e _ _ t) (suc fuel) h = rw (trace, e, trace-tiles t fuel (omega arith))

  pub trace-IsRoute :
      {c : Cell}
      → Way c
      → (path : List Cell) × (trace (width * height) sc.parent c ≡ some path)
        × IsRoute grid start (reverse path) c
  trace-IsRoute t = (tiles t, trace-tiles t (width * height) (length-tiles t), tiles-IsRoute t)
