-- ===== src/Grid/Route/Moves.antt =====
-- The eight directions of the search give legal moves.
use mundus_vivens_game_serve.Common.{
  ℕ, ◌+◌, ◌≤◌, ◌≡◌, ◌≢◌, refl, ap, ◌⊎◌, inl, inr, Bool, true, false, not, ◌&&◌, ◌||◌, Option, none,
  some, List, [], ◌∷◌, arith, Bool-cases,
}
use mundus_vivens_game_serve.Common.Float.{Float}
use mundus_vivens_game_serve.Common.Int.{
  ℤ, pos, negsuc, pos_part, neg_part, ◌+ℤ◌, +ℤ_parts, eq_of_parts,
}
use mundus_vivens_game_serve.Grid.{Cell, Field, is_walkable, is_walkable-InField}
use mundus_vivens_game_serve.Grid.Route.{Move, moves, straight, diagonal}
use mundus_vivens_game_serve.Grid.Route.Trail.{Edge}

pub record IsKingMove (fl : Float) (mv : Move fl.F) : Type 0 where
  pub x_small : (pos_part mv.dx ≤ 1) × (neg_part mv.dx ≤ 1)
  pub z_small : (pos_part mv.dz ≤ 1) × (neg_part mv.dz ≤ 1)
  pub leaves : mv.dx ≡ pos 0 → mv.dz ≢ pos 0
  pub straight_or : mv.is_diagonal ≡ false → (mv.dx ≡ pos 0) ⊎ (mv.dz ≡ pos 0)
  pub cost_is : (mv.cost ≡ straight fl) ⊎ (mv.cost ≡ diagonal fl)

abbrev pub AllMoves : (fl : Float) → List (Move fl.F) → Type 0
AllMoves fl [] = Unit {0}
AllMoves fl (mv ∷ rest) = IsKingMove fl mv × AllMoves fl rest

along_x :
    (fl : Float) (d : ℤ)
    → (pos_part d ≤ 1) × (neg_part d ≤ 1)
    → d ≢ pos 0
    → IsKingMove fl (record { dx = d; dz = pos 0; is_diagonal = false; cost = straight fl })
along_x fl d h ne = record {
  x_small = h;
  z_small = (omega arith, omega arith);
  leaves = λ e. absurd (ne e);
  straight_or = λ e. inr refl;
  cost_is = inl refl;
}

along_z :
    (fl : Float) (d : ℤ)
    → (pos_part d ≤ 1) × (neg_part d ≤ 1)
    → d ≢ pos 0
    → IsKingMove fl (record { dx = pos 0; dz = d; is_diagonal = false; cost = straight fl })
along_z fl d h ne = record {
  x_small = (omega arith, omega arith);
  z_small = h;
  leaves = λ e. ne;
  straight_or = λ e. inl refl;
  cost_is = inl refl;
}

across :
    (fl : Float) (d e : ℤ)
    → (pos_part d ≤ 1) × (neg_part d ≤ 1)
    → (pos_part e ≤ 1) × (neg_part e ≤ 1)
    → d ≢ pos 0
    → IsKingMove fl (record { dx = d; dz = e; is_diagonal = true; cost = diagonal fl })
across fl d e h k ne = record {
  x_small = h;
  z_small = k;
  leaves = λ z. absurd (ne z);
  straight_or = λ z. cc;
  cost_is = inr refl;
}

back_small : (pos_part (negsuc 0) ≤ 1) × (neg_part (negsuc 0) ≤ 1)
back_small = (omega arith, omega arith)

ahead_small : (pos_part (pos 1) ≤ 1) × (neg_part (pos 1) ≤ 1)
ahead_small = (omega arith, omega arith)

back_moves : negsuc 0 ≢ pos 0
back_moves e = cc

ahead_moves : pos 1 ≢ pos 0
ahead_moves e = absurd (omega (arith, ap pos_part e))

pub moves-AllMoves : (fl : Float) → AllMoves fl (moves fl)
moves-AllMoves fl = (
  along_x fl (negsuc 0) back_small back_moves,
  (
    along_x fl (pos 1) ahead_small ahead_moves,
    (
      along_z fl (negsuc 0) back_small back_moves,
      (
        along_z fl (pos 1) ahead_small ahead_moves,
        (
          across fl (negsuc 0) (negsuc 0) back_small back_small back_moves,
          (
            across fl (negsuc 0) (pos 1) back_small ahead_small back_moves,
            (
              across fl (pos 1) (negsuc 0) ahead_small back_small ahead_moves,
              (across fl (pos 1) (pos 1) ahead_small ahead_small ahead_moves, tt),
            ),
          ),
        ),
      ),
    ),
  ),
)

-- The coordinate after a shift that stays on the field.
shifted :
    (x : ℕ) (d : ℤ)
    → pos x +ℤ d ≡ pos (pos_part (pos x +ℤ d))
    → pos_part (pos x +ℤ d) + neg_part d ≡ x + pos_part d
shifted x d e = omega (arith, +ℤ_parts (pos x) d, ap neg_part e)

no_shift : (d : ℤ) → pos_part d ≡ neg_part d → d ≡ pos 0
no_shift d h = eq_of_parts d (pos 0) (omega arith)

both_free : (d a b : Bool) → (d && (not a || not b)) ≡ false → d ≡ true → (a ≡ true) × (b ≡ true)
both_free d a b e h = (ground arith, ground arith)

module _ (fl : Float) (grid : Field) (x z : ℕ) (mv : Move fl.F) (king : IsKingMove fl mv) where
  abbrev nx : ℤ
  nx = pos x +ℤ mv.dx

  abbrev nz : ℤ
  nz = pos z +ℤ mv.dz

  pub move-Edge :
      is_walkable grid nx nz ≡ true
      → (mv.is_diagonal && (not (is_walkable grid nx (pos z)) || not (is_walkable grid (pos x) nz)))
        ≡ false
      → Edge grid (x, z) (pos_part nx, pos_part nz)
  move-Edge free clear =
      let (ex, ez, here) = is_walkable-InField grid nx nz free in
      let sx = shifted x mv.dx ex in
      let sz = shifted z mv.dz ez in
      record {
        apart = λ e.
            king.leaves (no_shift mv.dx (omega (arith, ap (λ (c : Cell). c.0) e, sx)))
              (no_shift mv.dz (omega (arith, ap (λ (c : Cell). c.1) e, sz)));
        x_near = omega (arith, sx, king.x_small);
        z_near = omega (arith, sz, king.z_small);
        free = rw (ex, ez) at free;
        corners = λ mx mz. elim (Bool-cases mv.is_diagonal) [
          | inl d ↦
              let (free_x, free_z) = both_free _ _ _ clear d in (rw ex at free_x, rw ez at free_z)
          | inr s ↦ elim (king.straight_or s) [
            | inl e ↦ absurd (mx (omega (arith, sx, ap pos_part e, ap neg_part e)))
            | inr e ↦ absurd (mz (omega (arith, sz, ap pos_part e, ap neg_part e)))
          ]
        ];
      }

pub Popped-cases {ℓ} :
    {N : Type ℓ} (r : Option (N × List N))
    → (r ≡ none) ⊎ ((m : N) × (rest : List N) × (r ≡ some (m, rest)))
Popped-cases none = inl refl
Popped-cases (some (m, rest)) = inr (m, rest, refl)
