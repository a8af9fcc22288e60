-- ===== src/Grid/Sight/Verdict.antt =====
-- What the verdict of the line walk means.
use Prim.Native.Nat.{max}
use mundus_vivens_game_serve.Common.{
  ℕ, zero, suc, ◌+◌, ◌≤◌, ◌<◌, ◌≡◌, ◌∙◌, ◌⊎◌, inl, inr, Bool, true, false, ◌&&◌, Option, none, some,
  min, ltb, if◌then◌else◌, arith, Bool-cases,
}
use mundus_vivens_game_serve.Common.Int.{ℤ, pos, ◌≤ℤ◌, ◌-ℤ◌, -ℤ_parts, pos_part, neg_part}
use mundus_vivens_game_serve.Grid.{Cell, Field, is_walkable}
use mundus_vivens_game_serve.Grid.Sight.{Walker, walk_step, walk, is_line_blocked, abs_diff, eq_ℤ}
use mundus_vivens_game_serve.Grid.Sight.Line.{
  IsAt, place, unit, moves_right, moves_down, walk_step-IsAt,
}
use mundus_vivens_game_serve.Grid.Sight.Progress.{
  Progress, Progress-step, Progress-end, Progress-start, Progress-in_box,
}

abbrev Beside : ℤ → ℤ → Type 0
Beside x y =
    (x ≤ℤ y) × (pos_part y + neg_part x ≤ pos_part x + neg_part y + 1)
    ⊎ (y ≤ℤ x) × (pos_part x + neg_part y ≤ pos_part y + neg_part x + 1)

-- From (x, z) the tile (x2, z2) is `n` king's moves away over walkable tiles, both ends included.
pub data Clear (grid : Field) (x2 z2 : ℤ) : ℤ → ℤ → ℕ → Type 0 where
  arrived : {x z : ℤ} → x ≡ x2 → z ≡ z2 → is_walkable grid x z ≡ true → Clear grid x2 z2 x z zero
  onward :
      {x z x' z' : ℤ} {n : ℕ}
      → is_walkable grid x z ≡ true
      → Beside x x' × Beside z z'
      → Clear grid x2 z2 x' z' n
      → Clear grid x2 z2 x z (suc n)

-- A tile of the box that two tiles span.
abbrev InBox : Cell → Cell → ℤ → ℤ → Type 0
InBox (x1, z1) (x2, z2) x z =
    (pos (min x1 x2) ≤ℤ x)
    × (x ≤ℤ pos (max x1 x2))
    × (pos (min z1 z2) ≤ℤ z)
    × (z ≤ℤ pos (max z1 z2))

module _ (grid : Field) (p q : Cell) where
  abbrev pub Judges : Option Bool → Type 0
  Judges none = ⊥
  Judges (some true) = (x : ℤ) × (z : ℤ) × InBox p q x z × (is_walkable grid x z ≡ false)
  Judges (some false) =
      Clear grid (pos q.0) (pos q.1) (pos p.0) (pos p.1) (max (abs_diff q.0 p.0) (abs_diff q.1 p.1))

place-InBox :
    (x1 x2 a : ℕ)
    → a ≤ abs_diff x2 x1
    → (pos (min x1 x2) ≤ℤ place (ltb x1 x2) x1 a) × (place (ltb x1 x2) x1 a ≤ℤ pos (max x1 x2))
place-InBox x1 x2 a h = ground arith

place-end : (x1 x2 a : ℕ) → a ≡ abs_diff x2 x1 → place (ltb x1 x2) x1 a ≡ pos x2
place-end x1 x2 a h = ground arith

place-not_end : (x1 x2 a : ℕ) → a < abs_diff x2 x1 → eq_ℤ (place (ltb x1 x2) x1 a) (pos x2) ≡ false
place-not_end x1 x2 a h = ground arith

eq_ℤ_refl : (x : ℕ) → eq_ℤ (pos x) (pos x) ≡ true
eq_ℤ_refl x = ground arith

place-Beside : (f m : Bool) (s a : ℕ) → Beside (place f s a) (place f s (if m then a + 1 else a))
place-Beside true true s a = inl (omega arith, omega arith)
place-Beside true false s a = inl (omega arith, omega arith)
place-Beside false true s a = inr (ground arith, ground arith)
place-Beside false false s a = inl (ground arith, ground arith)

Beside-of :
    (x y : ℤ) (f m : Bool) (s a : ℕ)
    → x ≡ place f s a
    → y ≡ place f s (if m then a + 1 else a)
    → Beside x y
Beside-of x y f m s a ex ey = rw (ex, ey) (place-Beside f m s a)

place-start : (f : Bool) (s : ℕ) → pos s ≡ place f s 0
place-start f s = ground arith

module _ (grid : Field) (x1 z1 x2 z2 : ℕ) where
  abbrev dx : ℕ
  dx = abs_diff x2 x1

  abbrev dy : ℕ
  dy = abs_diff z2 z1

  abbrev fx : Bool
  fx = ltb x1 x2

  abbrev fz : Bool
  fz = ltb z1 z2

  -- The verdict of a walk that stands at (x, z) with `n` rounds to go.
  abbrev JudgesFrom : ℤ → ℤ → ℕ → Option Bool → Type 0
  JudgesFrom x z n none = ⊥
  JudgesFrom x z n (some true) = Judges grid (x1, z1) (x2, z2) (some true)
  JudgesFrom x z n (some false) = Clear grid (pos x2) (pos z2) x z n

  JudgesFrom-onward :
      (x z x' z' : ℤ) (n : ℕ) (r : Option Bool)
      → is_walkable grid x z ≡ true
      → Beside x x' × Beside z z'
      → JudgesFrom x' z' n r
      → JudgesFrom x z (suc n) r
  JudgesFrom-onward x z x' z' n none free near v = v
  JudgesFrom-onward x z x' z' n (some true) free near v = v
  JudgesFrom-onward x z x' z' n (some false) free near v = onward free near v

  not_arrived :
      (n a b : ℕ)
      → Progress dx dy (suc n) a b
      → (eq_ℤ (place fx x1 a) (pos x2) && eq_ℤ (place fz z1 b) (pos z2)) ≡ false
  not_arrived n a b (inl (e, s)) = rw (place-not_end x1 x2 a (omega arith))
  not_arrived n a b (inr (e, s)) = ground (arith, place-not_end z1 z2 b (omega arith))

  blocked_here :
      (n a b : ℕ) (w : Walker)
      → IsAt dx dy fx fz x1 z1 a b w
      → Progress dx dy n a b
      → is_walkable grid w.cx w.cz ≡ false
      → Judges grid (x1, z1) (x2, z2) (some true)
  blocked_here n a b w at p e =
      let (ha, hb) = Progress-in_box dx dy n a b p in
      let (x_lo, x_hi) = place-InBox x1 x2 a ha in
      let (z_lo, z_hi) = place-InBox z1 z2 b hb in
      (w.cx, w.cz, rw (at.x_is, at.z_is) (x_lo, x_hi, z_lo, z_hi), e)

  end_test : (x z : ℤ) → x ≡ pos x2 → z ≡ pos z2 → (eq_ℤ x (pos x2) && eq_ℤ z (pos z2)) ≡ true
  end_test x z ex ez = rw (ex, ez, eq_ℤ_refl x2, eq_ℤ_refl z2)

  walk-JudgesFrom :
      (fuel n a b : ℕ) (w : Walker)
      → n < fuel
      → IsAt dx dy fx fz x1 z1 a b w
      → Progress dx dy n a b
      → JudgesFrom w.cx w.cz n (walk fuel grid dx dy (unit fx) (unit fz) (x2, z2) w)
  unfolding walk
  walk-JudgesFrom zero n a b w h at p = elim h [ ]
  walk-JudgesFrom (suc fuel) zero a b w h at p =
      let (ea, eb) = Progress-end dx dy a b p in
      let ex : w.cx ≡ pos x2 = at.x_is ∙ place-end x1 x2 a ea in
      let ez : w.cz ≡ pos z2 = at.z_is ∙ place-end z1 z2 b eb in
      elim (Bool-cases (is_walkable grid w.cx w.cz)) [
        | inl e ↦ rw (e, end_test w.cx w.cz ex ez) (arrived ex ez e)
        | inr e ↦ rw e (blocked_here 0 a b w at p e)
      ]
  walk-JudgesFrom (suc fuel) (suc n) a b w h at p =
      let w' = walk_step dx dy (unit fx) (unit fz) w in
      let at' = walk_step-IsAt dx dy fx fz x1 z1 a b w at in
      let going : (eq_ℤ w.cx (pos x2) && eq_ℤ w.cz (pos z2)) ≡ false =
        rw (at.x_is, at.z_is) (not_arrived n a b p) in
      let near : Beside w.cx w'.cx × Beside w.cz w'.cz = (
        Beside-of w.cx w'.cx fx (moves_right dx dy a b) x1 a at.x_is at'.x_is,
        Beside-of w.cz w'.cz fz (moves_down dx dy a b) z1 b at.z_is at'.z_is,
      ) in
      elim (Bool-cases (is_walkable grid w.cx w.cz)) [
        | inl e ↦
            rw (e, going)
              (JudgesFrom-onward w.cx w.cz w'.cx w'.cz n _ e near
                (walk-JudgesFrom fuel n _ _ w' (omega arith) at' (Progress-step dx dy n a b p)))
        | inr e ↦ rw e (blocked_here (suc n) a b w at p e)
      ]

  judged :
      (r : Option Bool)
      → JudgesFrom (pos x1) (pos z1) (max dx dy) r
      → Judges grid (x1, z1) (x2, z2) r
  judged none v = v
  judged (some true) v = v
  judged (some false) v = v

-- `IsPathBlocked` always returns. If it says that nothing is in the way, then the second tile is
-- reached from the first by as few king's moves as there can be, over walkable tiles only, both
-- ends included; if it says that the way is blocked, then a tile of the box that the two span is
-- not walkable.
pub is_line_blocked-Judges :
    (grid : Field) (p q : Cell) → Judges grid p q (is_line_blocked grid p q)
unfolding is_line_blocked
is_line_blocked-Judges grid (x1, z1) (x2, z2) =
    let dx = abs_diff x2 x1 in
    let dy = abs_diff z2 z1 in
    let start : Walker = record { err = pos dx -ℤ pos dy; cx = pos x1; cz = pos z1 } in
    judged grid x1 z1 x2 z2 _ (
      walk-JudgesFrom grid x1 z1 x2 z2 (suc (dx + dy)) (max dx dy) 0 0 start (omega arith)
        (record {
          err_is = omega (arith, -ℤ_parts (pos dx) (pos dy));
          x_is = place-start (ltb x1 x2) x1;
          z_is = place-start (ltb z1 z2) z1;
        })
        (Progress-start dx dy))
