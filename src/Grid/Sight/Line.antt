-- ===== src/Grid/Sight/Line.antt =====
-- One round of the line walk, counted: after `a` moves along x and `b` along z the error term is
-- dx * (b + 1) - dy * (a + 1), and the tile lies `a` and `b` tiles from the first one.
use mundus_vivens_game_serve.Common.{
  ℕ, ◌+◌, ◌*◌, ◌≡◌, inl, inr, Bool, true, false, ltb, if◌then◌else◌, arith, Bool-cases,
}
use mundus_vivens_game_serve.Common.Int.{
  ℤ, pos, negsuc, ◌+ℤ◌, ◌-ℤ◌, ◌*ℤ◌, ltb_ℤ, pos_part, neg_part, sub_ℕ, +ℤ_parts, -ℤ_parts,
}
use mundus_vivens_game_serve.Grid.Sight.{Walker, walk_step}

-- The tile coordinate `a` moves from `s`, forwards or backwards.
abbrev pub place : Bool → ℕ → ℕ → ℤ
place forward s a = if forward then pos (s + a) else sub_ℕ s a

abbrev pub unit : Bool → ℤ
unit forward = if forward then pos 1 else negsuc 0

pub record IsAt (dx dy : ℕ) (fx fz : Bool) (x1 z1 a b : ℕ) (w : Walker) : Type 0 where
  pub err_is : pos_part w.err + dy * (a + 1) ≡ neg_part w.err + dx * (b + 1)
  pub x_is : w.cx ≡ place fx x1 a
  pub z_is : w.cz ≡ place fz z1 b

abbrev pub moves_right : ℕ → ℕ → ℕ → ℕ → Bool
moves_right dx dy a b = ltb (dy * (2 * a + 1)) (2 * dx * (b + 1))

abbrev pub moves_down : ℕ → ℕ → ℕ → ℕ → Bool
moves_down dx dy a b = ltb (dx * (2 * b + 1)) (2 * dy * (a + 1))

place-unit : (f : Bool) (s a : ℕ) → place f s a +ℤ unit f ≡ place f s (a + 1)
unfolding ◌+ℤ◌
place-unit true s a = ground arith
place-unit false s a = ground arith

double_parts :
    (e : ℤ) → pos_part (pos 2 *ℤ e) + 2 * neg_part e ≡ neg_part (pos 2 *ℤ e) + 2 * pos_part e
unfolding ◌*ℤ◌
double_parts (pos n) = ground arith
double_parts (negsuc n) = ground arith

module _ (dx dy : ℕ) (fx fz : Bool) (x1 z1 a b : ℕ) (w : Walker)
    (at : IsAt dx dy fx fz x1 z1 a b w) where
  right_test : ltb_ℤ (pos 0 -ℤ pos dy) (pos 2 *ℤ w.err) ≡ moves_right dx dy a b
  right_test = ground (arith, double_parts w.err, -ℤ_parts (pos 0) (pos dy))

  down_test : ltb_ℤ (pos 2 *ℤ w.err) (pos dx) ≡ moves_down dx dy a b
  down_test = ground (arith, double_parts w.err)

  stepped_x :
      (walk_step dx dy (unit fx) (unit fz) w).cx
      ≡ place fx x1 (if moves_right dx dy a b then a + 1 else a)
  unfolding walk_step
  stepped_x =
      rw (right_test, at.x_is)
        (elim (Bool-cases (moves_right dx dy a b)) [
          | inl e ↦ rw e (place-unit fx x1 a)
          | inr e ↦ rw e
        ])

  stepped_z :
      (walk_step dx dy (unit fx) (unit fz) w).cz
      ≡ place fz z1 (if moves_down dx dy a b then b + 1 else b)
  unfolding walk_step
  stepped_z =
      rw (down_test, at.z_is)
        (elim (Bool-cases (moves_down dx dy a b)) [
          | inl e ↦ rw e (place-unit fz z1 b)
          | inr e ↦ rw e
        ])

  stepped_err :
      let err = (walk_step dx dy (unit fx) (unit fz) w).err in
      pos_part err + dy * ((if moves_right dx dy a b then a + 1 else a) + 1)
      ≡ neg_part err + dx * ((if moves_down dx dy a b then b + 1 else b) + 1)
  unfolding walk_step
  stepped_err =
      rw (right_test, down_test)
        (elim (Bool-cases (moves_right dx dy a b)) [
          | inl r ↦ elim (Bool-cases (moves_down dx dy a b)) [
            | inl d ↦
                rw (r, d)
                  (omega (
                    arith,
                    +ℤ_parts (w.err -ℤ pos dy) (pos dx),
                    -ℤ_parts w.err (pos dy),
                    at.err_is,
                  ))
            | inr d ↦ rw (r, d) (omega (arith, -ℤ_parts w.err (pos dy), at.err_is))
          ]
          | inr r ↦ elim (Bool-cases (moves_down dx dy a b)) [
            | inl d ↦ rw (r, d) (omega (arith, +ℤ_parts w.err (pos dx), at.err_is))
            | inr d ↦ rw (r, d) (at.err_is)
          ]
        ])

  pub walk_step-IsAt :
      IsAt dx dy fx fz x1 z1
        (if moves_right dx dy a b then a + 1 else a)
        (if moves_down dx dy a b then b + 1 else b)
        (walk_step dx dy (unit fx) (unit fz) w)
  walk_step-IsAt = record { err_is = stepped_err; x_is = stepped_x; z_is = stepped_z }
