-- ===== src/Grid/Sight.antt =====
-- GridMap::IsPathBlocked: the integer line walk between two tiles. Coordinates, directions and the
-- error term are signed. The loop has no bound in the source; here it has fuel, and `none` is a
-- walk that ran out of it.
pub mod Line
pub mod Progress
pub mod Verdict
mod Tests
use mundus_vivens_game_serve.Common.{
  ℕ, zero, suc, ◌+◌, ◌-◌, Bool, true, false, not, ◌&&◌, Option, none, some, ltb, if◌then◌else◌,
  ◌==◌,
}
use mundus_vivens_game_serve.Common.Int.{
  ℤ, pos, negsuc, ◌+ℤ◌, ◌-ℤ◌, ◌*ℤ◌, ltb_ℤ, pos_part, neg_part,
}
use mundus_vivens_game_serve.Grid.{Cell, Field, is_walkable}

pub record Walker : Type 0 where
  pub err : ℤ
  pub cx : ℤ
  pub cz : ℤ

-- std::abs(a - b)
abbrev pub abs_diff : ℕ → ℕ → ℕ
abs_diff a b = (a - b) + (b - a)

abbrev pub direction : ℕ → ℕ → ℤ
direction a b = if ltb a b then pos 1 else negsuc 0

abbrev pub eq_ℤ : ℤ → ℤ → Bool
eq_ℤ a b = pos_part a + neg_part b == pos_part b + neg_part a

-- The tail of the loop's body: the two corrections of the error term, by its doubled value.
pub walk_step : ℕ → ℕ → ℤ → ℤ → Walker → Walker
walk_step dx dy sx sy w =
    let e2 = pos 2 *ℤ w.err in
    let right = ltb_ℤ (pos 0 -ℤ pos dy) e2 in
    let down = ltb_ℤ e2 (pos dx) in
    let err = if right then w.err -ℤ pos dy else w.err in
    record {
      err = if down then err +ℤ pos dx else err;
      cx = if right then w.cx +ℤ sx else w.cx;
      cz = if down then w.cz +ℤ sy else w.cz;
    }

pub walk : ℕ → Field → ℕ → ℕ → ℤ → ℤ → Cell → Walker → Option Bool
walk zero grid dx dy sx sy (x2, z2) w = none
walk (suc fuel) grid dx dy sx sy (x2, z2) w =
    let rest = walk fuel grid dx dy sx sy (x2, z2) (walk_step dx dy sx sy w) in
    if not (is_walkable grid w.cx w.cz)
    then some true
    else if eq_ℤ w.cx (pos x2) && eq_ℤ w.cz (pos z2)
    then some false
    else rest

-- The function after its four arguments are rounded and clamped to tiles. A round for each tile
-- of the longer side, and one more, are enough.
pub is_line_blocked : Field → Cell → Cell → Option Bool
is_line_blocked grid (x1, z1) (x2, z2) =
    let dx = abs_diff x2 x1 in
    let dy = abs_diff z2 z1 in
    walk (suc (dx + dy)) grid dx dy (direction x1 x2) (direction z1 z2) (x2, z2)
      (record { err = pos dx -ℤ pos dy; cx = pos x1; cz = pos z1 })
