-- ===== src/Grid/Sight/Progress.antt =====
-- How far the line walk has come along both sides of the box.
use Prim.Native.Nat.{max}
use native.Mathlib.Decide.{dec_lt}
use mundus_vivens_game_serve.Common.{
  ℕ, suc, ◌+◌, ◌*◌, ◌≤◌, ◌<◌, ◌≡◌, ap, ◌⊎◌, inl, inr, true, if◌then◌else◌, arith, Bool-cases,
  ltb→lt, lt→ltb,
}
use mundus_vivens_game_serve.Grid.Sight.Line.{moves_right, moves_down}

mul_mono : (d b a : ℕ) → b < a → d * (b + 1) ≤ d * a
mul_mono d b a h = grind arith

mul_le_right : (d a b : ℕ) → a ≤ b → d * a ≤ d * b
mul_le_right d a b h = grind arith

mul_le_left : (a d e : ℕ) → d ≤ e → d * a ≤ e * a
mul_le_left a d e h = grind arith

-- `a` moves along the side `dx` and `b` along the side `dy`, which is not the longer one.
pub record Shallow (dx dy a b : ℕ) : Type 0 where
  pub flatter : dy ≤ dx
  pub near_line : 2 * (dy * a) ≤ dx * (2 * b + 1)
  pub in_box : b ≤ dy

Shallow-right : (dx dy a b : ℕ) → Shallow dx dy a b → a < dx → moves_right dx dy a b ≡ true
Shallow-right dx dy a b s h = lt→ltb _ _ (elim (dec_lt dy dx) [
  | yes flat ↦ omega (arith, s.near_line)
  | no diagonal ↦ elim (dec_lt b a) [
    | yes behind ↦
        absurd
          (omega (arith, mul_mono dx b a behind, mul_le_left a dx dy (omega arith), s.near_line))
    | no level ↦
        omega (arith, s.flatter, mul_le_left a dy dx s.flatter, mul_le_right dx a b (omega arith))
  ]
])

moved_in_box :
    (dx dy a b : ℕ) → Shallow dx dy a b → a < dx → dx * (2 * b + 1) < 2 * dy * (a + 1) → b + 1 ≤ dy
moved_in_box dx dy a b s h e = elim (dec_lt b dy) [
  | yes below ↦ omega arith
  | no above ↦ absurd (omega (arith, mul_mono dy a dx h, mul_le_right dx dy b (omega arith)))
]

Shallow-step :
    (dx dy a b : ℕ)
    → Shallow dx dy a b
    → a < dx
    → Shallow dx dy (a + 1) (if moves_down dx dy a b then b + 1 else b)
Shallow-step dx dy a b s h = elim (Bool-cases (moves_down dx dy a b)) [
  | inl e ↦ rw e (record {
    flatter = s.flatter;
    near_line = omega (arith, s.near_line, s.flatter);
    in_box = moved_in_box dx dy a b s h (ltb→lt _ _ e);
  })
  | inr e ↦ rw e (record { flatter = s.flatter; near_line = ground arith; in_box = s.in_box })
]

Shallow-end : (dx dy a b : ℕ) → a + 0 ≡ dx → Shallow dx dy a b → b ≡ dy
Shallow-end dx dy a b e s = elim (dec_lt b dy) [
  | yes h ↦
      let same : dy * a ≡ dy * dx = ap (◌*◌ dy) (omega arith) in
      absurd (omega (arith, mul_mono dx b dy h, s.near_line, s.flatter, same))
  | no h ↦ omega (arith, s.in_box)
]

-- `n` rounds are left, along whichever side is the longer.
abbrev pub Progress : ℕ → ℕ → ℕ → ℕ → ℕ → Type 0
Progress dx dy n a b = (a + n ≡ dx) × Shallow dx dy a b ⊎ (b + n ≡ dy) × Shallow dy dx b a

pub Progress-step :
    (dx dy n a b : ℕ)
    → Progress dx dy (suc n) a b
    → Progress dx dy n
        (if moves_right dx dy a b then a + 1 else a)
        (if moves_down dx dy a b then b + 1 else b)
Progress-step dx dy n a b (inl (e, s)) =
    rw (Shallow-right dx dy a b s (omega arith))
      (inl (omega arith, Shallow-step dx dy a b s (omega arith)))
Progress-step dx dy n a b (inr (e, s)) =
    rw (Shallow-right dy dx b a s (omega arith))
      (inr (omega arith, Shallow-step dy dx b a s (omega arith)))

pub Progress-end : (dx dy a b : ℕ) → Progress dx dy 0 a b → (a ≡ dx) × (b ≡ dy)
Progress-end dx dy a b (inl (e, s)) = (omega arith, Shallow-end dx dy a b e s)
Progress-end dx dy a b (inr (e, s)) = (Shallow-end dy dx b a e s, omega arith)

pub Progress-start : (dx dy : ℕ) → Progress dx dy (max dx dy) 0 0
Progress-start dx dy = elim (dec_lt dx dy) [
  | yes steep ↦
      inr (
        omega arith,
        record { flatter = omega arith; near_line = omega arith; in_box = omega arith },
      )
  | no flat ↦
      inl (
        omega arith,
        record { flatter = omega arith; near_line = omega arith; in_box = omega arith },
      )
]

pub Progress-in_box : (dx dy n a b : ℕ) → Progress dx dy n a b → (a ≤ dx) × (b ≤ dy)
Progress-in_box dx dy n a b (inl (e, s)) = (omega arith, s.in_box)
Progress-in_box dx dy n a b (inr (e, s)) = (s.in_box, omega arith)
