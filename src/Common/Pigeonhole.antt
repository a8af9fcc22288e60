-- ===== src/Common/Pigeonhole.antt =====
-- A list of different numbers below n has at most n of them.
use mundus_vivens_game_serve.Common.{
  ℕ, zero, suc, ◌≤◌, ◌<◌, ◌≡◌, ◌≢◌, inl, inr, List, [], ◌∷◌, length, ◌==◌, ==_iff, if◌then◌else◌,
  Bool-cases, arith,
}

abbrev pub Fresh : ℕ → List ℕ → Type 0
Fresh i [] = Unit
Fresh i (j ∷ js) = (i ≢ j) × Fresh i js

abbrev pub Distinct : List ℕ → Type 0
Distinct [] = Unit
Distinct (i ∷ is) = Fresh i is × Distinct is

abbrev pub Below : ℕ → List ℕ → Type 0
Below n [] = Unit
Below n (i ∷ is) = (i < n) × Below n is

abbrev without : ℕ → List ℕ → List ℕ
without i [] = []
without i (j ∷ js) = if i == j then js else j ∷ without i js

Fresh-without : (i j : ℕ) (xs : List ℕ) → Fresh j xs → Fresh j (without i xs)
Fresh-without i j [] h = tt
Fresh-without i j (x ∷ xs) h = elim (Bool-cases (i == x)) [
  | inl e ↦ rw e h.1
  | inr e ↦ rw e (h.0, Fresh-without i j xs h.1)
]

Distinct-without : (i : ℕ) (xs : List ℕ) → Distinct xs → Distinct (without i xs)
Distinct-without i [] h = tt
Distinct-without i (x ∷ xs) h = elim (Bool-cases (i == x)) [
  | inl e ↦ rw e h.1
  | inr e ↦ rw e (Fresh-without i x xs h.0, Distinct-without i xs h.1)
]

Below-Fresh : (n : ℕ) (xs : List ℕ) → Below (suc n) xs → Fresh n xs → Below n xs
Below-Fresh n [] h k = tt
Below-Fresh n (x ∷ xs) h k =
    let (h0, h1) = h in let (k0, k1) = k in (omega arith, Below-Fresh n xs h1 k1)

Below-without : (n : ℕ) (xs : List ℕ) → Below (suc n) xs → Distinct xs → Below n (without n xs)
Below-without n [] h d = tt
Below-without n (x ∷ xs) h d = elim (Bool-cases (n == x)) [
  | inl e ↦ let same : n ≡ x = (==_iff n x).0 e in rw e (Below-Fresh n xs h.1 (rw same d.0))
  | inr e ↦
      let (h0, h1) = h in let low : x < n = ground arith in rw e (low, Below-without n xs h1 d.1)
]

length-without : (i : ℕ) (xs : List ℕ) → length xs ≤ suc (length (without i xs))
length-without i [] = omega arith
length-without i (x ∷ xs) = elim (Bool-cases (i == x)) [
  | inl e ↦ rw e (omega arith)
  | inr e ↦ rw e (omega (arith, length-without i xs))
]

pub pigeonhole : (n : ℕ) (xs : List ℕ) → Distinct xs → Below n xs → length xs ≤ n
pigeonhole zero [] d h = omega arith
pigeonhole zero (x ∷ xs) d h = let (h0, h1) = h in absurd (omega arith)
pigeonhole (suc n) xs d h = omega (
  arith,
  length-without n xs,
  pigeonhole n (without n xs) (Distinct-without n xs d) (Below-without n xs h d),
)
