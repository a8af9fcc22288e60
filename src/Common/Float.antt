-- ===== src/Common/Float.antt =====
-- The `float` of the source, as an interface: the type, the operations that the program uses, and
-- the conversions to and from `int`. `dec n k` is the literal n / 10^k. Nothing is assumed of the
-- operations here; what a theorem needs of them stands in a record of laws beside that theorem.
use mundus_vivens_game_serve.Common.{ℕ, Bool}
use mundus_vivens_game_serve.Common.Int.{ℤ}

pub record Float : Type 1 where
  pub F : Type 0
  pub add : F → F → F
  pub sub : F → F → F
  pub mul : F → F → F
  pub div : F → F → F
  pub sqrt : F → F
  pub lt : F → F → Bool
  pub le : F → F → Bool
  pub eq : F → F → Bool
  pub dec : ℕ → ℕ → F
  pub of_ℤ : ℤ → F
  pub round : F → ℤ
  pub floor : F → ℤ
  pub ceil : F → ℤ
