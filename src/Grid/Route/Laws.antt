-- ===== src/Grid/Route/Laws.antt =====
-- What the search relies on in the arithmetic of `float`: the order of the numbers (that is, of the
-- values other than NaN), and that a path cost below 2^22 moves grows with every move. A cost is
-- then below 2^23, where single precision still tells neighbouring integers apart.
use mundus_vivens_game_serve.Common.{ℕ, zero, suc, ◌<◌, ◌≡◌, true, false}
use mundus_vivens_game_serve.Common.Float.{Float}
use mundus_vivens_game_serve.Grid.Route.{straight, diagonal}

-- The cost of a path of so many moves.
pub data IsSum (fl : Float) : ℕ → fl.F → Type 0 where
  nothing : IsSum fl zero (fl.dec 0 0)
  plus_straight : {n : ℕ} {g : fl.F} → IsSum fl n g → IsSum fl (suc n) (fl.add g (straight fl))
  plus_diagonal : {n : ℕ} {g : fl.F} → IsSum fl n g → IsSum fl (suc n) (fl.add g (diagonal fl))

abbrev pub max_moves : ℕ
max_moves = 4194304

pub record FloatLaws (fl : Float) : Type 1 where
  pub IsNumber : fl.F → Type 0
  pub dec-IsNumber : (n k : ℕ) → IsNumber (fl.dec n k)
  pub add-IsNumber : (a : fl.F) (n k : ℕ) → IsNumber a → IsNumber (fl.add a (fl.dec n k))
  pub le_refl : (a : fl.F) → IsNumber a → fl.le a a ≡ true
  pub lt_irrefl : (a : fl.F) → IsNumber a → fl.lt a a ≡ false
  pub lt_trans :
      (a b c : fl.F)
      → IsNumber a
      → IsNumber b
      → IsNumber c
      → fl.lt a b ≡ true
      → fl.lt b c ≡ true
      → fl.lt a c ≡ true
  pub lt_of_not_lt :
      (a b c : fl.F)
      → IsNumber a
      → IsNumber b
      → IsNumber c
      → fl.lt b a ≡ false
      → fl.lt b c ≡ true
      → fl.lt a c ≡ true
  pub straight_grows :
      (n : ℕ) (g : fl.F) → IsSum fl n g → n < max_moves → fl.lt g (fl.add g (straight fl)) ≡ true
  pub diagonal_grows :
      (n : ℕ) (g : fl.F) → IsSum fl n g → n < max_moves → fl.lt g (fl.add g (diagonal fl)) ≡ true
