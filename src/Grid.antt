-- ===== src/Grid.antt =====
-- GridMap: a fixed field of tiles, each walkable or not. `std::vector<bool>` is a function of its
-- index here.
pub mod Sight
pub mod Route
pub mod Find
pub mod Obstacles
use mundus_vivens_game_serve.Common.{
  ℕ, ◌+◌, ◌-◌, ◌*◌, ◌<◌, ◌≡◌, refl, Bool, true, false, not, ◌||◌, ◌==◌, ltb, leb, if◌then◌else◌,
  arith, ap, Bool-cases, ◌⊎◌, inl, inr,
}
use mundus_vivens_game_serve.Common.Float.{Float}
use mundus_vivens_game_serve.Common.Int.{ℤ, pos, negsuc, pos_part, neg_part, ltb_ℤ}

abbrev pub width : ℕ
width = 2000

abbrev pub height : ℕ
height = 2000

abbrev pub Cell : Type 0
Cell = ℕ × ℕ

abbrev pub InField : Cell → Type 0
InField (x, z) = (x < width) × (z < height)

abbrev pub index : Cell → ℕ
index (x, z) = x * height + z

abbrev pub Field : Type 0
Field = ℕ → Bool

pub index_inj : (c d : Cell) → InField c → InField d → index c ≡ index d → c ≡ d
index_inj (x, z) (x', z') h k e =
    let ex : x ≡ x' = omega arith in let ez : z ≡ z' = omega arith in λ i. (ex i, ez i)

pub index-lt : (c : Cell) → InField c → index c < width * height
index-lt (x, z) h = omega arith

-- `IsWalkable(int x, int z)`: no tile outside the field is.
pub is_walkable : Field → ℤ → ℤ → Bool
is_walkable grid x z =
    if ltb_ℤ x (pos 0) || not (ltb_ℤ x (pos width)) || ltb_ℤ z (pos 0) || not (ltb_ℤ z (pos height))
    then false
    else grid (index (pos_part x, pos_part z))

pub is_walkable-InField :
    (grid : Field) (x z : ℤ)
    → is_walkable grid x z ≡ true
    → (x ≡ pos (pos_part x)) × (z ≡ pos (pos_part z)) × InField (pos_part x, pos_part z)
unfolding is_walkable
is_walkable-InField grid (pos x) (pos z) e = (refl, refl, ground arith)
is_walkable-InField grid (pos x) (negsuc z) e = absurd (ground arith)
is_walkable-InField grid (negsuc x) z e = absurd (ground arith)

-- `std::clamp(v, 0, hi)` of an `int`, which is a tile coordinate.
pub clamp : ℕ → ℤ → ℕ
clamp hi (pos n) = if ltb hi n then hi else n
clamp hi (negsuc n) = 0

-- `static_cast<int>(std::round(v))`, clamped, for both coordinates.
pub tile_of : (fl : Float) → fl.F → fl.F → Cell
unfolding clamp
tile_of fl x z = (clamp (width - 1) (fl.round x), clamp (height - 1) (fl.round z))

pub clamp-lt : (hi : ℕ) (v : ℤ) → clamp hi v < hi + 1
unfolding clamp
clamp-lt hi (pos n) = ground arith
clamp-lt hi (negsuc n) = omega arith

pub tile_of-InField : (fl : Float) (x z : fl.F) → InField (tile_of fl x z)
unfolding tile_of
tile_of-InField fl x z = (clamp-lt 1999 (fl.round x), clamp-lt 1999 (fl.round z))
