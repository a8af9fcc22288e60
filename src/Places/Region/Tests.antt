-- ===== src/Places/Region/Tests.antt =====
-- A map with one place, in whole numbers.
use mundus_vivens_game_serve.Common.{
  ℕ, suc, ◌+◌, ◌*◌, ◌≤◌, ◌≡◌, true, [], ◌∷◌, arith, refl, not, ◌&&◌,
}
use mundus_vivens_game_serve.Common.Float.{Float}
use mundus_vivens_game_serve.Common.Int.{
  ℤ, pos, negsuc, pos_part, neg_part, sub_ℕ, ◌+ℤ◌, ◌-ℤ◌, ◌*ℤ◌, ◌≤ℤ◌, ltb_ℤ,
}
use mundus_vivens_game_serve.Agents.{pub_house}
use mundus_vivens_game_serve.Places.{LocationRegistry, LocationMeta, wilderness_name}
use mundus_vivens_game_serve.Places.Region.{bake_region_map}
use mundus_vivens_game_serve.Places.Region.Circles.{
  CircleLaws, zone_of_last, bake_region_map_covers,
}

-- Whole numbers, which need no rounding; division and square root are not used here.
abbrev whole : Float
whole = record {
  F = ℤ;
  add = λ a b. a +ℤ b;
  sub = λ a b. a -ℤ b;
  mul = λ a b. a *ℤ b;
  div = λ a b. a;
  sqrt = λ a. a;
  lt = ltb_ℤ;
  le = λ a b. not (ltb_ℤ b a);
  eq = λ a b. not (ltb_ℤ a b) && not (ltb_ℤ b a);
  dec = λ n k. pos n;
  of_ℤ = λ a. a;
  round = λ a. a;
  floor = λ a. a;
  ceil = λ a. a;
}

-- Of two numbers whose squares sum to at most 64, the first is at most 8.
small_square : (n m : ℕ) → n * n + m ≤ 64 → n ≤ 8
small_square n m h = grind arith

abbrev size_of : ℤ → ℕ
size_of d = pos_part d + neg_part d

sub_nothing : (p q k : ℕ) → p ≡ k → q ≡ 0 → sub_ℕ p q ≡ pos k
sub_nothing p q k e z = ground arith

square-size_of : (d : ℤ) → d *ℤ d ≡ pos (size_of d * size_of d)
unfolding ◌*ℤ◌
square-size_of (pos n) =
    sub_nothing (n * n + 0 * 0) (n * 0 + 0 * n) ((n + 0) * (n + 0)) (grind arith) (omega arith)
square-size_of (negsuc n) =
    sub_nothing (0 * 0 + suc n * suc n) (0 * suc n + suc n * 0) ((0 + suc n) * (0 + suc n))
      (grind arith) (omega arith)

-- A coordinate whose distance is at most 8.
in_reach :
    (a : ℤ) (x : ℕ) → size_of (pos x -ℤ a) ≤ 8 → ((a -ℤ pos 8) ≤ℤ pos x) × (pos x ≤ℤ (a +ℤ pos 8))
unfolding ◌+ℤ◌ ◌-ℤ◌
in_reach a x h = ground arith

sum_of_squares :
    (d e : ℤ)
    → not (ltb_ℤ (pos 8 *ℤ pos 8) (d *ℤ d +ℤ e *ℤ e)) ≡ true
    → (size_of d ≤ 8) × (size_of e ≤ 8)
unfolding ◌+ℤ◌ ◌*ℤ◌
sum_of_squares d e h =
    let p = size_of d * size_of d in
    let q = size_of e * size_of e in
    let small : not (ltb_ℤ (pos 64) (pos p +ℤ pos q)) ≡ true =
      rw (square-size_of d, square-size_of e) at h in
    let sum : p + q ≤ 64 = ground arith in
    (small_square (size_of d) q sum, small_square (size_of e) p (omega arith))

whole_laws : CircleLaws whole
whole_laws = record {
  reaches_x = λ location x z inside.
      in_reach location.x x (sum_of_squares (pos x -ℤ location.x) (pos z -ℤ location.z) inside).0;
  reaches_z = λ location x z inside.
      in_reach location.z z (sum_of_squares (pos x -ℤ location.x) (pos z -ℤ location.z) inside).1;
}

abbrev tavern : LocationMeta ℤ
tavern = record { x = pos 20; z = pos 30; kind = pub_house; region_id = 1; territory_id = 2 }

-- A place at the edge of the field.
abbrev well : LocationMeta ℤ
well = record { x = pos 25; z = negsuc 0; kind = pub_house; region_id = 1; territory_id = 2 }

abbrev two_places : LocationRegistry ℤ
two_places = record {
  location_centers = ("tavern", tavern) ∷ ("well", well) ∷ [];
  cell_entities = [];
  entity_to_cell = [];
  name_to_zone = ("tavern", 1) ∷ ("well", 2) ∷ [];
  zone_to_name = wilderness_name ∷ "tavern" ∷ "well" ∷ [];
  next_zone_id = 3;
  region_map = λ i. 0;
  region_map_size = 0;
  map_width = 0;
  map_height = 0;
}

bake_region_map_covers_example :
    (bake_region_map whole 2000 2000 two_places).region_map (20 * 2000 + 30)
    ≡ zone_of_last whole two_places.location_centers two_places.name_to_zone 20 30 0
bake_region_map_covers_example =
    bake_region_map_covers whole whole_laws 2000 two_places 20 30 ((1, refl), ((2, refl), tt))
      (omega arith) (omega arith)
