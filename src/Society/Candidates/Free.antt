-- ===== src/Society/Candidates/Free.antt =====
-- The candidates are free: in no group yet, and not busy.
use mundus_vivens_game_serve.Common.{
  ℕ, ◌≡◌, ◌∙◌, sym, refl, ap, inl, inr, Bool, true, not, ◌&&◌, ◌||◌, ◌==◌, ==_iff, List, [], ◌∷◌,
  ◌++◌, if◌then◌else◌, arith, none, some, Bool-cases,
}
use mathlib.Core.Path.{subst}
use mundus_vivens_game_serve.Common.Dict.{beq_refl, nat_eq}
use mundus_vivens_game_serve.Common.Float.{Float}
use mundus_vivens_game_serve.Agents.Furniture.{is_some}
use mundus_vivens_game_serve.Agents.World.{World, put_row}
use mundus_vivens_game_serve.Society.Candidates.{
  recover, recover_all, may_initiate, admit, gather, candidates_of, valid_location,
}
use mundus_vivens_game_serve.Places.Position.{get_nearby_entities}
use mundus_vivens_game_serve.Society.Dialogue.{is_in}

pub is_in-append : (x : ℕ) (xs ys : List ℕ) → is_in x (xs ++ ys) ≡ (is_in x xs || is_in x ys)
unfolding is_in
is_in-append x [] ys = refl
is_in-append x (y ∷ xs) ys = ground (arith, is_in-append x xs ys)

module _ {F : Type 0} where
  abbrev pub IsCalm : World F → World F → Type 0
  IsCalm w v = (x : ℕ) → (v.rows x).busy ≡ (w.rows x).busy

  -- In no group yet, and not busy.
  abbrev pub is_available : List ℕ → ℕ → World F → Bool
  is_available processed x w = not (is_in x processed) && not (is_some (w.rows x).busy)

  -- Every entity of the list is free.
  abbrev pub AllFree : List ℕ → List ℕ → World F → Type 0
  AllFree processed xs w = (x : ℕ) → is_in x xs ≡ true → is_available processed x w ≡ true

  pub may_initiate-IsCalm :
      (processed : List ℕ) (e : ℕ) (w : World F) → IsCalm w (may_initiate processed e w).1
  unfolding may_initiate
  may_initiate-IsCalm processed e w x = ground arith

  pub may_initiate_free :
      (processed : List ℕ) (e : ℕ) (w : World F)
      → (may_initiate processed e w).0 ≡ true
      → is_available processed e w ≡ true
  unfolding may_initiate
  may_initiate_free processed e w h = ground (arith, h)

  pub is_available-calm :
      (processed : List ℕ) (x : ℕ) (w v : World F)
      → (v.rows x).busy ≡ (w.rows x).busy
      → is_available processed x v ≡ is_available processed x w
  is_available-calm processed x w v h = ap (λ b. not (is_in x processed) && not (is_some b)) h

module _ (fl : Float) where
  open fl use {F, dec}

  admit-IsCalm :
      (processed : List ℕ) (i n : ℕ) (w : World F) → IsCalm w (admit fl processed i n w).1
  unfolding admit
  admit-IsCalm processed i n w x = ground arith

  admit_free :
      (processed : List ℕ) (i n : ℕ) (w : World F)
      → (admit fl processed i n w).0 ≡ true
      → is_available processed n w ≡ true
  unfolding admit
  admit_free processed i n w h = ground (arith, h)

  gather-IsCalm :
      (processed : List ℕ) (i : ℕ) (ns : List ℕ) (w : World F)
      → IsCalm w (gather fl processed i ns w).1
  unfolding gather
  gather-IsCalm processed i [] w x = refl
  gather-IsCalm processed i (n ∷ ns) w x =
      gather-IsCalm processed i ns (admit fl processed i n w).1 x ∙ admit-IsCalm processed i n w x

  gather-AllFree :
      (processed : List ℕ) (i : ℕ) (ns : List ℕ) (w : World F)
      → AllFree processed (gather fl processed i ns w).0 w
  unfolding gather is_in
  gather-AllFree processed i [] w x h = ground (arith, h)
  gather-AllFree processed i (n ∷ ns) w x h =
      let asked = (admit fl processed i n w).1 in
      let later : is_in x (gather fl processed i ns asked).0 ≡ true
          → is_available processed x w ≡ true =
        λ k.
          sym (is_available-calm processed x w asked (admit-IsCalm processed i n w x))
          ∙ gather-AllFree processed i ns asked x k in
      elim (Bool-cases (admit fl processed i n w).0) [
        | inl admitted ↦ elim (Bool-cases (n == x)) [
          | inl same ↦
              subst (λ y. is_available processed y w ≡ true) ((==_iff n x).0 same)
                (admit_free processed i n w admitted)
          | inr other ↦ later (ground (arith, h, admitted, other))
        ]
        | inr refused ↦ later (ground (arith, h, refused))
      ]

  pub candidates-IsCalm :
      (processed : List ℕ) (i : ℕ) (w : World F) → IsCalm w (candidates_of fl processed i w).1
  unfolding candidates_of
  candidates-IsCalm processed i w x = gather-IsCalm processed i _ w x

  pub candidates_first :
      (processed : List ℕ) (i : ℕ) (w : World F) → is_in i (candidates_of fl processed i w).0 ≡ true
  unfolding candidates_of is_in
  candidates_first processed i w = ground (arith, beq_refl i)

  pub candidates-AllFree :
      (processed : List ℕ) (i : ℕ) (w : World F)
      → is_available processed i w ≡ true
      → AllFree processed (candidates_of fl processed i w).0 w
  unfolding candidates_of is_in
  candidates-AllFree processed i w free x h =
      let loc = (w.rows i).location in
      let near = get_nearby_entities fl loc.x loc.z (dec 8 0) (valid_location w) w.places in
      elim (Bool-cases (i == x)) [
        | inl same ↦ subst (λ y. is_available processed y w ≡ true) ((==_iff i x).0 same) free
        | inr other ↦ gather-AllFree processed i near w x (ground (arith, h, other))
      ]

module _ {F : Type 0} where
  pub recover_all-IsCalm : (es : List ℕ) (w : World F) → IsCalm w (recover_all es w)
  unfolding recover_all
  recover_all-IsCalm [] w x = refl
  recover_all-IsCalm (e ∷ es) w x =
      let r = w.rows e in
      let recovered : World F = if not r.is_valid then w else elim r.cooldown [
        | none ↦ w
        | some cooldown ↦
            put_row e (record r { cooldown = some (recover r.location.kind w.tick cooldown) }) w
      ] in
      let same : (recovered.rows x).busy ≡ (w.rows x).busy = ground arith in
      recover_all-IsCalm es recovered x ∙ same
