-- ===== src/Society/Initiate/Group.antt =====
-- The group that one attempt comes to.
use mundus_vivens_game_serve.Common.{
  ℕ, ◌≡◌, ◌⊎◌, ◌∙◌, sym, refl, ap, inl, inr, Bool, true, false, ◌||◌, ◌==◌, ==_iff, List, [], ◌∷◌,
  if◌then◌else◌, arith, Option, Bool-cases,
}
use mathlib.Core.Path.{subst}
use mundus_vivens_game_serve.Common.Dict.{beq_refl, nat_eq}
use mundus_vivens_game_serve.Common.Float.{Float}
use mundus_vivens_game_serve.Agents.{BusyTag}
use mundus_vivens_game_serve.Agents.World.{World, put_row, send, throw_dice, trigger_dialogue}
use mundus_vivens_game_serve.Players.{fresh_busy}
use mundus_vivens_game_serve.Society.Candidates.Free.{
  IsCalm, is_available, AllFree, is_available-calm,
}
use mundus_vivens_game_serve.Society.Dialogue.{is_in}
use mundus_vivens_game_serve.Society.Initiate.{
  potential_targets, choose, refuse, join_all, occupied, occupy_all, converse, approach,
  may_be_target, ids_of,
}
use mundus_vivens_game_serve.Society.Initiate.Join.{
  IsSized, join_all-IsCalm, join_all-IsSized, join_all_members,
}

module _ (fl : Float) (shuffle : World fl.F → List ℕ → List ℕ) where
  open fl use {F}

  abbrev pub busy_if : Bool → Option (BusyTag F) → Option (BusyTag F)
  busy_if b old = if b then fresh_busy fl else old

  occupy_all_busy :
      (es : List ℕ) (x : ℕ) (w : World F)
      → ((occupy_all fl shuffle es w).rows x).busy ≡ busy_if (is_in x es) (w.rows x).busy
  unfolding occupy_all is_in
  occupy_all_busy [] x w = refl
  occupy_all_busy (e ∷ es) x w =
      ground (arith, occupy_all_busy es x (put_row e (occupied fl shuffle (w.rows e)) w))

  refuse-IsCalm : (i t : ℕ) (w : World F) → IsCalm w (refuse fl shuffle i t w)
  unfolding refuse
  refuse-IsCalm i t w x = ground arith

  -- What an attempt may come to: no group, or one of two to four that were free and are busy now;
  -- nobody else has become busy or free.
  pub record Forms (processed : List ℕ) (w : World F) (r : List ℕ × World F) : Type 0 where
    pub sized : (r.0 ≡ []) ⊎ IsSized fl shuffle r.0
    pub free : AllFree processed r.0 w
    pub busy : (x : ℕ) → (r.1.rows x).busy ≡ busy_if (is_in x r.0) (w.rows x).busy

  pub Forms-none : (processed : List ℕ) (w v : World F) → IsCalm w v → Forms processed w ([], v)
  unfolding is_in
  Forms-none processed w v calm = record {
    sized = inl refl;
    free = λ x h. ground (arith, h);
    busy = λ x. calm x;
  }

  pub AllFree-calm :
      (processed xs : List ℕ) (w v : World F)
      → IsCalm w v
      → AllFree processed xs w
      → AllFree processed xs v
  AllFree-calm processed xs w v calm free x h =
      is_available-calm processed x w v (calm x) ∙ free x h

  pub Forms-calm :
      (processed : List ℕ) (w v : World F) (r : List ℕ × World F)
      → IsCalm w v
      → Forms processed v r
      → Forms processed w r
  Forms-calm processed w v r calm f = record {
    sized = f.sized;
    free = λ x h. sym (is_available-calm processed x w v (calm x)) ∙ f.free x h;
    busy = λ x. f.busy x ∙ ap (busy_if (is_in x r.0)) (calm x);
  }

  -- The keys of the targets are among the candidates.
  abbrev pub AllAmong : List ℕ → List (ℕ × F) → Type 0
  AllAmong cs [] = Unit
  AllAmong cs ((t, weight) ∷ ts) = (is_in t cs ≡ true) × AllAmong cs ts

  AllAmong-cons : (c : ℕ) (cs : List ℕ) (ts : List (ℕ × F)) → AllAmong cs ts → AllAmong (c ∷ cs) ts
  unfolding is_in
  AllAmong-cons c cs [] h = tt
  AllAmong-cons c cs ((t, weight) ∷ ts) (h, hs) = (ground (arith, h), AllAmong-cons c cs ts hs)

  pub targets-AllAmong :
      (i : ℕ) (cs : List ℕ) (w : World F) → AllAmong cs (potential_targets fl shuffle i cs w)
  unfolding potential_targets is_in
  targets-AllAmong i [] w = tt
  targets-AllAmong i (c ∷ cs) w =
      let later =
        AllAmong-cons c cs (potential_targets fl shuffle i cs w) (targets-AllAmong i cs w) in
      elim (Bool-cases (may_be_target fl shuffle i c w)) [
        | inl may ↦ rw (potential_targets, may) (ground (arith, beq_refl c), later)
        | inr refused ↦ rw (potential_targets, refused) later
      ]

  choose_among :
      (cs : List ℕ) (p : ℕ × F) (ts : List (ℕ × F)) (drawn : F)
      → AllAmong cs (p ∷ ts)
      → is_in (choose fl shuffle p ts drawn) cs ≡ true
  unfolding choose
  choose_among cs (c, weight) [] drawn (h, hs) = h
  choose_among cs (c, weight) (next ∷ rest) drawn (h, hs) =
      ground (arith, h, choose_among cs next rest (fl.sub drawn weight) hs)

  pub Forms-if :
      (processed : List ℕ) (w : World F) (b : Bool) (r r' : List ℕ × World F)
      → Forms processed w r
      → Forms processed w r'
      → Forms processed w (if b then r else r')
  Forms-if processed w true r r' f f' = f
  Forms-if processed w false r r' f f' = f'

  member_free :
      (processed : List ℕ) (i t : ℕ) (cs : List ℕ) (w : World F) (x : ℕ)
      → AllFree processed cs w
      → is_in i cs ≡ true
      → is_in t cs ≡ true
      → (is_in x (i ∷ t ∷ []) || is_in x cs) ≡ true
      → is_available processed x w ≡ true
  unfolding is_in
  member_free processed i t cs w x free first second h = elim (Bool-cases (is_in x cs)) [
    | inl among ↦ free x among
    | inr other ↦ elim (Bool-cases (i == x)) [
      | inl same ↦
          subst (λ y. is_available processed y w ≡ true) ((==_iff i x).0 same) (free i first)
      | inr differs ↦
          subst (λ y. is_available processed y w ≡ true)
            ((==_iff t x).0 (ground (arith, h, other, differs))) (free t second)
    ]
  ]

  converse-Forms :
      (processed : List ℕ) (i t : ℕ) (cs : List ℕ) (modifier : F) (w : World F)
      → is_in i cs ≡ true
      → is_in t cs ≡ true
      → AllFree processed cs w
      → Forms processed w (converse fl shuffle i t cs modifier w)
  unfolding converse
  converse-Forms processed i t cs modifier w first second free =
      let thrown = (throw_dice w).1 in
      let joined = join_all fl shuffle i t (i ∷ t ∷ []) cs thrown in
      Forms-if processed w _ ([], refuse fl shuffle i t thrown)
        (
          joined.0,
          send (trigger_dialogue (ids_of joined.0 joined.1))
              (occupy_all fl shuffle joined.0 joined.1),
        )
        (Forms-none processed w (refuse fl shuffle i t thrown) (λ x. refuse-IsCalm i t thrown x))
        (record {
          sized =
              inr
                (join_all-IsSized fl shuffle i t cs (i ∷ t ∷ []) thrown (omega arith, omega arith));
          free = λ x h.
              member_free processed i t cs w x free first second
                (join_all_members fl shuffle i t cs (i ∷ t ∷ []) thrown x h);
          busy = λ x.
              occupy_all_busy joined.0 x joined.1
              ∙ ap (busy_if (is_in x joined.0))
                  (join_all-IsCalm fl shuffle i t cs (i ∷ t ∷ []) thrown x);
        })

  pub approach-Forms :
      (processed : List ℕ) (i : ℕ) (cs : List ℕ) (modifier : F) (ts : List (ℕ × F)) (w : World F)
      → is_in i cs ≡ true
      → AllFree processed cs w
      → AllAmong cs ts
      → Forms processed w (approach fl shuffle i cs modifier ts w)
  unfolding approach
  approach-Forms processed i cs modifier [] w first free among =
      Forms-none processed w w (λ x. refl)
  approach-Forms processed i cs modifier (p ∷ ts) w first free among =
      let thrown = (throw_dice w).1 in
      Forms-calm processed w thrown _ (λ x. refl)
        (converse-Forms processed i _ cs modifier thrown first (choose_among cs p ts _ among)
          (AllFree-calm processed cs w thrown (λ x. refl) free))
