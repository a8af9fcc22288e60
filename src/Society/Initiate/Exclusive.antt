-- ===== src/Society/Initiate/Exclusive.antt =====
-- All the groups of one run together.
use mundus_vivens_game_serve.Common.{
  ℕ, ◌+◌, ◌≤◌, ◌≡◌, ◌⊎◌, ◌∙◌, sym, refl, inl, inr, true, ◌==◌, List, [], ◌∷◌, ◌++◌, if◌then◌else◌,
  arith, Bool-cases,
}
use mundus_vivens_game_serve.Common.Dict.{nat_eq}
use mundus_vivens_game_serve.Common.Float.{Float}
use mundus_vivens_game_serve.Agents.World.{World, throw_dice}
use mundus_vivens_game_serve.Players.{fresh_busy}
use mundus_vivens_game_serve.Society.Candidates.{
  recover_all, all_npcs, may_initiate, candidates_of, cooldown_of,
}
use mundus_vivens_game_serve.Society.Candidates.Free.{
  IsCalm, is_available, AllFree, is_in-append, may_initiate-IsCalm, may_initiate_free,
  is_available-calm, candidates-IsCalm, candidates-AllFree, recover_all-IsCalm, candidates_first,
}
use mundus_vivens_game_serve.Society.Dialogue.{is_in}
use mundus_vivens_game_serve.Society.Initiate.{
  potential_targets, approach, take_initiative, with_candidates, attempt, attempt_all, set_cooldown,
  system_social_interaction,
}
use mundus_vivens_game_serve.Society.Initiate.Join.{IsSized}
use mundus_vivens_game_serve.Society.Initiate.Group.{
  Forms, Forms-none, AllFree-calm, Forms-calm, targets-AllAmong, Forms-if, approach-Forms,
}

module _ (fl : Float) (shuffle : World fl.F → List ℕ → List ℕ) where
  open fl use {F}

  take_initiative-Forms :
      (processed : List ℕ) (i : ℕ) (cs : List ℕ) (modifier : F) (w : World F)
      → is_in i cs ≡ true
      → AllFree processed cs w
      → Forms fl shuffle processed w (take_initiative fl shuffle i cs modifier w)
  unfolding take_initiative
  take_initiative-Forms processed i cs modifier w first free =
      let thrown = (throw_dice w).1 in
      let noted =
        set_cooldown i (record (cooldown_of i thrown) { last_initiative_tick = w.tick }) thrown in
      let calm : IsCalm w noted = λ x. ground arith in
      Forms-if fl shuffle processed w _ ([], thrown)
        (approach fl shuffle i cs modifier (potential_targets fl shuffle i cs noted) noted)
        (Forms-none fl shuffle processed w thrown (λ x. refl))
        (Forms-calm fl shuffle processed w noted _ calm (
          approach-Forms fl shuffle processed i cs modifier
            (potential_targets fl shuffle i cs noted) noted first
            (AllFree-calm fl shuffle processed cs w noted calm free)
            (targets-AllAmong fl shuffle i cs noted)))

  with_candidates-Forms :
      (processed : List ℕ) (i : ℕ) (cs : List ℕ) (w : World F)
      → is_in i cs ≡ true
      → AllFree processed cs w
      → Forms fl shuffle processed w (with_candidates fl shuffle i cs w)
  unfolding with_candidates
  with_candidates-Forms processed i [] w first free =
      Forms-none fl shuffle processed w w (λ x. refl)
  with_candidates-Forms processed i (c ∷ cs) w first free =
      take_initiative-Forms processed i (c ∷ cs) _ w first free

  -- `std::shuffle` neither adds nor drops an element.
  abbrev pub IsShuffle : Type 0
  IsShuffle = (v : World F) (xs : List ℕ) (x : ℕ) → is_in x (shuffle v xs) ≡ is_in x xs

  attempt-Forms :
      (processed : List ℕ) (e : ℕ) (w : World F)
      → IsShuffle
      → Forms fl shuffle processed w (attempt fl shuffle processed e w)
  unfolding attempt
  attempt-Forms processed e w shuffled =
      let ready = (may_initiate processed e w).1 in
      let calm = may_initiate-IsCalm processed e w in
      let (cs, gathered) = candidates_of fl processed e ready in
      let settled : IsCalm w gathered = λ x. candidates-IsCalm fl processed e ready x ∙ calm x in
      let mixed = shuffle gathered cs in
      elim (Bool-cases (may_initiate processed e w).0) [
        | inr busy ↦ rw (attempt, busy) (Forms-none fl shuffle processed w ready calm)
        | inl may ↦
            let free = candidates-AllFree fl processed e ready (
              is_available-calm processed e w ready (calm e)
              ∙ may_initiate_free processed e w may) in
            let all_free : AllFree processed mixed w = λ x h.
              sym (is_available-calm processed x w ready (calm x))
              ∙ free x (sym (shuffled gathered cs x) ∙ h) in
            rw (attempt, may)
              (Forms-if fl shuffle processed w _ ([], gathered)
                (with_candidates fl shuffle e mixed gathered)
                (Forms-none fl shuffle processed w gathered settled)
                (Forms-calm fl shuffle processed w gathered _ settled (
                  with_candidates-Forms processed e mixed gathered
                    (shuffled gathered cs e ∙ candidates_first fl processed e ready)
                    (AllFree-calm fl shuffle processed mixed w gathered settled all_free))))
      ]

  -- In how many of the groups the entity is.
  unfoldable pub groups_of : ℕ → List (List ℕ) → ℕ
  groups_of x [] = 0
  groups_of x (group ∷ groups) = (if is_in x group then 1 else 0) + groups_of x groups

  -- A group is empty where an attempt came to nothing.
  abbrev pub AllSized : List (List ℕ) → Type 0
  AllSized [] = Unit
  AllSized (group ∷ groups) = ((group ≡ []) ⊎ IsSized fl shuffle group) × AllSized groups

  abbrev pub IsExclusive : List ℕ → World F → List (List ℕ) × World F → Type 0
  IsExclusive processed w (groups, after) =
      AllSized groups
      × ((x : ℕ) → groups_of x groups ≤ (if is_available processed x w then 1 else 0))
      × ((x : ℕ)
          → (after.rows x).busy
            ≡ (if groups_of x groups == 0 then (w.rows x).busy else fresh_busy fl))

  attempt_all-IsExclusive :
      (es processed : List ℕ) (w : World F)
      → IsShuffle
      → IsExclusive processed w (attempt_all fl shuffle processed es w)
  unfolding attempt_all groups_of
  attempt_all-IsExclusive [] processed w shuffled = (tt, (λ x. ground arith), λ x. refl)
  attempt_all-IsExclusive (e ∷ es) processed w shuffled =
      let (group, after) = attempt fl shuffle processed e w in
      let f = attempt-Forms processed e w shuffled in
      let (sized, once, busy) = attempt_all-IsExclusive es (processed ++ group) after shuffled in
      (
        (f.sized, sized),
        (λ x. ground (arith, once x, f.free x, f.busy x, is_in-append x processed group)),
        λ x. ground (arith, once x, busy x, f.busy x, is_in-append x processed group),
      )

  -- If std::shuffle neither adds nor drops an element, then in one run of SystemSocialInteraction
  -- each group has two to four members; an entity is in at most one group, and in none if it was
  -- busy before; those in a group are busy with a dialogue after the run, and nobody else has
  -- become busy or free.
  pub system_social_interaction-IsExclusive :
      (es : List ℕ) (w : World F)
      → IsShuffle
      → IsExclusive [] w (system_social_interaction fl shuffle es w)
  unfolding system_social_interaction is_in
  system_social_interaction-IsExclusive es w shuffled =
      let recovered = recover_all es w in
      let (sized, once, busy) =
        attempt_all-IsExclusive (all_npcs es recovered) [] recovered shuffled in
      (
        sized,
        (λ x. ground (arith, once x, recover_all-IsCalm es w x)),
        λ x. ground (arith, busy x, recover_all-IsCalm es w x),
      )
