-- ===== src/Agents/Furniture/Resolver.antt =====
-- The whole of SystemAffordanceResolver.
use mathlib.Core.Path.{subst}
use mundus_vivens_game_serve.Common.{
  ℕ, ◌≡◌, sym, ap, ◌∙◌, inl, inr, true, false, none, some, List, [], ◌∷◌, ◌==◌, arith, Bool-cases,
  Option-cases,
}
use mundus_vivens_game_serve.Common.Dict.{nat_eq, lookup}
use mundus_vivens_game_serve.Agents.{NeedsComp, ToilComp, JobComp}
use mundus_vivens_game_serve.Agents.Furniture.{
  Scene, keeps, destroy, give_back, stand_up, tend_to, tend, tend_all, resolve_affordances, vacate,
}
use mundus_vivens_game_serve.Agents.Furniture.Release.{
  adjust-at, adjust-other, adjust-none, erase-some, erase-other, erase-none, adjust-some, map-some,
  vacated-listed, give_back-cases, freed-IsOwned, gone-IsOwned, destroyed-IsOwned, cleared, freed,
}
use mundus_vivens_game_serve.Agents.Furniture.Ownership.{
  IsOwned, IsFurnished, mend-IsOwned, mend-IsFurnished, mended_scene,
}

module _ {F : Type 0} where
  stood-IsFurnished : (e : ℕ) (st : Scene F) → IsFurnished st → IsFurnished (stand_up e st)
  stood-IsFurnished e st h = record {
    standing = h.standing;
    listed = λ d needs f at has alive. elim (Bool-cases (e == d)) [
      | inl is ↦
          let (before, was, same) =
            map-some cleared (lookup d st.needs) needs
              (sym (adjust-at e d cleared st.needs is) ∙ at) in
          let nothing : none ≡ some f = ap (λ n. n.occupied_furniture) same ∙ has in
          absurd (ground arith)
      | inr apart ↦
          h.listed d needs f (sym (adjust-other e d cleared st.needs apart) ∙ at) has alive
    ];
    inert = λ f aff at. adjust-none e f cleared st.needs (h.inert f aff at);
  }

  freed-IsFurnished : (f : ℕ) (st : Scene F) → IsFurnished st → IsFurnished (freed f st)
  freed-IsFurnished f st h = record {
    standing = λ g aff at.
        let (before, was) = vacated-listed f g aff st.affordances at in h.standing g before was;
    listed = λ d needs g at has alive.
        let (aff, was) = h.listed d needs g at has alive in
        adjust-some f g vacate st.affordances aff was;
    inert = λ g aff at.
        let (before, was) = vacated-listed f g aff st.affordances at in h.inert g before was;
  }

  destroyed-IsFurnished : (f : ℕ) (st : Scene F) → IsFurnished st → IsFurnished (destroy f st)
  unfolding destroy
  destroyed-IsFurnished f st h = record {
    standing = λ g aff at.
        let (off, was) = erase-some f g aff st.affordances at in rw off (h.standing g aff was);
    listed = λ d needs g at has alive.
        let (off, was) = erase-some f d needs st.needs at in
        elim (Bool-cases (f == g)) [
          | inl is ↦ let dead : false ≡ true = rw is at alive in absurd (ground arith)
          | inr apart ↦
              let (aff, there) = h.listed d needs g was has (rw apart at alive) in
              (aff, erase-other f g st.affordances apart ∙ there)
        ];
    inert = λ g aff at.
        let (off, was) = erase-some f g aff st.affordances at in
        erase-none f g st.needs (h.inert g aff was);
  }

  abbrev IsInOrder : Scene F → Type 0
  IsInOrder st = IsOwned st × IsFurnished st

  given_back-IsInOrder :
      (e f : ℕ) (mine : NeedsComp F) (st : Scene F)
      → lookup e st.needs ≡ some mine
      → mine.occupied_furniture ≡ some f
      → IsInOrder st
      → IsInOrder (stand_up e (give_back f st))
  given_back-IsInOrder e f mine st has at h = elim (give_back-cases f st) [
    | inl (dead, same) ↦
        subst (λ s. IsInOrder (stand_up e s)) (sym same)
          (gone-IsOwned e f mine st has at h.0 h.1 dead, stood-IsFurnished e st h.1)
    | inr others ↦ elim others [
      | inl same ↦
          subst (λ s. IsInOrder (stand_up e s)) (sym same)
            (
              freed-IsOwned e f mine st has at h.0 h.1,
              stood-IsFurnished e (freed f st) (freed-IsFurnished f st h.1),
            )
      | inr (alive, same) ↦
          subst (λ s. IsInOrder (stand_up e s)) (sym same)
            (
              destroyed-IsOwned e f mine st has at h.0 h.1 alive,
              stood-IsFurnished e (destroy f (freed f st))
                  (destroyed-IsFurnished f (freed f st) (freed-IsFurnished f st h.1)),
            )
    ]
  ]

  tended_to-IsInOrder :
      (e : ℕ) (mine : NeedsComp F) (toil : ToilComp) (job : JobComp F) (st : Scene F)
      → lookup e st.needs ≡ some mine
      → IsInOrder st
      → IsInOrder (tend_to e mine toil job st)
  unfolding tend_to
  tended_to-IsInOrder e mine toil job st has h = elim (Bool-cases mine.is_resolving_survival) [
    | inl busy ↦ subst IsInOrder (sym (rw (tend_to, busy))) h
    | inr free ↦ elim (Option-cases mine.occupied_furniture) [
      | inl nothing ↦ subst IsInOrder (sym (rw (tend_to, free, nothing))) h
      | inr (f, at) ↦ elim (Bool-cases (keeps toil job f st)) [
        | inl kept ↦ subst IsInOrder (sym (rw (tend_to, free, at, kept))) h
        | inr given ↦
            subst IsInOrder (sym (rw (tend_to, free, at, given)))
              (given_back-IsInOrder e f mine st has at h)
      ]
    ]
  ]

  tended-IsInOrder : (e : ℕ) (st : Scene F) → IsInOrder st → IsInOrder (tend e st)
  unfolding tend
  tended-IsInOrder e st h = elim (Option-cases (lookup e st.needs)) [
    | inl nobody ↦ subst IsInOrder (sym (rw (tend, nobody))) h
    | inr (mine, has) ↦ elim (Option-cases (lookup e st.tasks)) [
      | inl idler ↦ subst IsInOrder (sym (rw (tend, has, idler))) h
      | inr ((toil, job), task) ↦
          subst IsInOrder (sym (rw (tend, has, task)))
            (tended_to-IsInOrder e mine toil job st has h)
    ]
  ]

  all_tended-IsInOrder :
      (agents : List (ℕ × NeedsComp F)) (st : Scene F)
      → IsInOrder st
      → IsInOrder (tend_all agents st)
  unfolding tend_all
  all_tended-IsInOrder [] st h = h
  all_tended-IsInOrder ((e, needs) ∷ rest) st h =
      all_tended-IsInOrder rest (tend e st) (tended-IsInOrder e st h)

  -- If furniture is alive and without needs, and what an agent has for its furniture is in the pool
  -- when it is alive, then after SystemAffordanceResolver, whatever the occupants were before, each
  -- occupant is alive and has that very furniture for its own; and the premise holds again.
  pub resolve_affordances-IsOwned :
      (st : Scene F)
      → IsFurnished st
      → IsOwned (resolve_affordances st) × IsFurnished (resolve_affordances st)
  unfolding resolve_affordances
  resolve_affordances-IsOwned st h =
      all_tended-IsInOrder st.needs (mended_scene st) (mend-IsOwned st, mend-IsFurnished st h)
