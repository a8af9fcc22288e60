-- ===== src/Agents/Furniture/Release.antt =====
-- Furniture that is given back.
use mathlib.Core.Option
use mundus_vivens_game_serve.Common.{
  ℕ, ◌≡◌, refl, sym, ap, ◌∙◌, ◌⊎◌, inl, inr, true, false, Option, none, some, List, ◌==◌, ==_iff,
  arith, Bool-cases,
}
use mundus_vivens_game_serve.Common.Dict.{
  nat_eq, lookup, erase, adjust, lookup-erase, lookup-adjust,
}
use mundus_vivens_game_serve.Agents.{NeedsComp, AffordanceComp}
use mundus_vivens_game_serve.Agents.Furniture.{
  Scene, claims, destroy, give_back, stand_up, vacate, is_makeshift,
}
use mundus_vivens_game_serve.Agents.Furniture.Ownership.{IsOwned, IsFurnished, some_inj}

module _ {V : Type 0} where
  pub adjust-at :
      (k j : ℕ) (f : V → V) (m : List (ℕ × V))
      → (k == j) ≡ true
      → lookup j (adjust k f m) ≡ Option.map f (lookup j m)
  adjust-at k j f m e = lookup-adjust k j f m ∙ rw e

  pub adjust-other :
      (k j : ℕ) (f : V → V) (m : List (ℕ × V))
      → (k == j) ≡ false
      → lookup j (adjust k f m) ≡ lookup j m
  adjust-other k j f m e = lookup-adjust k j f m ∙ rw e

  pub adjust-none :
      (k j : ℕ) (f : V → V) (m : List (ℕ × V)) → lookup j m ≡ none → lookup j (adjust k f m) ≡ none
  adjust-none k j f m h = elim (Bool-cases (k == j)) [
    | inl e ↦ adjust-at k j f m e ∙ ap (Option.map f) h
    | inr e ↦ adjust-other k j f m e ∙ h
  ]

  pub erase-some :
      (k j : ℕ) (v : V) (m : List (ℕ × V))
      → lookup j (erase k m) ≡ some v
      → ((k == j) ≡ false) × (lookup j m ≡ some v)
  erase-some k j v m h = elim (Bool-cases (k == j)) [
    | inl e ↦
        let gone : none ≡ some v = rw e at (sym (lookup-erase k j m) ∙ h) in absurd (ground arith)
    | inr e ↦ (e, rw e at (sym (lookup-erase k j m) ∙ h))
  ]

  pub erase-other :
      (k j : ℕ) (m : List (ℕ × V)) → (k == j) ≡ false → lookup j (erase k m) ≡ lookup j m
  erase-other k j m e = lookup-erase k j m ∙ rw e

  pub erase-none : (k j : ℕ) (m : List (ℕ × V)) → lookup j m ≡ none → lookup j (erase k m) ≡ none
  erase-none k j m h = elim (Bool-cases (k == j)) [
    | inl e ↦ lookup-erase k j m ∙ rw e
    | inr e ↦ erase-other k j m e ∙ h
  ]

  pub adjust-some :
      (k j : ℕ) (f : V → V) (m : List (ℕ × V)) (v : V)
      → lookup j m ≡ some v
      → (w : V) × (lookup j (adjust k f m) ≡ some w)
  adjust-some k j f m v h = elim (Bool-cases (k == j)) [
    | inl e ↦ (f v, adjust-at k j f m e ∙ ap (Option.map f) h)
    | inr e ↦ (v, adjust-other k j f m e ∙ h)
  ]

  holder_apart :
      (f e : ℕ) (m : List (ℕ × V)) {v : V}
      → lookup f m ≡ none
      → lookup e m ≡ some v
      → (f == e) ≡ false
  holder_apart f e m {v} h k = elim (Bool-cases (f == e)) [
    | inl is ↦
        let same : f ≡ e = (==_iff f e).0 is in
        let gone : none ≡ some v = sym (rw same at h) ∙ k in absurd (ground arith)
    | inr apart ↦ apart
  ]

pub map-some {ℓ} :
    {A : Type ℓ} (f : A → A) (o : Option A) (b : A)
    → Option.map f o ≡ some b
    → (a : A) × (o ≡ some a) × (f a ≡ b)
map-some f none b h = absurd (ground arith)
map-some f (some a) b h = (a, refl, some_inj h)

vacated-some :
    (f g : ℕ) (aff : AffordanceComp) (d : ℕ) (affs : List (ℕ × AffordanceComp))
    → lookup g (adjust f vacate affs) ≡ some aff
    → aff.occupied_by ≡ some d
    → ((f == g) ≡ false) × (lookup g affs ≡ some aff)
vacated-some f g aff d affs at occ = elim (Bool-cases (f == g)) [
  | inl e ↦
      let (b, was, is) =
        map-some vacate (lookup g affs) aff (sym (adjust-at f g vacate affs e) ∙ at) in
      let empty : none ≡ some d = ap (λ a. a.occupied_by) is ∙ occ in absurd (ground arith)
  | inr e ↦ (e, sym (adjust-other f g vacate affs e) ∙ at)
]

pub vacated-listed :
    (f g : ℕ) (aff : AffordanceComp) (affs : List (ℕ × AffordanceComp))
    → lookup g (adjust f vacate affs) ≡ some aff
    → (before : AffordanceComp) × (lookup g affs ≡ some before)
vacated-listed f g aff affs at = elim (Bool-cases (f == g)) [
  | inl e ↦
      let (b, was, is) =
        map-some vacate (lookup g affs) aff (sym (adjust-at f g vacate affs e) ∙ at) in
      (b, was)
  | inr e ↦ (aff, sym (adjust-other f g vacate affs e) ∙ at)
]

module _ {F : Type 0} where
  abbrev pub cleared : NeedsComp F → NeedsComp F
  cleared needs = record needs { occupied_furniture = none }

  -- A claim on other furniture is not touched by one who stands up.
  claims-stand_up :
      (e d f g : ℕ) (mine : NeedsComp F) (needs : List (ℕ × NeedsComp F))
      → lookup e needs ≡ some mine
      → mine.occupied_furniture ≡ some f
      → (f == g) ≡ false
      → claims g (lookup d needs) ≡ true
      → claims g (lookup d (adjust e cleared needs)) ≡ true
  claims-stand_up e d f g mine needs has at other h = elim (Bool-cases (e == d)) [
    | inl is ↦
        let same : e ≡ d = (==_iff e d).0 is in
        let mine_too : claims g (some mine) ≡ true = ap (claims g) (sym (rw same at has)) ∙ h in
        let own : (f == g) ≡ true = rw at at mine_too in cc (own, other)
    | inr apart ↦ ap (claims g) (adjust-other e d cleared needs apart) ∙ h
  ]

  abbrev pub freed : ℕ → Scene F → Scene F
  freed f st = record st { affordances = adjust f vacate st.affordances }

  pub give_back-cases :
      (f : ℕ) (st : Scene F)
      → ((st.is_alive f ≡ false) × (give_back f st ≡ st))
        ⊎ (give_back f st ≡ freed f st)
        ⊎ (st.is_alive f ≡ true) × (give_back f st ≡ destroy f (freed f st))
  unfolding give_back
  give_back-cases f st = elim (Bool-cases (st.is_alive f)) [
    | inr dead ↦ inl (dead, rw dead)
    | inl alive ↦ elim (Bool-cases (is_makeshift (lookup f st.display_names))) [
      | inl e ↦ inr (inr (alive, rw (alive, e)))
      | inr e ↦ inr (inl (rw (alive, e)))
    ]
  ]

  -- Whoever has furniture and gives it back.
  module _ (e f : ℕ) (mine : NeedsComp F) (st : Scene F) (has : lookup e st.needs ≡ some mine)
      (at : mine.occupied_furniture ≡ some f) (owns : IsOwned st) (furnished : IsFurnished st) where
    pub freed-IsOwned : IsOwned (stand_up e (freed f st))
    freed-IsOwned = record {
      owned = λ g aff d here occ.
          let (apart, was) = vacated-some f g aff d st.affordances here occ in
          let (alive, claim) = owns.owned g aff d was occ in
          (alive, claims-stand_up e d f g mine st.needs has at apart claim);
    }

    -- With the furniture gone already.
    pub gone-IsOwned : st.is_alive f ≡ false → IsOwned (stand_up e st)
    gone-IsOwned dead = record {
      owned = λ g aff d here occ.
          let (alive, claim) = owns.owned g aff d here occ in
          elim (Bool-cases (f == g)) [
            | inl is ↦
                let same : f ≡ g = (==_iff f g).0 is in
                let stands : st.is_alive f ≡ true =
                  ap st.is_alive same ∙ furnished.standing g aff here in
                cc (dead, stands)
            | inr apart ↦ (alive, claims-stand_up e d f g mine st.needs has at apart claim)
          ];
    }

    -- The furniture is taken down: it has no needs, so it is nobody's occupant.
    pub destroyed-IsOwned : st.is_alive f ≡ true → IsOwned (stand_up e (destroy f (freed f st)))
    unfolding destroy
    destroyed-IsOwned alive_f = record {
      owned = λ g aff d here occ.
          let (off, there) = erase-some f g aff (adjust f vacate st.affordances) here in
          let (apart, was) = vacated-some f g aff d st.affordances there occ in
          let (alive, claim) = owns.owned g aff d was occ in
          let (piece, listed) = furnished.listed e mine f has at alive_f in
          let no_needs = furnished.inert f piece listed in
          elim (Bool-cases (f == d)) [
            | inl is ↦
                let same : f ≡ d = (==_iff f d).0 is in
                let nobody : claims g (lookup d st.needs) ≡ false =
                  rw same at (ap (claims g) no_needs) in
                cc (claim, nobody)
            | inr other ↦ (
              rw other alive,
              claims-stand_up e d f g mine (erase f st.needs)
                  (erase-other f e st.needs (holder_apart f e st.needs no_needs has) ∙ has) at apart
                  (ap (claims g) (erase-other f d st.needs other) ∙ claim),
            )
          ];
    }
