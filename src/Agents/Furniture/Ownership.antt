-- ===== src/Agents/Furniture/Ownership.antt =====
-- Who has which furniture, and the first loop of SystemAffordanceResolver.
use mundus_vivens_game_serve.Common.{
  ℕ, ◌≡◌, refl, sym, ap, ◌∙◌, inl, inr, Bool, true, ◌&&◌, Option, none, some, List, [], ◌∷◌, ◌==◌,
  ==_iff, if◌then◌else◌, arith, Bool-cases,
}
use mundus_vivens_game_serve.Common.Dict.{nat_eq, lookup}
use mundus_vivens_game_serve.Agents.{NeedsComp, AffordanceComp}
use mundus_vivens_game_serve.Agents.Furniture.{Scene, claims, is_held, mend, vacate}

pub some_inj {ℓ} : {A : Type ℓ} {a b : A} → some a ≡ some b → a ≡ b
some_inj {a} h = ap (λ o. elim o [ none ↦ a | some c ↦ c ]) h

module _ {F : Type 0} where
  -- What the occupants' list says of one piece of furniture.
  abbrev pub occupant : ℕ → Scene F → Option ℕ
  occupant f st = elim (lookup f st.affordances) [ none ↦ none | some aff ↦ aff.occupied_by ]

  pub record IsOwned (st : Scene F) : Type 0 where
    -- An occupant is alive, and has the furniture as its own.
    pub owned :
        (f : ℕ) (aff : AffordanceComp) (e : ℕ)
        → lookup f st.affordances ≡ some aff
        → aff.occupied_by ≡ some e
        → (st.is_alive e ≡ true) × (claims f (lookup e st.needs) ≡ true)

  -- The pools: furniture is alive, and has no needs itself.
  pub record IsFurnished (st : Scene F) : Type 0 where
    pub standing :
        (f : ℕ) (aff : AffordanceComp) → lookup f st.affordances ≡ some aff → st.is_alive f ≡ true
    -- Living furniture that someone has is in the pool.
    pub listed :
        (e : ℕ) (needs : NeedsComp F) (f : ℕ)
        → lookup e st.needs ≡ some needs
        → needs.occupied_furniture ≡ some f
        → st.is_alive f ≡ true
        → (aff : AffordanceComp) × (lookup f st.affordances ≡ some aff)
    pub inert :
        (f : ℕ) (aff : AffordanceComp)
        → lookup f st.affordances ≡ some aff
        → lookup f st.needs ≡ none

  abbrev mended : (ℕ → Bool) → List (ℕ × NeedsComp F) → ℕ → AffordanceComp → AffordanceComp
  mended is_alive needs f aff = if is_held is_alive needs f aff.occupied_by then aff else vacate aff

  lookup-mend :
      (is_alive : ℕ → Bool) (needs : List (ℕ × NeedsComp F)) (affs : List (ℕ × AffordanceComp))
      (f : ℕ) (aff : AffordanceComp)
      → lookup f (mend is_alive needs affs) ≡ some aff
      → (before : AffordanceComp) × (lookup f affs ≡ some before)
        × (aff ≡ mended is_alive needs f before)
  unfolding mend
  lookup-mend is_alive needs [] f aff h = absurd (ground arith)
  lookup-mend is_alive needs ((g, b) ∷ rest) f aff h = elim (Bool-cases (g == f)) [
    | inl e ↦
        let same : g ≡ f = (==_iff g f).0 e in
        let here : some (mended is_alive needs g b) ≡ some aff = rw e at h in
        (b, rw e refl, rw same at (sym (some_inj here)))
    | inr e ↦
        let there : lookup f (mend is_alive needs rest) ≡ some aff = rw e at h in
        let (before, at, is) = lookup-mend is_alive needs rest f aff there in (before, rw e at, is)
  ]

  held-parts :
      (is_alive : ℕ → Bool) (needs : List (ℕ × NeedsComp F)) (f e : ℕ) (o : Option ℕ)
      → is_held is_alive needs f o ≡ true
      → o ≡ some e
      → (is_alive e ≡ true) × (claims f (lookup e needs) ≡ true)
  held-parts is_alive needs f e none h k = absurd (ground arith)
  held-parts is_alive needs f e (some d) h k =
      let same : d ≡ e = some_inj k in
      let both : is_alive e && claims f (lookup e needs) ≡ true = rw same at h in
      (ground arith, ground arith)

  mended-owned :
      (is_alive : ℕ → Bool) (needs : List (ℕ × NeedsComp F)) (f e : ℕ) (before : AffordanceComp)
      → (mended is_alive needs f before).occupied_by ≡ some e
      → (is_alive e ≡ true) × (claims f (lookup e needs) ≡ true)
  mended-owned is_alive needs f e before h =
      elim (Bool-cases (is_held is_alive needs f before.occupied_by)) [
        | inl held ↦ held-parts is_alive needs f e before.occupied_by held (rw held at h)
        | inr lost ↦ let gone : none ≡ some e = rw lost at h in absurd (ground arith)
      ]

  abbrev pub mended_scene : Scene F → Scene F
  mended_scene st = record st { affordances = mend st.is_alive st.needs st.affordances }

  pub mend-IsOwned : (st : Scene F) → IsOwned (mended_scene st)
  mend-IsOwned st = record {
    owned = λ f aff e at occ.
        let (before, was, is) = lookup-mend st.is_alive st.needs st.affordances f aff at in
        mended-owned st.is_alive st.needs f e before (ap (λ a. a.occupied_by) (sym is) ∙ occ);
  }

  lookup-mend-some :
      (is_alive : ℕ → Bool) (needs : List (ℕ × NeedsComp F)) (affs : List (ℕ × AffordanceComp))
      (f : ℕ) (aff : AffordanceComp)
      → lookup f affs ≡ some aff
      → lookup f (mend is_alive needs affs) ≡ some (mended is_alive needs f aff)
  unfolding mend
  lookup-mend-some is_alive needs [] f aff h = absurd (ground arith)
  lookup-mend-some is_alive needs ((g, b) ∷ rest) f aff h = elim (Bool-cases (g == f)) [
    | inl e ↦
        let same : g ≡ f = (==_iff g f).0 e in
        let here : some b ≡ some aff = rw e at h in rw (e, some_inj here, same) refl
    | inr e ↦
        let there : lookup f rest ≡ some aff = rw e at h in
        rw e (lookup-mend-some is_alive needs rest f aff there)
  ]

  pub mend-IsFurnished : (st : Scene F) → IsFurnished st → IsFurnished (mended_scene st)
  mend-IsFurnished st h = record {
    standing = λ f aff at.
        let (before, was, is) = lookup-mend st.is_alive st.needs st.affordances f aff at in
        h.standing f before was;
    listed = λ e needs f at has alive.
        let (aff, was) = h.listed e needs f at has alive in
        (
          mended st.is_alive st.needs f aff,
          lookup-mend-some st.is_alive st.needs st.affordances f aff was,
        );
    inert = λ f aff at.
        let (before, was, is) = lookup-mend st.is_alive st.needs st.affordances f aff at in
        h.inert f before was;
  }
