-- ===== src/Grid/Route/Trail.antt =====
-- Trails: parents that lead back to the start, over legal moves and with falling scores.
use mundus_vivens_game_serve.Common.{
  ℕ, ◌≤◌, ◌≡◌, ◌≢◌, ◌∙◌, inl, inr, true, false, none, some, List, ◌==◌, arith, Bool-cases, ==_iff,
}
use mundus_vivens_game_serve.Common.Float.{Float}
use mundus_vivens_game_serve.Common.Int.{pos}
use mundus_vivens_game_serve.Grid.{
  Cell, Field, InField, index, index_inj, is_walkable, is_walkable-InField,
}
use mundus_vivens_game_serve.Grid.Sight.{abs_diff}
use mundus_vivens_game_serve.Grid.Route.{Scores, write}
use mundus_vivens_game_serve.Grid.Route.Laws.{FloatLaws}

-- A legal move: to a walkable tile beside or diagonally beside `p`, and if diagonally then past
-- two walkable tiles, so that no corner is cut.
pub record Edge (grid : Field) (p c : Cell) : Type 0 where
  pub apart : p ≢ c
  pub x_near : abs_diff p.0 c.0 ≤ 1
  pub z_near : abs_diff p.1 c.1 ≤ 1
  pub free : is_walkable grid (pos c.0) (pos c.1) ≡ true
  pub corners :
      p.0 ≢ c.0
      → p.1 ≢ c.1
      → (is_walkable grid (pos c.0) (pos p.1) ≡ true)
        × (is_walkable grid (pos p.0) (pos c.1) ≡ true)

pub Edge-InField : (grid : Field) (p c : Cell) → Edge grid p c → InField c
Edge-InField grid p c e = (is_walkable-InField grid (pos c.0) (pos c.1) e.free).2

module _ (fl : Float) (laws : FloatLaws fl) (grid : Field) (start : Cell)
    (inside : InField start) where
  open fl use {F, lt}
  open laws use {IsNumber, lt_irrefl, lt_trans}

  pub data Trail (sc : Scores F) : Cell → Type 0 where
    root : {c : Cell} → c ≡ start → sc.parent (index c) ≡ none → Trail sc c
    link :
        {c : Cell} (p : Cell)
        → sc.parent (index c) ≡ some p
        → Edge grid p c
        → lt (sc.g_score (index p)) (sc.g_score (index c)) ≡ true
        → Trail sc p
        → Trail sc c

  pub Trail-InField : {sc : Scores F} {c : Cell} → Trail sc c → InField c
  Trail-InField (root e _) = rw e inside
  Trail-InField {c} (link p _ e _ _) = Edge-InField grid p c e

  -- The scores after a better way to `n`, through `curr`, is recorded.
  module _ (sc : Scores F) (curr n : Cell) (tentative : F) (visited : List ℕ)
      (numbers : (i : ℕ) → IsNumber (sc.g_score i)) (number : IsNumber tentative)
      (better : lt tentative (sc.g_score (index n)) ≡ true) where
    abbrev pub relaxed : Scores F
    relaxed = record {
      g_score = write sc.g_score (index n) tentative;
      parent = write sc.parent (index n) (some curr);
      visited_nodes = visited;
    }

    pub relaxed-numbers : (i : ℕ) → IsNumber (relaxed.g_score i)
    relaxed-numbers i = elim (Bool-cases (index n == i)) [
      | inl e ↦ rw e number
      | inr e ↦ rw e (numbers i)
    ]

    pub at_n :
        (i : ℕ) → index n ≡ i → (relaxed.g_score i ≡ tentative) × (relaxed.parent i ≡ some curr)
    at_n i e = (ground arith, ground arith)

    elsewhere :
        (i : ℕ)
        → (index n == i) ≡ false
        → (relaxed.g_score i ≡ sc.g_score i) × (relaxed.parent i ≡ sc.parent i)
    elsewhere i e = (rw e, rw e)

    -- A tile with a lower score than the new one is not `n`.
    cheaper_elsewhere : (i : ℕ) → lt (sc.g_score i) tentative ≡ true → (index n == i) ≡ false
    cheaper_elsewhere i h = elim (Bool-cases (index n == i)) [
      | inl e ↦
          let same : index n ≡ i = (==_iff (index n) i).0 e in
          let loop : lt (sc.g_score i) (sc.g_score i) ≡ true =
            lt_trans _ _ _ (numbers i) number (numbers i) h (rw same at better) in
          cc (lt_irrefl (sc.g_score i) (numbers i))
      | inr e ↦ e
    ]

    -- No score has risen.
    pub below-relaxed :
        (i : ℕ) (v : F) → IsNumber v → lt (sc.g_score i) v ≡ true → lt (relaxed.g_score i) v ≡ true
    below-relaxed i v hv h = elim (Bool-cases (index n == i)) [
      | inl e ↦
          let same : index n ≡ i = (==_iff (index n) i).0 e in
          let lower : lt tentative (sc.g_score i) ≡ true = rw same at better in
          rw (at_n i same).0 (lt_trans _ _ _ number (numbers i) hv lower h)
      | inr e ↦ rw (elsewhere i e).0 h
    ]

    pub not_below-relaxed :
        (i : ℕ) (v : F)
        → IsNumber v
        → lt v (sc.g_score i) ≡ false
        → lt v (relaxed.g_score i) ≡ false
    not_below-relaxed i v hv h = elim (Bool-cases (lt v (relaxed.g_score i))) [
      | inl e ↦ elim (Bool-cases (index n == i)) [
        | inl at ↦
            let same : index n ≡ i = (==_iff (index n) i).0 at in
            let lower : lt tentative (sc.g_score i) ≡ true = rw same at better in
            let passed : lt v tentative ≡ true = rw (at_n i same).0 at e in
            cc (lt_trans _ _ _ hv number (numbers i) passed lower)
        | inr off ↦ cc (elsewhere i off).0
      ]
      | inr e ↦ e
    ]

    Trail-cheaper :
        {q : Cell} → Trail sc q → lt (sc.g_score (index q)) tentative ≡ true → Trail relaxed q
    Trail-cheaper {q} (root e none_above) h =
        root e ((elsewhere (index q) (cheaper_elsewhere (index q) h)).1 ∙ none_above)
    Trail-cheaper {q} (link p e edge falls t) h =
        let hp : lt (sc.g_score (index p)) tentative ≡ true =
          lt_trans _ _ _ (numbers (index p)) (numbers (index q)) number falls h in
        let kq = elsewhere (index q) (cheaper_elsewhere (index q) h) in
        let kp = elsewhere (index p) (cheaper_elsewhere (index p) hp) in
        link p (kq.1 ∙ e) edge (rw (kp.0, kq.0) falls) (Trail-cheaper t hp)

    module _ (edge : Edge grid curr n) (rises : lt (sc.g_score (index curr)) tentative ≡ true)
        (way : Trail sc curr) where
      pub Trail-new : {m : Cell} → index n ≡ index m → InField m → Trail relaxed m
      Trail-new {m} e hm =
          let same : n ≡ m = index_inj n m (Edge-InField grid curr n edge) hm e in
          let kc = elsewhere (index curr) (cheaper_elsewhere (index curr) rises) in
          let (gm, pm) = at_n (index m) e in
          link curr pm (rw same at edge) (rw (kc.0, gm) rises) (Trail-cheaper way rises)

      pub Trail-relaxed : {m : Cell} → Trail sc m → Trail relaxed m
      Trail-relaxed {m} (root e none_above) = elim (Bool-cases (index n == index m)) [
        | inl same ↦ Trail-new ((==_iff _ _).0 same) (rw e inside)
        | inr other ↦ root e ((elsewhere (index m) other).1 ∙ none_above)
      ]
      Trail-relaxed {m} (link p e step falls t) = elim (Bool-cases (index n == index m)) [
        | inl same ↦ Trail-new ((==_iff _ _).0 same) (Edge-InField grid p m step)
        | inr other ↦
            let k = elsewhere (index m) other in
            link p (k.1 ∙ e) step (rw k.0 (below-relaxed (index p) _ (numbers (index m)) falls))
              (Trail-relaxed t)
      ]
