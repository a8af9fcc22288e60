-- ===== src/Sync/Settled.antt =====
-- A batch and its acknowledgement.
use Prim.Native.String.{String}
use text.Mathlib.TextEquality.{eq_iff}
use mundus_vivens_game_serve.Common.{
  ℕ, ◌≡◌, ◌≢◌, ◌∙◌, sym, refl, ap, inl, inr, true, false, List, [], ◌∷◌, if◌then◌else◌, arith,
  Option, some, Bool-cases, Option-cases,
}
use mathlib.Core.List.{Memᴰ}
use mathlib.Core.List.Memᴰ.{head, tail}
use mathlib.Core.Path.{subst}
use mundus_vivens_game_serve.Common.Dict.{nat_eq, string_eq}
use mundus_vivens_game_serve.Agents.{LastSyncedComp, same_text}
use mundus_vivens_game_serve.Agents.Furniture.{is_some}
use mundus_vivens_game_serve.Agents.World.{World, Row}
use mundus_vivens_game_serve.Sync.{
  has_changed, is_outdated, status_of, collect_updates, synced_with, acknowledge_one,
  acknowledge_all, acknowledge, AgentStatusUpdate,
}

same_text_refl : (t : String) → same_text t t ≡ true
same_text_refl t = (eq_iff t t).1 refl

module _ {F : Type 0} (w : World F) where
  -- The world once the batch that was collected in `w` is acknowledged.
  abbrev pub acked : List ℕ → World F → World F
  acked es v = acknowledge_all (collect_updates es w) v

  abbrev pub sent : ℕ → LastSyncedComp
  sent e = synced_with (status_of (w.rows e))

  acked_changed :
      (e : ℕ) (es : List ℕ) (v : World F)
      → is_outdated (w.rows e) ≡ true
      → acked (e ∷ es) v ≡ acked es (acknowledge_one e (status_of (w.rows e)) v)
  unfolding collect_updates acknowledge_all
  acked_changed e es v h =
      ap
        (λ b.
          acknowledge_all
            (if b then (e, status_of (w.rows e)) ∷ collect_updates es w else collect_updates es w)
            v)
        h

  acked_same :
      (e : ℕ) (es : List ℕ) (v : World F)
      → is_outdated (w.rows e) ≡ false
      → acked (e ∷ es) v ≡ acked es v
  unfolding collect_updates
  acked_same e es v h =
      ap
        (λ b.
          acknowledge_all
            (if b then (e, status_of (w.rows e)) ∷ collect_updates es w else collect_updates es w)
            v)
        h

  -- What an acknowledgement leaves as it was.
  one_frame :
      (x e : ℕ) (u : AgentStatusUpdate F) (v : World F)
      → (acknowledge_one x u v).rows e
        ≡ record (v.rows e) { synced = ((acknowledge_one x u v).rows e).synced }
  unfolding acknowledge_one
  one_frame x e u v = ground arith

  one_other :
      (x e : ℕ) (u : AgentStatusUpdate F) (v : World F)
      → x ≢ e
      → (acknowledge_one x u v).rows e ≡ v.rows e
  unfolding acknowledge_one
  one_other x e u v ne = ground arith

  one_same :
      (e : ℕ) (u : AgentStatusUpdate F) (v : World F)
      → (v.rows e).is_valid ≡ true
      → is_some (v.rows e).synced ≡ true
      → ((acknowledge_one e u v).rows e).synced ≡ some (synced_with u)
  unfolding acknowledge_one
  one_same e u v valid has = ground arith

  abbrev IsSynced : ℕ → World F → Type 0
  IsSynced e v = ((v.rows e).is_valid ≡ true) × ((v.rows e).synced ≡ some (sent e))

  one-IsSynced :
      (x e : ℕ) (v : World F)
      → IsSynced e v
      → IsSynced e (acknowledge_one x (status_of (w.rows x)) v)
  unfolding acknowledge_one
  one-IsSynced x e v (valid, synced) = ground arith

  acked-IsSynced : (es : List ℕ) (e : ℕ) (v : World F) → IsSynced e v → IsSynced e (acked es v)
  unfolding collect_updates acknowledge_all
  acked-IsSynced [] e v h = h
  acked-IsSynced (x ∷ es) e v h = elim (Bool-cases (is_outdated (w.rows x))) [
    | inl changed ↦
        subst (IsSynced e) (sym (acked_changed x es v changed))
          (acked-IsSynced es e _ (one-IsSynced x e v h))
    | inr same ↦ subst (IsSynced e) (sym (acked_same x es v same)) (acked-IsSynced es e v h)
  ]

  one_reaches :
      (e : ℕ) (v : World F)
      → (v.rows e).is_valid ≡ true
      → is_some (v.rows e).synced ≡ true
      → IsSynced e (acknowledge_one e (status_of (w.rows e)) v)
  one_reaches e v valid has = (
    ap (λ r. r.is_valid) (one_frame e e (status_of (w.rows e)) v) ∙ valid,
    one_same e (status_of (w.rows e)) v valid has,
  )

  -- An entity that another's acknowledgement leaves in the pool.
  one_keeps :
      (x e : ℕ) (u : AgentStatusUpdate F) (v : World F)
      → (v.rows e).is_valid ≡ true
      → is_some (v.rows e).synced ≡ true
      → (((acknowledge_one x u v).rows e).is_valid ≡ true)
        × (is_some ((acknowledge_one x u v).rows e).synced ≡ true)
  unfolding acknowledge_one
  one_keeps x e u v valid has = ground arith

  acked_reaches :
      (es : List ℕ) (e : ℕ) (v : World F)
      → Memᴰ e es
      → is_outdated (w.rows e) ≡ true
      → (v.rows e).is_valid ≡ true
      → is_some (v.rows e).synced ≡ true
      → IsSynced e (acked es v)
  unfolding collect_updates acknowledge_all
  acked_reaches [] e v m changed valid has = elim m [ ]
  acked_reaches (x ∷ es) e v (head same) changed valid has =
      subst (λ y. IsSynced e (acked (y ∷ es) v)) same
        (subst (IsSynced e) (sym (acked_changed e es v changed))
          (acked-IsSynced es e _ (one_reaches e v valid has)))
  acked_reaches (x ∷ es) e v (tail m) changed valid has =
      elim (Bool-cases (is_outdated (w.rows x))) [
        | inl differs ↦
            let (valid', has') = one_keeps x e (status_of (w.rows x)) v valid has in
            subst (IsSynced e) (sym (acked_changed x es v differs))
              (acked_reaches es e _ m changed valid' has')
        | inr same ↦
            subst (IsSynced e) (sym (acked_same x es v same))
              (acked_reaches es e v m changed valid has)
      ]

  abbrev IsFramed : ℕ → World F → World F → Type 0
  IsFramed e v u = u.rows e ≡ record (v.rows e) { synced = (u.rows e).synced }

  IsFramed-trans : (e : ℕ) (a b c : World F) → IsFramed e a b → IsFramed e b c → IsFramed e a c
  IsFramed-trans e a b c h k =
      let with_synced : Row F → Row F = λ r. record r { synced = (c.rows e).synced } in
      k ∙ ap with_synced h

  acked_frame : (es : List ℕ) (e : ℕ) (v : World F) → IsFramed e v (acked es v)
  unfolding collect_updates acknowledge_all
  acked_frame [] e v = refl
  acked_frame (x ∷ es) e v = elim (Bool-cases (is_outdated (w.rows x))) [
    | inl differs ↦
        let u = acknowledge_one x (status_of (w.rows x)) v in
        subst (IsFramed e v) (sym (acked_changed x es v differs)) (
          IsFramed-trans e v u (acked es u) (one_frame x e (status_of (w.rows x)) v)
            (acked_frame es e u))
    | inr same ↦ subst (IsFramed e v) (sym (acked_same x es v same)) (acked_frame es e v)
  ]

  acked_untouched :
      (es : List ℕ) (e : ℕ) (v : World F)
      → is_outdated (w.rows e) ≡ false
      → (acked es v).rows e ≡ v.rows e
  unfolding collect_updates acknowledge_all
  acked_untouched [] e v h = refl
  acked_untouched (x ∷ es) e v h = elim (Bool-cases (is_outdated (w.rows x))) [
    | inl differs ↦
        let ne : x ≢ e =
          λ same. ground (arith, subst (λ y. is_outdated (w.rows y) ≡ true) same differs) in
        ap (λ u. u.rows e) (acked_changed x es v differs)
        ∙ acked_untouched es e _ h
        ∙ one_other x e (status_of (w.rows x)) v ne
    | inr same ↦ ap (λ u. u.rows e) (acked_same x es v same) ∙ acked_untouched es e v h
  ]

  -- Nothing of an entity differs from what was sent of it.
  settled :
      (e : ℕ) (v : World F)
      → v.rows e ≡ record (w.rows e) { synced = some (sent e) }
      → is_outdated (v.rows e) ≡ false
  unfolding has_changed status_of
  settled e v same = rw same (
      ground (
        arith,
        same_text_refl (w.rows e).location.location_name,
        same_text_refl (w.rows e).emotion.current_emotion,
        same_text_refl (w.rows e).activity,
      ))

  outdated_present :
      (r : Row F) → is_outdated r ≡ true → (r.is_valid ≡ true) × (is_some r.synced ≡ true)
  outdated_present r h = elim (Option-cases r.synced) [
    | inl unsynced ↦ absurd (ground arith)
    | inr (sync, has) ↦ ground arith
  ]

  acked_up_to_date : (es : List ℕ) (e : ℕ) → Memᴰ e es → is_outdated ((acked es w).rows e) ≡ false
  acked_up_to_date es e m = elim (Bool-cases (is_outdated (w.rows e))) [
    | inr same ↦ ap is_outdated (acked_untouched es e w same) ∙ same
    | inl differs ↦
        let (valid, has) = outdated_present (w.rows e) differs in
        let with_synced : Option LastSyncedComp → Row F = λ o. record (w.rows e) { synced = o } in
        settled e (acked es w)
          (acked_frame es e w ∙ ap with_synced (acked_reaches es e w m differs valid has).1)
  ]

  none_outdated :
      (es : List ℕ) (v : World F)
      → ((e : ℕ) → Memᴰ e es → is_outdated (v.rows e) ≡ false)
      → collect_updates es v ≡ []
  unfolding collect_updates
  none_outdated [] v h = refl
  none_outdated (e ∷ es) v h =
      ap (λ b. if b then (e, status_of (v.rows e)) ∷ collect_updates es v else collect_updates es v)
        (h e (head refl))
      ∙ none_outdated es v (λ f m. h f (tail m))

-- The acknowledgement of a batch writes down what was sent of an entity of the batch that is still
-- there with its record of what was sent, whatever the entity has become since, and changes nothing
-- else of it, so that a later change is still seen; if nothing has changed since, the next batch is
-- empty; and after a failure the next batch is the same.
pub acknowledge_settles :
    {F : Type 0} (es : List ℕ) (w v : World F) (e : ℕ)
    → Memᴰ e es
    → is_outdated (w.rows e) ≡ true
    → (v.rows e).is_valid ≡ true
    → is_some (v.rows e).synced ≡ true
    → ((acknowledge true (collect_updates es w) v).rows e
        ≡ record (v.rows e) { synced = some (synced_with (status_of (w.rows e))) })
      × (collect_updates es (acknowledge true (collect_updates es w) w) ≡ [])
      × (collect_updates es (acknowledge false (collect_updates es w) w) ≡ collect_updates es w)
unfolding acknowledge
acknowledge_settles {F} es w v e m differs valid has =
    let with_synced : Option LastSyncedComp → Row F = λ o. record (v.rows e) { synced = o } in
    (
      acked_frame w es e v ∙ ap with_synced (acked_reaches w es e v m differs valid has).1,
      none_outdated w es (acked w es w) (acked_up_to_date w es),
      refl,
    )
