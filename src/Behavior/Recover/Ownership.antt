-- ===== src/Behavior/Recover/Ownership.antt =====
-- Whoever has furniture is its occupant: ActionInteractFurniture from tick to tick.
use mundus_vivens_game_serve.Common.{
  ℕ, ◌≡◌, ◌∙◌, refl, ap, inl, inr, Bool, true, false, ◌&&◌, ◌==◌, List, [], ◌∷◌, arith, Option,
  none, some, Bool-cases, Option-cases,
}
use mundus_vivens_game_serve.Common.Dict.{beq_refl, nat_eq}
use mundus_vivens_game_serve.Common.Float.{Float}
use mundus_vivens_game_serve.Agents.{AffordanceComp, NeedsComp, SurvivalType}
use mundus_vivens_game_serve.Agents.Furniture.{is_some}
use mundus_vivens_game_serve.Agents.Furniture.Ownership.{some_inj}
use mundus_vivens_game_serve.Agents.World.{World, Entities, put_row}
use mundus_vivens_game_serve.Behavior.Seek.{spawn_camp, is_free, is_wild}
use mundus_vivens_game_serve.Behavior.Recover.{
  first_free, choose_furniture, take_seat, lie_down, settle_down, recharge, recovery, is_settled,
  is_resolved, release_seat, finish_recovery, interact_furniture,
}

abbrev pub occupant : Option AffordanceComp → Option ℕ
occupant none = none
occupant (some aff) = aff.occupied_by

module _ {F : Type 0} where
  -- Furniture that an entity has is valid, and has the entity for its occupant.
  abbrev pub IsOwned : World F → Type 0
  IsOwned w =
      (a g : ℕ)
      → (w.rows a).needs.occupied_furniture ≡ some g
      → ((w.rows g).is_valid ≡ true) × (occupant (w.rows g).affordance ≡ some a)

module _ (fl : Float) (ecs : Entities fl.F) where
  open fl use {F}

  -- An agent is no furniture; a created entity is a new one.
  pub record IsAgent (e : ℕ) (w : World F) : Type 0 where
    pub agent_valid : (w.rows e).is_valid ≡ true
    pub no_furniture : (w.rows e).affordance ≡ none
    pub fresh_invalid : (w.rows (ecs.fresh w)).is_valid ≡ false

  spawn_camp-IsOwned :
      (e : ℕ) (b : Bool) (w : World F)
      → IsAgent e w
      → IsOwned w
      → IsOwned (spawn_camp fl ecs b (w.rows e).location w).1
  unfolding spawn_camp
  spawn_camp-IsOwned e b w ag h a g c = ground (arith, h a g, ag.fresh_invalid)

  take_seat-IsOwned :
      (e f : ℕ) (w : World F)
      → (w.rows e).affordance ≡ none
      → (w.rows f).is_valid ≡ true
      → is_some (w.rows f).affordance ≡ true
      → occupant (w.rows f).affordance ≡ none
      → IsOwned w
      → IsOwned (take_seat fl ecs e f w)
  unfolding take_seat
  take_seat-IsOwned e f w inert valid furn empty h a g c = ground (arith, h a g)

  -- What the search finds is valid and unoccupied.
  pub IsVacant : ℕ → World F → Type 0
  IsVacant f w =
      ((w.rows f).is_valid ≡ true)
      × (is_some (w.rows f).affordance ≡ true)
      × (occupant (w.rows f).affordance ≡ none)

  free_vacant :
      (need : SurvivalType) (b c : Bool) (aff : Option AffordanceComp)
      → b && c && is_free fl ecs need aff ≡ true
      → (b ≡ true) × (is_some aff ≡ true) × (occupant aff ≡ none)
  free_vacant need b c none h = ground arith
  free_vacant need b c (some aff) h = ground arith

  first_free-IsVacant :
      (need : SurvivalType) (zone : ℕ) (fs : List ℕ) (w : World F) (f : ℕ)
      → first_free fl ecs need zone fs w ≡ some f
      → IsVacant f w
  unfolding first_free IsVacant
  first_free-IsVacant need zone [] w f h = absurd (ground arith)
  first_free-IsVacant need zone (g ∷ rest) w f h =
      elim (Bool-cases (
        (w.rows g).is_valid
        && ((w.rows g).location.zone_id == zone)
        && is_free fl ecs need (w.rows g).affordance)) [
          | inl fits ↦
              let same : some g ≡ some f = rw fits at h in
              let here : g ≡ f = some_inj same in
              rw here at (
                free_vacant need (w.rows g).is_valid ((w.rows g).location.zone_id == zone)
                  (w.rows g).affordance fits)
          | inr unfit ↦ first_free-IsVacant need zone rest w f (rw unfit at h)
        ]

  spawn_camp-IsVacant :
      (e : ℕ) (b : Bool) (w : World F)
      → IsVacant
          (spawn_camp fl ecs b (w.rows e).location w).0
          (spawn_camp fl ecs b (w.rows e).location w).1
  unfolding spawn_camp IsVacant
  spawn_camp-IsVacant e b w = ground arith

  spawn_camp_keeps :
      (e : ℕ) (b : Bool) (w : World F)
      → IsAgent e w
      → (spawn_camp fl ecs b (w.rows e).location w).1.rows e ≡ w.rows e
  unfolding spawn_camp
  spawn_camp_keeps e b w ag = ground (arith, ag.agent_valid, ag.fresh_invalid)

  abbrev IsChosen : ℕ → World F → Option ℕ × World F → Type 0
  IsChosen e w (none, after) = IsOwned after × (after.rows e ≡ w.rows e)
  IsChosen e w (some f, after) = IsOwned after × (after.rows e ≡ w.rows e) × IsVacant f after

  choose_furniture-IsChosen :
      (e : ℕ) (w : World F) → IsAgent e w → IsOwned w → IsChosen e w (choose_furniture fl ecs e w)
  unfolding choose_furniture
  choose_furniture-IsChosen e w ag h =
      let r = w.rows e in
      elim (Option-cases
        (first_free fl ecs r.needs.current_survival_type r.location.zone_id (ecs.visit w) w)) [
          | inr (f, found) ↦
              rw (choose_furniture, found)
                (h, refl, first_free-IsVacant _ _ (ecs.visit w) w f found)
          | inl nothing ↦ elim (Bool-cases (is_wild r.location.location_name)) [
            | inl wild ↦
                rw (choose_furniture, nothing, wild)
                  (
                    spawn_camp-IsOwned e _ w ag h,
                    spawn_camp_keeps e _ w ag,
                    spawn_camp-IsVacant e _ w,
                  )
            | inr tame ↦ rw (choose_furniture, nothing, tame) (h, refl)
          ]
        ]

  settle_down_on :
      (e : ℕ) (w : World F) (chosen : Option ℕ × World F)
      → (w.rows e).affordance ≡ none
      → IsChosen e w chosen
      → IsOwned (elim chosen.0 [
        | some f ↦ take_seat fl ecs e f chosen.1
        | none ↦ put_row e (lie_down fl ecs (chosen.1.rows e)) chosen.1
      ])
  unfolding lie_down IsVacant
  settle_down_on e w (none, after) inert (h, same) = λ a g c. ground (arith, h a g)
  settle_down_on e w (some f, after) inert (h, same, vacant) =
      take_seat-IsOwned e f after (ap (λ r. r.affordance) same ∙ inert) vacant.0 vacant.1 vacant.2 h

  settle_down-IsOwned :
      (e : ℕ) (w : World F) → IsAgent e w → IsOwned w → IsOwned (settle_down fl ecs e w)
  unfolding settle_down
  settle_down-IsOwned e w ag h =
      settle_down_on e w (choose_furniture fl ecs e w) ag.no_furniture
        (choose_furniture-IsChosen e w ag h)

  finish_recovery-IsOwned :
      (e : ℕ) (w : World F)
      → (w.rows e).affordance ≡ none
      → IsOwned w
      → IsOwned (finish_recovery fl ecs e w)
  unfolding finish_recovery release_seat
  finish_recovery-IsOwned e w inert h a g c =
      elim (Option-cases (w.rows e).needs.occupied_furniture) [
        | inl nothing ↦ ground (arith, h a g)
        | inr (f, seat) ↦ ground (arith, h a g, h e f seat)
      ]

  recharge-seat :
      (amount : F) (needs : NeedsComp F)
      → (recharge fl ecs amount needs).occupied_furniture ≡ needs.occupied_furniture
  unfolding recharge
  recharge-seat amount needs = refl

  charged-IsOwned :
      (e : ℕ) (needs : NeedsComp F) (w : World F)
      → needs.occupied_furniture ≡ (w.rows e).needs.occupied_furniture
      → IsOwned w
      → IsOwned (put_row e (record (w.rows e) { needs = needs }) w)
  charged-IsOwned e needs w same h a g c = ground (arith, h a g)

  -- Whatever one call of ActionInteractFurniture does, it keeps this true of all entities: the
  -- furniture that an entity has is valid, and that entity is its occupant. So no two entities
  -- have the same furniture, and a camp that is taken down was no one else's.
  pub interact_furniture-IsOwned :
      (e : ℕ) (w : World F) → IsAgent e w → IsOwned w → IsOwned (interact_furniture fl ecs e w).1
  unfolding interact_furniture
  interact_furniture-IsOwned e w ag h =
      let r = w.rows e in
      let needs =
        recharge fl ecs (recovery fl ecs r.needs.current_survival_type r.needs.occupied_furniture w)
          r.needs in
      let charged = put_row e (record r { needs = needs }) w in
      let owned = charged-IsOwned e needs w (recharge-seat _ r.needs) h in
      elim (Bool-cases (is_settled fl ecs r)) [
        | inr newly ↦ rw (interact_furniture, newly) (settle_down-IsOwned e w ag h)
        | inl settled ↦ elim (Bool-cases (is_resolved fl ecs needs)) [
          | inl done ↦
              rw (interact_furniture, settled, done)
                (finish_recovery-IsOwned e charged (rw (beq_refl e) ag.no_furniture) owned)
          | inr more ↦ rw (interact_furniture, settled, more) owned
        ]
      ]
