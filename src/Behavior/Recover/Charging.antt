-- ===== src/Behavior/Recover/Charging.antt =====
-- How a need is met: from the tick after the agent has settled to the one in which it is done.
use mathlib.Core.Path.{subst}
use mundus_vivens_game_serve.Common.{
  ℕ, zero, suc, ◌<◌, ◌≡◌, ◌≢◌, ◌⊎◌, ◌∙◌, sym, refl, ap, Bool, true, false, not, [], ◌∷◌, ◌++◌,
  if◌then◌else◌, arith, Option, none, some,
}
use mundus_vivens_game_serve.Common.Dict.{beq_refl, beq_ne, nat_eq}
use mundus_vivens_game_serve.Common.Float.{Float}
use mundus_vivens_game_serve.Agents.{NeedsComp, SurvivalType, no_need, hunger_need, fatigue_need}
use mundus_vivens_game_serve.Agents.Furniture.{vacate}
use mundus_vivens_game_serve.Agents.Tree.{NodeStatus, success, running}
use mundus_vivens_game_serve.Agents.World.{World, Entities, put_row, report_job_status}
use mundus_vivens_game_serve.Behavior.Recover.Finish.{
  IsGivenBack, IsRecovered, given_back, finish-IsRecovered, finish-calls,
}
use mundus_vivens_game_serve.Behavior.Recover.{
  map_affordance, settle_down, fill_up, recharge, recovery, is_settled, is_resolved,
  finish_recovery, interact_furniture, is_camp,
}

-- The need that is cared for; the other components of the needs stay out of it.
abbrev pub level : {F : Type 0} → SurvivalType → NeedsComp F → F
level no_need needs = needs.hunger
level hunger_need needs = needs.hunger
level fatigue_need needs = needs.fatigue

abbrev pub IsNeed : SurvivalType → Type 0
IsNeed need = (need ≡ hunger_need) ⊎ (need ≡ fatigue_need)

module _ (fl : Float) (ecs : Entities fl.F) (e : ℕ) (need : SurvivalType) (amount : fl.F) where
  open fl use {F, le, dec}

  -- The agent has settled, and one tick gives it the amount.
  pub record IsResting (v : F) (w : World F) : Type 0 where
    pub need_is : (w.rows e).needs.current_survival_type ≡ need
    pub level_is : level need (w.rows e).needs ≡ v
    pub settled : is_settled fl ecs (w.rows e) ≡ true
    pub amount_is : recovery fl ecs need (w.rows e).needs.occupied_furniture w ≡ amount

  recharge-level :
      (needs : NeedsComp F)
      → IsNeed need
      → needs.current_survival_type ≡ need
      → level need (recharge fl ecs amount needs) ≡ fill_up fl ecs (level need needs) amount
  unfolding recharge
  recharge-level needs h is = ground (arith, h)

  resolved_at :
      (needs : NeedsComp F)
      → IsNeed need
      → needs.current_survival_type ≡ need
      → is_resolved fl ecs needs ≡ le (dec 95 0) (level need needs)
  unfolding is_resolved
  resolved_at needs h is = ground (arith, h)

  recharge-need :
      (needs : NeedsComp F)
      → needs.current_survival_type ≡ need
      → (recharge fl ecs amount needs).current_survival_type ≡ need
  unfolding recharge
  recharge-need needs h = h

  abbrev charged : F → World F → World F
  charged a w = put_row e (record (w.rows e) { needs = recharge fl ecs a (w.rows e).needs }) w

  abbrev outcome : Bool → F → World F → NodeStatus × World F
  outcome done a w =
      if done then (success, finish_recovery fl ecs e (charged a w)) else (running, charged a w)

  -- One tick of it.
  charges :
      (v : F) (w : World F)
      → IsNeed need
      → IsResting v w
      → interact_furniture fl ecs e w ≡ outcome (le (dec 95 0) (fill_up fl ecs v amount)) amount w
  unfolding interact_furniture
  charges v w h r =
      let needs = (w.rows e).needs in
      let given : recovery fl ecs needs.current_survival_type needs.occupied_furniture w ≡ amount =
        subst (λ n. recovery fl ecs n needs.occupied_furniture w ≡ amount) (sym r.need_is)
          r.amount_is in
      let gained : level need (recharge fl ecs amount needs) ≡ fill_up fl ecs v amount =
        recharge-level needs h r.need_is ∙ ap (λ l. fill_up fl ecs l amount) r.level_is in
      let done : is_resolved fl ecs (recharge fl ecs amount needs)
          ≡ le (dec 95 0) (fill_up fl ecs v amount) =
        resolved_at (recharge fl ecs amount needs) h (recharge-need needs r.need_is)
        ∙ ap (le (dec 95 0)) gained in
      ap
        (λ b.
          if not b
          then (running, settle_down fl ecs e w)
          else outcome
              (is_resolved fl ecs (
                recharge fl ecs
                  (recovery fl ecs needs.current_survival_type needs.occupied_furniture w) needs))
              (recovery fl ecs needs.current_survival_type needs.occupied_furniture w) w)
        r.settled
      ∙ ap (λ a. outcome (is_resolved fl ecs (recharge fl ecs a needs)) a w) given
      ∙ ap (λ b. outcome b amount w) done

  recovery-charged :
      (seat : Option ℕ) (n : NeedsComp F) (w : World F)
      → recovery fl ecs need seat (put_row e (record (w.rows e) { needs = n }) w)
        ≡ recovery fl ecs need seat w
  unfolding recovery
  recovery-charged none n w = refl
  recovery-charged (some f) n w = ground arith

  charged-IsResting :
      (v : F) (w : World F)
      → IsNeed need
      → IsResting v w
      → IsResting (fill_up fl ecs v amount) (charged amount w)
  unfolding recharge
  charged-IsResting v w h r = record {
    need_is = rw (beq_refl e) r.need_is;
    level_is = rw (beq_refl e) (
        recharge-level (w.rows e).needs h r.need_is ∙ ap (λ l. fill_up fl ecs l amount) r.level_is);
    settled = rw (beq_refl e) r.settled;
    amount_is = rw (beq_refl e) (
        recovery-charged (w.rows e).needs.occupied_furniture
          (recharge fl ecs amount (w.rows e).needs) w
        ∙ r.amount_is);
  }

  -- `n` ticks of the action.
  pub rest : ℕ → World F → World F
  rest zero w = w
  rest (suc n) w = rest n (interact_furniture fl ecs e w).1

  -- The level after `n` ticks.
  abbrev pub filled : ℕ → F → F
  filled zero v = v
  filled (suc n) v = filled n (fill_up fl ecs v amount)

  -- What the ticks before the last leave alone.
  abbrev LeavesAlone : World F → World F → Type 0
  LeavesAlone after w =
      (after.calls ≡ w.calls)
      × ((after.rows e).identity ≡ (w.rows e).identity)
      × ((after.rows e).job ≡ (w.rows e).job)
      × ((after.rows e).needs.occupied_furniture ≡ (w.rows e).needs.occupied_furniture)
      × ((f : ℕ) → f ≢ e → after.rows f ≡ w.rows f)

  charged-LeavesAlone : (w : World F) → LeavesAlone (charged amount w) w
  unfolding recharge
  charged-LeavesAlone w = (
    refl,
    rw (beq_refl e) refl,
    rw (beq_refl e) refl,
    rw (beq_refl e) refl,
    λ f ne. rw (beq_ne e f (λ same. ne (sym same))) refl,
  )

  LeavesAlone-trans : (u v w : World F) → LeavesAlone u v → LeavesAlone v w → LeavesAlone u w
  LeavesAlone-trans u v w (a, b, c, d, g) (a', b', c', d', g') =
      (a ∙ a', b ∙ b', c ∙ c', d ∙ d', λ f ne. g f ne ∙ g' f ne)

  rests :
      (n : ℕ) (v : F) (w : World F)
      → IsNeed need
      → IsResting v w
      → ((k : ℕ) → k < n → le (dec 95 0) (filled (suc k) v) ≡ false)
      → IsResting (filled n v) (rest n w) × LeavesAlone (rest n w) w
  unfolding rest
  rests zero v w h r below = (r, (refl, refl, refl, refl, λ f ne. refl))
  rests (suc n) v w h r below =
      let now : interact_furniture fl ecs e w ≡ (running, charged amount w) =
        charges v w h r ∙ ap (λ b. outcome b amount w) (below 0 (omega arith)) in
      let (later, alone) =
        rests n (fill_up fl ecs v amount) (charged amount w) h (charged-IsResting v w h r)
          (λ k lt. below (suc k) (omega arith)) in
      subst (λ q. IsResting (filled (suc n) v) (rest n q.1) × LeavesAlone (rest n q.1) w) (sym now)
        (
          later,
          LeavesAlone-trans (rest n (charged amount w)) (charged amount w) w alone
              (charged-LeavesAlone w),
        )

  filled_last : (n : ℕ) (v : F) → fill_up fl ecs (filled n v) amount ≡ filled (suc n) v
  filled_last zero v = refl
  filled_last (suc n) v = filled_last n (fill_up fl ecs v amount)

  last_tick :
      (n : ℕ) (v : F) (w : World F)
      → IsNeed need
      → IsResting (filled n v) w
      → le (dec 95 0) (filled (suc n) v) ≡ true
      → interact_furniture fl ecs e w ≡ (success, finish_recovery fl ecs e (charged amount w))
  last_tick n v w h r enough =
      charges (filled n v) w h r
      ∙ ap (λ b. outcome b amount w) (ap (le (dec 95 0)) (filled_last n v) ∙ enough)

  -- An agent has settled to care for a need, and the level stays below 95 for n ticks and reaches
  -- it with the next: then in the first n ticks nothing is reported and nothing of another entity
  -- changes, and the next tick succeeds. It leaves the agent with no need to care for, no
  -- furniture and no active job, reports the job once as done, and the furniture that it had is
  -- free, or gone if it was a camp.
  pub recovery_finishes :
      (n : ℕ) (v : F) (w : World F)
      → IsNeed need
      → IsResting v w
      → ((k : ℕ) → k < n → le (dec 95 0) (filled (suc k) v) ≡ false)
      → le (dec 95 0) (filled (suc n) v) ≡ true
      → let (status, after) = interact_furniture fl ecs e (rest n w) in
        ((rest n w).calls ≡ w.calls)
        × ((f : ℕ) → f ≢ e → (rest n w).rows f ≡ w.rows f)
        × (status ≡ success)
        × IsRecovered fl ecs e after
        × (after.calls
            ≡ w.calls
              ++ (report_job_status
                    (w.rows e).identity.npc_id
                    (w.rows e).job.job_id
                    0
                    "survival_resolved"
                  ∷ []))
        × ((f : ℕ)
            → f ≢ e
            → (w.rows e).needs.occupied_furniture ≡ some f
            → IsGivenBack fl ecs e f after w)
  recovery_finishes n v w h r below enough =
      let (resting, alone) = rests n v w h r below in
      let end = last_tick n v (rest n w) h resting enough in
      let u = charged amount (rest n w) in
      let (calls, id, job, seat, rows) =
        LeavesAlone-trans u (rest n w) w (charged-LeavesAlone (rest n w)) alone in
      let told = finish-calls fl ecs e u in
      let told_w : (finish_recovery fl ecs e u).calls
          ≡ w.calls
            ++ (report_job_status (w.rows e).identity.npc_id (w.rows e).job.job_id 0
                  "survival_resolved"
                ∷ []) =
        cc in
      (
        alone.0,
        alone.4,
        ap (λ q. q.0) end,
        subst (λ q. IsRecovered fl ecs e q.1) (sym end) (finish-IsRecovered fl ecs e u),
        ap (λ q. q.1.calls) end ∙ told_w,
        λ f ne has.
            subst (λ q. IsGivenBack fl ecs e f q.1 w) (sym end)
              (subst
                (λ r.
                  if is_camp r.affordance
                  then ((finish_recovery fl ecs e u).rows f).is_valid ≡ false
                  else ((finish_recovery fl ecs e u).rows f).affordance
                    ≡ map_affordance vacate r.affordance)
                (rows f ne) (given_back fl ecs e f u ne (seat ∙ has))),
      )
