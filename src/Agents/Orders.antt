-- ===== src/Agents/Orders.antt =====
-- The jobs that the planner gives out: RandomizeWithinRadius, the reply to GetPendingJobsAsync in
-- main.cpp, and, there too, the changes of relationships and the new day. `cos` and `sin` are
-- those of the standard library; an angle is a number of the dice times 2π.
use mundus_vivens_game_serve.Common.{
  ℕ, ◌%◌, Bool, true, false, not, ◌&&◌, ◌||◌, Option, none, some, List, [], ◌∷◌, ◌==◌,
  if◌then◌else◌,
}
use mundus_vivens_game_serve.Common.Dict.{nat_eq, lookup, insert}
use mundus_vivens_game_serve.Common.Float.{Float}
use mundus_vivens_game_serve.Common.Int.{ℤ}
use mundus_vivens_game_serve.Agents.{
  BusyTag, BusyReason, dialogue, reflection, schedule_wait, CooldownComp, JobComp, idle,
  RelationshipEntry,
}
use mundus_vivens_game_serve.Agents.JobDriver.{JobPayload}
use mundus_vivens_game_serve.Agents.World.{World, put_row, throw_dice}

pub record RelationshipDelta : Type 0 where
  pub from_agent_id : ℕ
  pub to_agent_id : ℕ
  pub liking : ℤ
  pub trust : ℤ

abbrev pub is_schedule_wait : BusyReason → Bool
is_schedule_wait dialogue = false
is_schedule_wait reflection = false
is_schedule_wait schedule_wait = true

abbrev or_no_relations : Option (List (ℕ × RelationshipEntry)) → List (ℕ × RelationshipEntry)
or_no_relations none = []
or_no_relations (some rels) = rels

abbrev pub rested : CooldownComp → CooldownComp
rested cooldown = record cooldown {
  social_energy = cooldown.max_social_energy;
  cognitive_refractory_until = 0;
  cooldown_per_target = [];
}

module _ {F : Type 0} where
  -- A new job ends the wait for one.
  abbrev pub end_wait : Option (BusyTag F) → Option (BusyTag F)
  end_wait none = none
  end_wait (some busy) = if is_schedule_wait busy.reason then none else some busy

  pub apply_delta : RelationshipDelta → World F → World F
  apply_delta delta w = elim (lookup delta.from_agent_id w.by_npc_id) [
    | none ↦ w
    | some e ↦
        let r = w.rows e in
        let entry : RelationshipEntry = record { liking = delta.liking; trust = delta.trust } in
        put_row e
          (record r {
            relationships = some (insert delta.to_agent_id entry (or_no_relations r.relationships));
          })
          w
  ]

  pub apply_deltas : List RelationshipDelta → World F → World F
  apply_deltas [] w = w
  apply_deltas (delta ∷ rest) w = apply_deltas rest (apply_delta delta w)

  pub wake_up : List ℕ → World F → World F
  wake_up [] w = w
  wake_up (e ∷ es) w =
      let r = w.rows e in
      wake_up es (
        if not r.is_valid then w else elim r.cooldown [
          | none ↦ w
          | some cooldown ↦ put_row e (record r { cooldown = some (rested cooldown) }) w
        ])

  -- The first loop, and each tick that begins a day.
  pub begin_day : Bool → List ℕ → World F → World F
  begin_day is_first_loop es w = if is_first_loop || w.tick % 24 == 0 then wake_up es w else w

module _ (fl : Float) (cos : fl.F → fl.F) (sin : fl.F → fl.F) where
  open fl use {F, add, mul, sqrt, dec}

  unfoldable pub randomize_within_radius : F → F → F → World F → (F × F) × World F
  randomize_within_radius center_x center_z radius w =
      let (turn, w1) = throw_dice w in
      let (share, w2) = throw_dice w1 in
      let angle = mul turn (dec 62831853 7) in
      let r = mul radius (sqrt share) in
      ((add center_x (mul r (cos angle)), add center_z (mul r (sin angle))), w2)

  -- The job taken over, with a target near the one that is ordered, and the toil that begins anew.
  unfoldable pub take_order : ℕ → JobPayload F → World F → World F
  take_order e order w =
      let (spot, thrown) = randomize_within_radius order.target_x order.target_z (dec 8 0) w in
      let r = w.rows e in
      let job : JobComp F = record {
        job_id = order.job_id;
        target_location = order.target_location;
        target_x = spot.0;
        target_y = order.target_y;
        target_z = spot.1;
        intent = order.intent;
        target_agent_id = order.target_agent_id;
        priority = order.priority;
        is_active = true;
        category = order.category;
      } in
      put_row e (record r { job = job; toil = record r.toil { state = idle; duration_ticks = 0 } })
        thrown

  -- One pending job: not for an agent in a crisis, and not the job that it has.
  pub accept_job : ℕ → JobPayload F → World F → World F
  accept_job npc_id order w = elim (lookup npc_id w.by_npc_id) [
    | none ↦ w
    | some e ↦
        let r = w.rows e in
        if not r.is_valid
          || r.needs.is_resolving_survival
          || r.job.job_id == order.job_id && r.job.is_active
        then w
        else let taken = take_order e order w in
          let t = taken.rows e in put_row e (record t { busy = end_wait t.busy }) taken
  ]

  pub accept_all : List (ℕ × JobPayload F) → World F → World F
  accept_all [] w = w
  accept_all ((npc_id, order) ∷ rest) w = accept_all rest (accept_job npc_id order w)

  -- The reply to `GetPendingJobsAsync`.
  pub answer_pending_jobs : Bool → List (ℕ × JobPayload F) → World F → World F
  answer_pending_jobs is_success orders w = if is_success then accept_all orders w else w
