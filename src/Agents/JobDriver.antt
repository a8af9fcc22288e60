-- ===== src/Agents/JobDriver.antt =====
-- SystemJobDriver: one call of it on one agent, with the reports that it sends to the planner. The
-- record holds the components that the loop's body takes or looks up; its view has location,
-- activity and identity, and a missing job or toil is a new one.
pub mod Lifecycle
mod Tests
use Prim.Native.String.{String, ◌++◌}
use mundus_vivens_game_serve.Common.{
  ℕ, zero, suc, ◌-◌, ◌≡◌, Bool, true, false, not, ◌&&◌, Option, none, some, List, [], ◌∷◌, ltb,
  if◌then◌else◌,
}
use mundus_vivens_game_serve.Common.Float.{Float}
use mundus_vivens_game_serve.Common.Int.{ℤ}
use mundus_vivens_game_serve.Agents.{
  LocationComp, JobComp, JobCategory, ToilState, ToilComp, NeedsComp, BusyTag, HealthComp,
  CombatComp, idle, moving, working, interrupted, schedule_wait, same_text,
}

-- What the call of `ReportJobStatusAsync` is given: 0 for a finished job, 2 for an interrupted one.
pub record Report : Type 0 where
  pub npc_id : ℕ
  pub job_id : ℕ
  pub status : ℕ

pub record Agent (F : Type 0) : Type 0 where
  pub location : LocationComp F
  pub current_activity : String
  pub npc_id : ℕ
  pub job : JobComp F
  pub toil : ToilComp
  pub health : Option (HealthComp F)
  pub needs : Option (NeedsComp F)
  pub combat : Option (CombatComp F)
  pub busy : Option (BusyTag F)

abbrev pub roaming : String
roaming = "배회 중"

abbrev pub in_dialogue : String
in_dialogue = "대화 중"

abbrev pub waiting : String
waiting = "대기"

abbrev pub moving_to : String
moving_to = "이동 중: "

abbrev pub is_interrupted : ToilState → Bool
is_interrupted idle = false
is_interrupted moving = false
is_interrupted working = false
is_interrupted interrupted = true

module _ {F : Type 0} where
  -- The four early returns.
  abbrev pub is_dead_agent : Option (HealthComp F) → Bool
  is_dead_agent none = false
  is_dead_agent (some health) = health.is_dead

  abbrev pub is_surviving : Option (NeedsComp F) → Bool
  is_surviving none = false
  is_surviving (some needs) = needs.is_resolving_survival

  abbrev pub is_fighting : Option (CombatComp F) → Bool
  is_fighting none = false
  is_fighting (some combat) = elim combat.target_entity [ none ↦ false | some e ↦ true ]

  abbrev pub in_state : ToilState → Agent F → Agent F
  in_state s a = record a { toil = record a.toil { state = s } }

  -- An agent that is busy.
  pub suspend : Agent F → Agent F × List Report
  suspend a = if is_interrupted a.toil.state then (a, []) else (
    record (in_state interrupted a) { current_activity = in_dialogue },
    (if a.job.is_active
        then record { npc_id = a.npc_id; job_id = a.job.job_id; status = 2 } ∷ []
        else []),
  )

  pub resume : Agent F → Agent F
  resume a =
      if is_interrupted a.toil.state
      then record (in_state idle a) { current_activity = waiting }
      else a

module _ (fl : Float) where
  open fl use {F, add, sub, mul, lt, sqrt, dec}

  abbrev fill : Option (NeedsComp F) → Option (NeedsComp F)
  fill none = none
  fill (some needs) = some (record needs { hunger = dec 100 0; fatigue = dec 100 0 })

  -- Before a journey of more than 150 the needs are filled up.
  pub depart : Agent F → Agent F
  depart a =
      let dx = sub a.job.target_x a.location.x in
      let dz = sub a.job.target_z a.location.z in
      let dist = sqrt (add (mul dx dx) (mul dz dz)) in
      let away = record (in_state moving a) {
        current_activity = moving_to ++ a.job.target_location;
      } in
      if lt (dec 150 0) dist then record away { needs = fill a.needs } else away

  pub begin_work : Agent F → Agent F
  begin_work a = record a {
    toil = record a.toil { state = working; duration_ticks = 3 };
    current_activity = a.job.intent;
  }

  -- The job is done: the agent waits for the next one.
  pub complete_job : Agent F → Agent F × List Report
  complete_job a = (
    record (in_state idle a) {
      job = record a.job { is_active = false };
      current_activity = waiting;
      busy = some (record { reason = schedule_wait; anim_timer = dec 0 0 });
    },
    record { npc_id = a.npc_id; job_id = a.job.job_id; status = 0 } ∷ [],
  )

  pub work_on : Agent F → Agent F × List Report
  work_on a =
      let left =
        if ltb 0 a.toil.duration_ticks then a.toil.duration_ticks - 1 else a.toil.duration_ticks in
      let worked = record a { toil = record a.toil { duration_ticks = left } } in
      if not (ltb 0 left) then complete_job worked else (worked, [])

  pub pursue : ToilState → Agent F → Agent F × List Report
  pursue idle a =
      if not (same_text a.location.location_name a.job.target_location)
      then (depart a, [])
      else (begin_work a, [])
  pursue moving a = (a, [])
  pursue working a = work_on a
  pursue interrupted a = (a, [])

  -- An agent that is not busy.
  pub proceed : Agent F → Agent F × List Report
  proceed a =
      let b = resume a in
      if not b.job.is_active
      then (record (in_state idle b) { current_activity = waiting }, [])
      else pursue b.toil.state b

  pub drive : Agent F → Agent F × List Report
  drive a =
      if is_dead_agent a.health
      then (a, [])
      else if is_surviving a.needs
      then (a, [])
      else if is_fighting a.combat
      then (a, [])
      else if same_text a.job.intent roaming
      then (a, [])
      else elim a.busy [ some tag ↦ suspend a | none ↦ proceed a ]

-- What a reply with a new job sets, once its task is run: `client.ReportJobStatusAsync`'s callback.
pub record JobPayload (F : Type 0) : Type 0 where
  pub job_id : ℕ
  pub target_location : String
  pub target_x : F
  pub target_y : F
  pub target_z : F
  pub intent : String
  pub target_agent_id : ℕ
  pub priority : ℤ
  pub category : JobCategory

pub take_new_job : {F : Type 0} → Bool → Bool → JobPayload F → Agent F → Agent F
take_new_job success has_new_job new_job a =
    if success && has_new_job
    then record a {
      job = record a.job {
        job_id = new_job.job_id;
        target_location = new_job.target_location;
        intent = new_job.intent;
        target_agent_id = new_job.target_agent_id;
        priority = new_job.priority;
        category = new_job.category;
        is_active = true;
      };
      toil = record a.toil { state = idle; duration_ticks = 0 };
    }
    else a
