-- ===== src/Behavior/Crisis.antt =====
-- The four conditions that begin the care for a need, or find it begun: ConditionIsHungry,
-- ConditionIsFatigued, ConditionIsScheduledEat and ConditionIsScheduledSleep.
pub mod Exclusion
use Prim.Native.String.{String}
use mundus_vivens_game_serve.Common.{
  ℕ, Bool, true, false, ◌&&◌, Option, none, some, List, [], ◌∷◌, ◌++◌, ◌==◌, if◌then◌else◌,
}
use mundus_vivens_game_serve.Common.Float.{Float}
use mundus_vivens_game_serve.Agents.{
  JobCategory, SurvivalType, sleep_job, eat_job, hunger_need, fatigue_need, idle, same_text,
}
use mundus_vivens_game_serve.Agents.Furniture.{is_hunger, is_fatigue, is_eat, is_sleep, is_working}
use mundus_vivens_game_serve.Agents.Tree.{NodeStatus, success, failure}
use mundus_vivens_game_serve.Agents.World.{
  Row, World, put_row, send, forget_path, report_job_status,
}

module _ (fl : Float) where
  open fl use {F, lt, dec}

  -- The agent's components when its need becomes critical, with a job of its own.
  pub begin_crisis : SurvivalType → ℕ → String → JobCategory → Row F → Row F
  begin_crisis need job_id intent category r = record r {
    needs = record r.needs { is_resolving_survival = true; current_survival_type = need };
    busy = none;
    path = forget_path r.path;
    job = record r.job {
      job_id = job_id;
      intent = intent;
      category = category;
      is_active = true;
      target_location = "";
      target_x = dec 0 0;
      target_y = dec 0 0;
      target_z = dec 0 0;
    };
    toil = record { state = idle; duration_ticks = 0; current_action = "" };
  }

  -- The report has the job that is given up, with 2 for an interrupted one.
  abbrev pub report_crisis : ℕ → String → World F → World F
  report_crisis e message w =
      let r = w.rows e in send (report_job_status r.identity.npc_id r.job.job_id 2 message) w

  pub is_hungry : ℕ → World F → NodeStatus × World F
  is_hungry e w =
      let r = w.rows e in
      if r.needs.is_resolving_survival && is_hunger r.needs.current_survival_type
      then (success, w)
      else if r.needs.is_resolving_survival
      then (failure, w)
      else if lt r.needs.hunger (dec 15 0)
      then (
        success,
        put_row e (begin_crisis hunger_need 999000 "식사 중" eat_job r)
            (report_crisis e "survival_hunger" w),
      )
      else (failure, w)

  pub is_fatigued : ℕ → World F → NodeStatus × World F
  is_fatigued e w =
      let r = w.rows e in
      if r.needs.is_resolving_survival && is_fatigue r.needs.current_survival_type
      then (success, w)
      else if r.needs.is_resolving_survival
      then (failure, w)
      else if lt r.needs.fatigue (dec 15 0)
      then (
        success,
        put_row e (begin_crisis fatigue_need 999001 "취침 중" sleep_job r)
            (report_crisis e "survival_fatigue" w),
      )
      else (failure, w)

  abbrev begin_need : SurvivalType → Row F → Row F
  begin_need need r = record r {
    needs = record r.needs { is_resolving_survival = true; current_survival_type = need };
  }

  -- A job of the category that is worked on, at its place.
  abbrev pub is_at_job : (JobCategory → Bool) → Row F → Bool
  is_at_job is_category r =
      r.job.is_active
      && is_category r.job.category
      && is_working r.toil.state
      && same_text r.location.location_name r.job.target_location

  pub is_scheduled_eat : ℕ → World F → NodeStatus × World F
  is_scheduled_eat e w =
      let r = w.rows e in
      if r.needs.is_resolving_survival && is_hunger r.needs.current_survival_type
      then (success, w)
      else if r.needs.is_resolving_survival
      then (failure, w)
      else if is_at_job is_eat r
      then (success, put_row e (begin_need hunger_need r) w)
      else (failure, w)

  pub is_scheduled_sleep : ℕ → World F → NodeStatus × World F
  is_scheduled_sleep e w =
      let r = w.rows e in
      if r.needs.is_resolving_survival && is_fatigue r.needs.current_survival_type
      then (success, w)
      else if r.needs.is_resolving_survival
      then (failure, w)
      else if is_at_job is_sleep r
      then (success, put_row e (begin_need fatigue_need r) w)
      else (failure, w)
