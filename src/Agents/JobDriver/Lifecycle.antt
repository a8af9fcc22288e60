-- ===== src/Agents/JobDriver/Lifecycle.antt =====
-- The life of a job, over several runs of the system.
use mundus_vivens_game_serve.Common.{
  ℕ, zero, suc, ◌-◌, ◌≤◌, ◌≡◌, refl, ap, ◌∙◌, inl, inr, Bool, true, false, not, ◌&&◌, none, some,
  List, [], ◌∷◌, ◌++◌, append-nil, ltb, if◌then◌else◌, arith, Bool-cases,
}
use mundus_vivens_game_serve.Common.Float.{Float}
use mundus_vivens_game_serve.Agents.{BusyTag, idle, working, interrupted, schedule_wait, same_text}
use mundus_vivens_game_serve.Agents.JobDriver.{
  Agent, Report, drive, suspend, proceed, resume, pursue, work_on, complete_job, roaming,
  in_dialogue, is_dead_agent, is_surviving, is_fighting, is_interrupted,
}

-- The system takes the agent on: none of the early returns applies.
pub record IsDriven {F : Type 0} (a : Agent F) : Type 0 where
  pub alive : is_dead_agent a.health ≡ false
  pub content : is_surviving a.needs ≡ false
  pub peaceful : is_fighting a.combat ≡ false
  pub purposeful : same_text a.job.intent roaming ≡ false

first_of : {A : Type 0} (b : Bool) (r x y : A) → b ≡ true → r ≡ x → r ≡ (if b then x else y)
first_of true r x y h e = e
first_of false r x y h e = cc

second_of : {A : Type 0} (b : Bool) (r x y : A) → b ≡ false → r ≡ y → r ≡ (if b then x else y)
second_of true r x y h e = cc
second_of false r x y h e = e

-- The same as a test.
abbrev pub is_taken_on : {F : Type 0} → Agent F → Bool
is_taken_on a =
    not (is_dead_agent a.health)
    && not (is_surviving a.needs)
    && not (is_fighting a.combat)
    && not (same_text a.job.intent roaming)

module _ (fl : Float) where
  open fl use {F, dec}

  -- So many runs of the system on one agent, with all their reports.
  abbrev pub drive_times : ℕ → Agent F → Agent F × List Report
  drive_times zero a = (a, [])
  drive_times (suc n) a =
      let (b, first) = drive fl a in let (c, others) = drive_times n b in (c, first ++ others)

  drive-suspend :
      (a : Agent F) (tag : BusyTag F) → IsDriven a → a.busy ≡ some tag → drive fl a ≡ suspend a
  unfolding drive
  drive-suspend a tag d e = simp (d.alive, d.content, d.peaceful, d.purposeful, e)

  drive-proceed : (a : Agent F) → IsDriven a → a.busy ≡ none → drive fl a ≡ proceed fl a
  unfolding drive
  drive-proceed a d e = simp (d.alive, d.content, d.peaceful, d.purposeful, e)

  suspend_again : (a : Agent F) → suspend (suspend a).0 ≡ ((suspend a).0, [])
  unfolding suspend
  suspend_again a = elim (Bool-cases (is_interrupted a.toil.state)) [
    | inl e ↦ rw (e, e)
    | inr e ↦ rw e
  ]

  suspended-IsDriven : (a : Agent F) → IsDriven a → IsDriven (suspend a).0
  unfolding suspend
  suspended-IsDriven a d = elim (Bool-cases (is_interrupted a.toil.state)) [
    | inl e ↦ rw e d
    | inr e ↦ rw e (record {
      alive = d.alive;
      content = d.content;
      peaceful = d.peaceful;
      purposeful = d.purposeful;
    })
  ]

  suspended-busy : (a : Agent F) → (suspend a).0.busy ≡ a.busy
  unfolding suspend
  suspended-busy a = elim (Bool-cases (is_interrupted a.toil.state)) [ inl e ↦ rw e | inr e ↦ rw e ]

  suspended-stays :
      (a : Agent F) (tag : BusyTag F) (n : ℕ)
      → IsDriven a
      → a.busy ≡ some tag
      → drive_times n (suspend a).0 ≡ ((suspend a).0, [])
  suspended-stays a tag zero d e = refl
  suspended-stays a tag (suc n) d e =
      let again : drive fl (suspend a).0 ≡ ((suspend a).0, []) =
        drive-suspend (suspend a).0 tag (suspended-IsDriven a d) (suspended-busy a ∙ e)
        ∙ suspend_again a in
      rw (again, suspended-stays a tag n d e)

  drive_passed-over : (a : Agent F) → is_taken_on a ≡ false → drive fl a ≡ (a, [])
  unfolding drive
  drive_passed-over a h = ground (arith, h)

  drive_times_passed-over :
      (n : ℕ) (a : Agent F) → is_taken_on a ≡ false → drive_times n a ≡ (a, [])
  drive_times_passed-over zero a h = refl
  drive_times_passed-over (suc n) a h =
      rw (drive_passed-over a h, drive_times_passed-over n a h) refl

  taken_on-IsDriven : (a : Agent F) → is_taken_on a ≡ true → IsDriven a
  taken_on-IsDriven a h = record {
    alive = ground (arith, h);
    content = ground (arith, h);
    peaceful = ground (arith, h);
    purposeful = ground (arith, h);
  }

  -- An agent that is busy in the middle of an active job, over one or more runs: if it is alive,
  -- in no crisis, has no combat target and is not roaming, its job is suspended and reported as
  -- interrupted once; otherwise it stays as it is and nothing is reported.
  pub drive_times-suspend :
      (a : Agent F) (tag : BusyTag F) (n : ℕ)
      → a.busy ≡ some tag
      → is_interrupted a.toil.state ≡ false
      → a.job.is_active ≡ true
      → ((drive_times (suc n) a).0 ≡ (
          if is_taken_on a
          then record a {
            toil = record a.toil { state = interrupted };
            current_activity = in_dialogue;
          }
          else a))
        × ((drive_times (suc n) a).1 ≡ (
            if is_taken_on a
            then record { npc_id = a.npc_id; job_id = a.job.job_id; status = 2 } ∷ []
            else []))
  unfolding suspend
  drive_times-suspend a tag n e fresh active = elim (Bool-cases (is_taken_on a)) [
    | inr over ↦
        let stays = drive_times_passed-over (suc n) a over in
        (
          second_of (is_taken_on a) _ _ _ over (ap (λ r. r.0) stays),
          second_of (is_taken_on a) _ _ _ over (ap (λ r. r.1) stays),
        )
    | inl taken ↦
        let d = taken_on-IsDriven a taken in
        (
          first_of (is_taken_on a) _ _ _ taken
              (rw (drive-suspend a tag d e, suspended-stays a tag n d e, fresh) refl),
          first_of (is_taken_on a) _ _ _ taken
              (rw (drive-suspend a tag d e, suspended-stays a tag n d e, fresh, active) refl),
        )
  ]

  -- An agent at work on its job, with so many ticks left.
  pub record IsWorking (n : ℕ) (a : Agent F) : Type 0 where
    pub driven : IsDriven a
    pub free : a.busy ≡ none
    pub at_work : a.toil.state ≡ working
    pub active : a.job.is_active ≡ true
    pub left : a.toil.duration_ticks ≡ n

  pub record IsFinished (a b : Agent F) (reports : List Report) : Type 0 where
    pub inactive : b.job.is_active ≡ false
    pub rests : b.toil.state ≡ idle
    pub waits : b.busy ≡ some (record { reason = schedule_wait; anim_timer = dec 0 0 })
    pub reported : reports ≡ record { npc_id = a.npc_id; job_id = a.job.job_id; status = 0 } ∷ []

  abbrev tick : Agent F → ℕ → Agent F
  tick a n = record a { toil = record a.toil { duration_ticks = n } }

  drive-work : (a : Agent F) (n : ℕ) → IsWorking n a → drive fl a ≡ work_on fl a
  unfolding proceed resume pursue
  drive-work a n w = drive-proceed a w.driven w.free ∙ simp (w.at_work, w.active)

  work_on-more :
      (a : Agent F) (n : ℕ)
      → a.toil.duration_ticks ≡ suc (suc n)
      → work_on fl a ≡ (tick a (suc n), [])
  unfolding work_on
  work_on-more a n e =
      let less : (if ltb 0 a.toil.duration_ticks
            then a.toil.duration_ticks - 1
            else a.toil.duration_ticks)
          ≡ suc n =
        ground arith in
      let some_left : ltb 0 (suc n) ≡ true = ground arith in simp (less, some_left)

  work_on-last :
      (a : Agent F) → a.toil.duration_ticks ≡ 1 → work_on fl a ≡ complete_job fl (tick a 0)
  unfolding work_on
  work_on-last a e = simp e

  tick-IsWorking : (a : Agent F) (m n : ℕ) → IsWorking m a → IsWorking n (tick a n)
  tick-IsWorking a m n w = record {
    driven = record {
      alive = w.driven.alive;
      content = w.driven.content;
      peaceful = w.driven.peaceful;
      purposeful = w.driven.purposeful;
    };
    free = w.free;
    at_work = w.at_work;
    active = w.active;
    left = refl;
  }

  finish_now :
      (a : Agent F) (n : ℕ)
      → IsFinished a (complete_job fl (tick a n)).0 (complete_job fl (tick a n)).1
  unfolding complete_job
  finish_now a n = record { inactive = refl; rests = refl; waits = refl; reported = refl }

  drive-tick : (a : Agent F) (n : ℕ) → IsWorking (suc (suc n)) a → drive fl a ≡ (tick a (suc n), [])
  drive-tick a n w = drive-work a (suc (suc n)) w ∙ work_on-more a n w.left

  drive_times-quiet :
      (n : ℕ) (a : Agent F) (k : ℕ) → IsWorking (suc n) a → k ≤ n → (drive_times k a).1 ≡ []
  drive_times-quiet n a zero w h = refl
  drive_times-quiet zero a (suc k) w h = absurd (omega arith)
  drive_times-quiet (suc n) a (suc k) w h = rw (drive-tick a n w) (
      drive_times-quiet n (tick a (suc n)) k (tick-IsWorking a (suc (suc n)) (suc n) w)
        (omega arith))

  drive_times-IsFinished :
      (n : ℕ) (a : Agent F)
      → IsWorking (suc n) a
      → IsFinished a (drive_times (suc n) a).0 (drive_times (suc n) a).1
  drive_times-IsFinished zero a w =
      rw (drive-work a 1 w, work_on-last a w.left, append-nil (complete_job fl (tick a 0)).1)
        (finish_now a 0)
  drive_times-IsFinished (suc n) a w =
      let rest =
        drive_times-IsFinished n (tick a (suc n)) (tick-IsWorking a (suc (suc n)) (suc n) w) in
      rw (drive-tick a n w) (record {
        inactive = rest.inactive;
        rests = rest.rests;
        waits = rest.waits;
        reported = rest.reported;
      })

  -- A job that is worked on with n + 1 ticks left is finished by the run after n others, which
  -- report nothing: then it is no longer active, the agent waits for a schedule, and the end was
  -- reported once.
  pub drive_times-finish :
      (n : ℕ) (a : Agent F)
      → IsWorking (suc n) a
      → IsFinished a (drive_times (suc n) a).0 (drive_times (suc n) a).1
        × ((k : ℕ) → k ≤ n → (drive_times k a).1 ≡ [])
  drive_times-finish n a w = (drive_times-IsFinished n a w, λ k h. drive_times-quiet n a k w h)
