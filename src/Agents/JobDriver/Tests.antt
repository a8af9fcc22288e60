-- ===== src/Agents/JobDriver/Tests.antt =====
-- A job of an agent in a tavern.
use mundus_vivens_game_serve.Common.{ℕ, ◌≤◌, ◌≡◌, refl, true, none, some, [], ◌∷◌, if◌then◌else◌}
use mundus_vivens_game_serve.Common.Fixed.{fixed}
use mundus_vivens_game_serve.Common.Int.{pos}
use mundus_vivens_game_serve.Agents.{
  pub_house, social_job, ToilState, working, moving, interrupted, dialogue,
}
use mundus_vivens_game_serve.Agents.JobDriver.{Agent, in_dialogue}
use mundus_vivens_game_serve.Agents.JobDriver.Lifecycle.{
  IsFinished, drive_times, drive_times-finish, drive_times-suspend, is_taken_on,
}

abbrev guest : ToilState → ℕ → Agent ℕ
guest state ticks = record {
  location = record {
    zone_id = 1;
    location_name = "tavern";
    x = 500000000;
    y = 0;
    z = 700000000;
    kind = pub_house;
    region_id = 0;
    territory_id = 0;
  };
  current_activity = "";
  npc_id = 4;
  job = record {
    job_id = 9;
    target_location = "tavern";
    target_x = 500000000;
    target_y = 0;
    target_z = 700000000;
    intent = "drink";
    target_agent_id = 0;
    priority = pos 0;
    is_active = true;
    category = social_job;
  };
  toil = record { state = state; current_action = ""; duration_ticks = ticks };
  health = none;
  needs = none;
  combat = none;
  busy = none;
}

drive_times-finish_example :
    IsFinished fixed
      (guest working 3)
      (drive_times fixed 3 (guest working 3)).0
      (drive_times fixed 3 (guest working 3)).1
    × ((k : ℕ) → k ≤ 2 → (drive_times fixed k (guest working 3)).1 ≡ [])
drive_times-finish_example = drive_times-finish fixed 2 (guest working 3) (record {
  driven = record { alive = refl; content = refl; peaceful = refl; purposeful = refl };
  free = refl;
  at_work = refl;
  active = refl;
  left = refl;
})

abbrev talking_guest : Agent ℕ
talking_guest = record (guest moving 0) {
  busy = some (record { reason = dialogue; anim_timer = 0 });
}

drive_times-suspend_example :
    ((drive_times fixed 5 talking_guest).0 ≡ (
      if is_taken_on talking_guest
      then record talking_guest {
        toil = record talking_guest.toil { state = interrupted };
        current_activity = in_dialogue;
      }
      else talking_guest))
    × ((drive_times fixed 5 talking_guest).1 ≡ (
        if is_taken_on talking_guest
        then record { npc_id = 4; job_id = 9; status = 2 } ∷ []
        else []))
drive_times-suspend_example =
    drive_times-suspend fixed talking_guest (record { reason = dialogue; anim_timer = 0 }) 4 refl
      refl refl
