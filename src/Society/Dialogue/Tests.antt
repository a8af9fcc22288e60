-- ===== src/Society/Dialogue/Tests.antt =====
-- Two agents that have talked, and one that stands by.
use mundus_vivens_game_serve.Common.{ℕ, ◌≡◌, refl, true, some, [], ◌∷◌, if◌then◌else◌}
use mundus_vivens_game_serve.Common.Int.{pos}
use mundus_vivens_game_serve.Common.Fixed.{fixed}
use mundus_vivens_game_serve.Agents.{dialogue, social_job}
use mundus_vivens_game_serve.Agents.JobDriver.{waiting}
use mundus_vivens_game_serve.Agents.World.{Row, World}
use mundus_vivens_game_serve.Agents.World.Sample.{newcomer, other_agent, world_of}
use mundus_vivens_game_serve.Society.Dialogue.{
  DialogueResult, thinking, is_in, all_valid, answer_dialogue,
}
use mundus_vivens_game_serve.Society.Dialogue.Released.{
  state_of, released_if, is_done, answer_dialogue-releases,
}

abbrev speaker : Row ℕ
speaker = record newcomer { busy = some (record { reason = dialogue; anim_timer = 0 }) }

abbrev talk_place : World ℕ
talk_place =
    world_of speaker (record speaker { identity = record { npc_id = 8; display_name = "Rolf" } })
      other_agent

abbrev outcome : DialogueResult ℕ
outcome = record {
  is_success = true;
  dialogue_summary = "Eva is glad.";
  emotion_updates = record { agent_id = 7; new_emotion = "기쁨"; intensity = 3; category = 1 } ∷ [];
  next_jobs =
      (
        8,
        record {
          job_id = 4;
          target_location = "광장";
          target_x = 0;
          target_y = 0;
          target_z = 0;
          intent = "walk";
          target_agent_id = 7;
          priority = pos 1;
          category = social_job;
        },
      )
      ∷ [];
  keywords = "harvest" ∷ [];
}

held : is_done true outcome (1 ∷ 2 ∷ []) talk_place ≡ true
unfolding all_valid
held = refl

answer_dialogue-releases_example :
    state_of
      ((answer_dialogue fixed (λ a. a) (λ a. a) true outcome (1 ∷ 2 ∷ []) 40 talk_place).rows 2)
    ≡ released_if
        (is_in 2 (1 ∷ 2 ∷ []))
        (if is_done true outcome (1 ∷ 2 ∷ []) talk_place then thinking else waiting)
        (talk_place.rows 2)
answer_dialogue-releases_example =
    answer_dialogue-releases fixed (λ a. a) (λ a. a) true outcome (1 ∷ 2 ∷ []) 40 2 talk_place
