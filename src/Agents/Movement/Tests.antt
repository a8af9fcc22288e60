-- ===== src/Agents/Movement/Tests.antt =====
-- An agent near its target.
use mundus_vivens_game_serve.Common.{ℕ, refl, Bool, true, false, [], ◌∷◌}
use mundus_vivens_game_serve.Common.Fixed.{fixed}
use mundus_vivens_game_serve.Common.Int.{pos}
use mundus_vivens_game_serve.Places.{LocationRegistry}
use mundus_vivens_game_serve.Agents.{moving, unspecified, social_job}
use mundus_vivens_game_serve.Agents.Movement.{Traveller, move_one}
use mundus_vivens_game_serve.Agents.Movement.Arrival.{Outcome, move_one-Outcome}

abbrev walker : Traveller ℕ
walker = record {
  entity = 5;
  location = record {
    zone_id = 0;
    location_name = "";
    x = 100000000;
    y = 0;
    z = 0;
    kind = unspecified;
    region_id = 0;
    territory_id = 0;
  };
  toil = record { state = moving; current_action = ""; duration_ticks = 0 };
  path = record {
    waypoints = record { x = 200000000; z = 0 } ∷ record { x = 300000000; z = 0 } ∷ [];
    current_waypoint_index = 2;
    last_target_x = 300000000;
    last_target_z = 0;
    is_partial = true;
    cap_retry_count = 0;
    last_cap_pos_x = 0;
    last_cap_pos_z = 0;
  };
  velocity = record { speed = 200000000; dir_x = 0; dir_z = 0 };
  job = record {
    job_id = 1;
    target_location = "";
    target_x = 900000000;
    target_y = 0;
    target_z = 0;
    intent = "";
    target_agent_id = 0;
    priority = pos 0;
    is_active = true;
    category = social_job;
  };
  current_activity = "";
}

abbrev no_places : LocationRegistry ℕ
no_places = record {
  location_centers = [];
  cell_entities = [];
  entity_to_cell = [];
  name_to_zone = [];
  zone_to_name = [];
  next_zone_id = 1;
  region_map = λ i. 0;
  region_map_size = 0;
  map_width = 0;
  map_height = 0;
}

abbrev open_field : ℕ → ℕ → ℕ → ℕ → Bool
open_field x z x' z' = false

move_one-Outcome_example :
    Outcome fixed open_field walker (move_one fixed open_field walker no_places).0
move_one-Outcome_example = move_one-Outcome fixed open_field walker no_places refl
