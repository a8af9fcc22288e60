-- ===== src/Agents/World/Sample.antt =====
-- A small world for runs: entity 1 is an agent, 2 is another, 3 is a table, and the rest is empty.
use mundus_vivens_game_serve.Common.{ℕ, true, false, none, some, [], ◌∷◌, ◌==◌, if◌then◌else◌}
use mundus_vivens_game_serve.Common.Fixed.{fixed}
use mundus_vivens_game_serve.Places.{LocationRegistry}
use mundus_vivens_game_serve.Agents.{eat}
use mundus_vivens_game_serve.Agents.World.{Row, World, Entities, blank_row}

abbrev pub no_places : LocationRegistry ℕ
no_places = record {
  location_centers = [];
  cell_entities = [];
  entity_to_cell = [];
  name_to_zone = [];
  zone_to_name = [];
  next_zone_id = 1;
  region_map = λ i. 0;
  region_map_size = 0;
  map_width = 0;
  map_height = 0;
}

abbrev pub newcomer : Row ℕ
newcomer = record (blank_row fixed) {
  is_valid = true;
  is_agent = true;
  has_tree = true;
  identity = record { npc_id = 7; display_name = "Eva" };
  aggro = some (record {
    threat_entity = some 2;
    aggro_score = 100;
    inhibit_wait_ticks = 0;
    is_inhibited = false;
  });
  health = some (record { hp = 5000000000; max_hp = 10000000000; is_dead = false });
  combat = some (record {
    target_entity = none;
    attack_range = 200000000;
    attack_damage = 1000000000;
    cooldown_ticks = 3;
  });
  is_sentient = some true;
}

abbrev pub other_agent : Row ℕ
other_agent = record newcomer { identity = record { npc_id = 8; display_name = "Rolf" } }

abbrev pub table : Row ℕ
table = record (blank_row fixed) {
  is_valid = true;
  affordance = some (record { use_of = eat; occupied_by = none; is_temporary = false });
}

abbrev pub world_of : Row ℕ → Row ℕ → Row ℕ → World ℕ
world_of a b c = record {
  rows = λ i. if i == 1 then a else if i == 2 then b else if i == 3 then c else blank_row fixed;
  places = no_places;
  tick = 40;
  rolls = λ n. 0;
  dice = λ n. 0;
  by_npc_id = (7, 1) ∷ (8, 2) ∷ [];
  by_session_index = [];
  emotion_registry = record { name_to_id = []; decay_ticks_table = []; category_table = [] };
  contagion_ids = none;
  calls = [];
}

abbrev pub entities : Entities ℕ
entities = record { fresh = λ w. 9; visit = λ w. 1 ∷ 2 ∷ 3 ∷ [] }
