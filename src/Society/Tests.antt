-- ===== src/Society/Tests.antt =====
-- A wolf beside a human.
use mundus_vivens_game_serve.Common.{ℕ, false, none, some, [], ◌∷◌}
use mundus_vivens_game_serve.Agents.{AggroComp}
use mundus_vivens_game_serve.Agents.World.{Row, World}
use mundus_vivens_game_serve.Agents.World.Sample.{newcomer, other_agent, table, world_of, no_places}

abbrev calm_aggro : AggroComp
calm_aggro = record {
  threat_entity = none;
  aggro_score = 30;
  inhibit_wait_ticks = 0;
  is_inhibited = false;
}

abbrev wolf : Row ℕ
wolf = record newcomer { faction = some "Wolf"; aggro = some calm_aggro }

abbrev meeting : World ℕ
meeting = record (world_of wolf other_agent table) {
  places = record no_places { cell_entities = (0, 1 ∷ 2 ∷ []) ∷ [] };
}
