-- ===== src/Society/Initiate/Tests.antt =====
-- Two agents at the same place, whose dice are all 0.
use mundus_vivens_game_serve.Common.{ℕ, refl, List, [], ◌∷◌}
use mundus_vivens_game_serve.Common.Dict.{nat_eq}
use mundus_vivens_game_serve.Common.Fixed.{fixed}
use mundus_vivens_game_serve.Agents.World.{World}
use mundus_vivens_game_serve.Agents.World.Sample.{newcomer, other_agent, table, world_of, no_places}
use mundus_vivens_game_serve.Society.Initiate.{system_social_interaction}
use mundus_vivens_game_serve.Society.Initiate.Exclusive.{
  IsExclusive, system_social_interaction-IsExclusive,
}

abbrev evening : World ℕ
evening = record (world_of newcomer other_agent table) {
  places = record no_places { cell_entities = (0, 1 ∷ 2 ∷ []) ∷ [] };
}

abbrev in_order : World ℕ → List ℕ → List ℕ
in_order w xs = xs

system_social_interaction-IsExclusive_example :
    IsExclusive fixed in_order [] evening
      (system_social_interaction fixed in_order (1 ∷ 2 ∷ 3 ∷ []) evening)
system_social_interaction-IsExclusive_example =
    system_social_interaction-IsExclusive fixed in_order (1 ∷ 2 ∷ 3 ∷ []) evening (λ v xs x. refl)
