-- ===== src/Society/Perception.antt =====
-- SystemPerception: the threat that an agent notices, and its aggro.
pub mod Danger
pub mod Threat
use Prim.Native.String.{String}
use mundus_vivens_game_serve.Common.{
  ℕ, ◌+◌, ◌-◌, min, Bool, true, false, not, ◌&&◌, ◌||◌, Option, none, some, List, [], ◌∷◌, ◌==◌,
  ltb, if◌then◌else◌,
}
use mundus_vivens_game_serve.Common.Dict.{nat_eq, lookup}
use mundus_vivens_game_serve.Common.Float.{Float}
use mundus_vivens_game_serve.Common.Int.{ℤ, negsuc, ltb_ℤ}
use mundus_vivens_game_serve.Agents.{
  AggroComp, CooldownComp, RelationshipEntry, LocationComp, same_text,
}
use mundus_vivens_game_serve.Agents.Furniture.{is_some}
use mundus_vivens_game_serve.Agents.World.{Row, World, put_row, is_present}
use mundus_vivens_game_serve.Places.Position.{get_nearby_entities}
use mundus_vivens_game_serve.Behavior.Combat.{is_dead, target_of}
use mundus_vivens_game_serve.Behavior.Aggro.{calm}

abbrev pub human : String
human = "Human"

abbrev pub are_factions : String → String → String → String → Bool
are_factions a b faction n_faction =
    same_text faction a && same_text n_faction b || same_text faction b && same_text n_faction a

-- What other factions are worth: monsters 100, bandits 25.
abbrev pub faction_gain : String → String → ℕ
faction_gain faction n_faction =
    if are_factions "Wolf" human faction n_faction || are_factions "Goblin" human faction n_faction
    then 100
    else if are_factions "Bandit" human faction n_faction
    then 25
    else 0

-- A grudge against one of the own faction.
abbrev pub grudge_gain : Option (List (ℕ × RelationshipEntry)) → ℕ → ℕ
grudge_gain none npc_id = 0
grudge_gain (some rels) npc_id = elim (lookup npc_id rels) [
  | none ↦ 0
  | some entry ↦ if ltb_ℤ entry.liking (negsuc 48) then 5 else 0
]

abbrev pub is_exempt : Option CooldownComp → ℕ → ℕ → Bool
is_exempt none npc_id tick = false
is_exempt (some cd) npc_id tick = elim (lookup npc_id cd.cooldown_per_target) [
  | none ↦ false
  | some until ↦ ltb tick until
]

abbrev pub or_human : Option String → String
or_human none = human
or_human (some faction) = faction

-- The aggro left when no threat is in sight.
abbrev pub cool_down : ℕ → AggroComp → AggroComp
cool_down left aggro =
    if left == 0
    then record (calm aggro) { threat_entity = none }
    else record aggro { aggro_score = left }

pub raise_aggro : Option ℕ × ℕ → AggroComp → AggroComp
raise_aggro (some threat, gain) aggro = record aggro {
  threat_entity = some threat;
  aggro_score = min 100 (aggro.aggro_score + gain);
}
raise_aggro (none, gain) aggro =
    if ltb 0 aggro.aggro_score then cool_down (aggro.aggro_score - 10) aggro else aggro

module _ {F : Type 0} where
  -- Whether the neighbour can be a threat to the entity.
  pub may_threaten : ℕ → ℕ → World F → Bool
  may_threaten e n w =
      let r = w.rows n in
      not (n == e)
      && r.is_valid
      && is_some r.health
      && not (is_dead r.health)
      && not (is_exempt ((w.rows e).cooldown) r.identity.npc_id w.tick)

  pub gain_of : String → ℕ → ℕ → World F → ℕ
  gain_of faction e n w =
      let r = w.rows n in
      if not (same_text faction (or_human r.faction))
      then faction_gain faction (or_human r.faction)
      else grudge_gain ((w.rows e).relationships) r.identity.npc_id

  -- The neighbour of the highest gain, the first of them.
  pub best_threat : String → ℕ → List ℕ → Option ℕ × ℕ → World F → Option ℕ × ℕ
  best_threat faction e [] best w = best
  best_threat faction e (n ∷ rest) best w =
      best_threat faction e rest
        (if may_threaten e n w && ltb best.1 (gain_of faction e n w)
          then (some n, gain_of faction e n w)
          else best)
        w

  -- The location of a valid entity, for the search of the neighbours.
  abbrev pub location_in : World F → ℕ → Option (LocationComp F)
  location_in w e = if (w.rows e).is_valid then some ((w.rows e).location) else none

module _ (fl : Float) where
  open fl use {F, dec}

  pub notice : ℕ → String → World F → Option ℕ × ℕ
  notice e faction w =
      let loc = (w.rows e).location in
      best_threat faction e (get_nearby_entities fl loc.x loc.z (dec 20 0) (location_in w) w.places)
        (none, 0) w

  -- One entity of the view: with aggro and a faction.
  pub perceive_as : ℕ → AggroComp → String → World F → AggroComp
  perceive_as e aggro faction w =
      let r = w.rows e in
      if is_present (target_of r.combat) w
      then calm aggro
      else if is_dead r.health
      then record (calm aggro) { threat_entity = none }
      else raise_aggro (notice e faction w) aggro

  pub perceive : ℕ → World F → World F
  perceive e w =
      let r = w.rows e in
      elim r.aggro [
        | none ↦ w
        | some aggro ↦ elim r.faction [
          | none ↦ w
          | some faction ↦ put_row e (record r { aggro = some (perceive_as e aggro faction w) }) w
        ]
      ]

  -- `SystemPerception`, over the entities in the order of the view.
  pub system_perception : List ℕ → World F → World F
  system_perception [] w = w
  system_perception (e ∷ es) w =
      system_perception es (if (w.rows e).is_valid then perceive e w else w)
