-- ===== src/Players.antt =====
-- SystemPlayer.cpp: players that log in, move and talk, and what is left of them when their
-- session is gone. A command's payload has been parsed, or is `none` where that failed; the
-- packets for the clients and the counts of pending requests are the effects of a command.
pub mod Commands
pub mod Replies
pub mod Index
pub mod Stranded
mod Tests
use Prim.Native.String.{String}
use mundus_vivens_game_serve.Common.{
  ℕ, Bool, true, false, not, ◌&&◌, ◌||◌, Option, none, some, List, [], ◌∷◌, ◌++◌, ◌==◌,
  if◌then◌else◌,
}
use mundus_vivens_game_serve.Common.Dict.{nat_eq, string_eq, lookup, insert, erase}
use mundus_vivens_game_serve.Common.Float.{Float}
use mundus_vivens_game_serve.Common.Int.{ℤ}
use mundus_vivens_game_serve.Agents.{BusyTag, PlayerDialogueComp, dialogue, same_text}
use mundus_vivens_game_serve.Agents.Furniture.{is_some}
use mundus_vivens_game_serve.Agents.JobDriver.{waiting}
use mundus_vivens_game_serve.Agents.World.{
  Row, World, put_row, send, destroy_row, end_player_dialogue,
}
use mundus_vivens_game_serve.Places.{remove_entity}
use mundus_vivens_game_serve.Sync.{NpcSnapshot}

-- AgentIdMapper
pub record AgentIdMapper : Type 0 where
  pub string_to_numeric : List (String × ℕ)
  pub numeric_to_string : List (ℕ × String)

-- 0 for a name that is not known.
pub get_agent_numeric_id : AgentIdMapper → String → ℕ
get_agent_numeric_id mapper string_id = elim (lookup string_id mapper.string_to_numeric) [
  | none ↦ 0
  | some id ↦ id
]

pub get_agent_string_id : AgentIdMapper → ℕ → String
get_agent_string_id mapper numeric_id = elim (lookup numeric_id mapper.numeric_to_string) [
  | none ↦ ""
  | some name ↦ name
]

-- One relationship of an agent, as the status reply shows it.
pub record Relation : Type 0 where
  pub target_name : String
  pub liking : ℤ
  pub trust : ℤ

-- AgentStatus, as the planner reports it.
pub record AgentStatus (F : Type 0) : Type 0 where
  pub name : String
  pub location : String
  pub x : F
  pub y : F
  pub z : F
  pub emotion : String
  pub activity : String
  pub memories : List String

pub data Packet (F : Type 0) : Type 0 where
  login_ack : List (NpcSnapshot F) → Packet F
  npc_reply : ℕ → String → String → Packet F
  agent_status_ack : AgentStatus F → List Relation → Packet F
  agent_status_missing : Packet F

pub data Effect (F : Type 0) : Type 0 where
  send_packet : ℕ → Packet F → Effect F
  increment_pending : ℕ → Effect F
  decrement_pending : ℕ → Effect F

module _ {F : Type 0} where
  -- An agent that waits for nothing.
  abbrev pub released : Row F → Row F
  released r = record r { activity = waiting; busy = none }

  -- `reg.valid(e)` guards the release.
  unfoldable pub release : ℕ → World F → World F
  release e w = if (w.rows e).is_valid then put_row e (released (w.rows e)) w else w

  abbrev pub release_partner : Option ℕ → World F → World F
  release_partner none w = w
  release_partner (some npc) w = release npc w

  -- The dialogue of a player whose session is gone.
  pub break_off : Option PlayerDialogueComp → World F → World F
  break_off none w = w
  break_off (some pdc) w =
      release_partner pdc.npc_entity (send (end_player_dialogue pdc.session_id) w)

module _ (fl : Float) where
  open fl use {F, dec}

  abbrev pub fresh_busy : Option (BusyTag F)
  fresh_busy = some (record { reason = dialogue; anim_timer = dec 0 0 })

  -- One player whose session, with this index, is gone.
  pub remove_player : ℕ → ℕ → World F → World F
  remove_player e session_index w =
      let r = w.rows e in
      let ended = break_off r.dialogue w in
      destroy_row fl e (record ended {
        places = remove_entity e ended.places;
        by_session_index = erase session_index ended.by_session_index;
        by_npc_id = erase r.identity.npc_id ended.by_npc_id;
      })

  abbrev pub lost_session : (ℕ → Bool) → Row F → Option ℕ
  lost_session is_connected r = if not r.is_valid then none else elim r.player_tag [
    | none ↦ none
    | some session ↦ if is_connected session then none else some session
  ]

  -- The players to take away, which are found before the first is.
  pub find_lost : (ℕ → Bool) → List ℕ → World F → List (ℕ × ℕ)
  find_lost is_connected [] w = []
  find_lost is_connected (e ∷ es) w =
      let rest = find_lost is_connected es w in
      elim (lost_session is_connected (w.rows e)) [
        | none ↦ rest
        | some session ↦ (e, session) ∷ rest
      ]

  pub remove_all_lost : List (ℕ × ℕ) → World F → World F
  remove_all_lost [] w = w
  remove_all_lost ((e, session) ∷ rest) w = remove_all_lost rest (remove_player e session w)

  -- `SystemCleanupDisconnectedPlayerDialogues`, over the entities in the order of the view.
  pub cleanup_disconnected : (ℕ → Bool) → List ℕ → World F → World F
  cleanup_disconnected is_connected es w = remove_all_lost (find_lost is_connected es w) w
