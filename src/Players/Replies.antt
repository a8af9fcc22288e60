-- ===== src/Players/Replies.antt =====
-- The planner's replies to the players' requests, which are tasks of the result queue.
use Prim.Native.String.{String}
use mundus_vivens_game_serve.Common.{ℕ, Bool, Option, none, some, List, [], ◌∷◌, if◌then◌else◌}
use mundus_vivens_game_serve.Common.Dict.{nat_eq, lookup}
use mundus_vivens_game_serve.Agents.{RelationshipEntry}
use mundus_vivens_game_serve.Agents.World.{Row, World, put_row}
use mundus_vivens_game_serve.Players.{
  decrement_pending, npc_reply, AgentStatus, agent_status_ack, agent_status_missing, Effect,
  send_packet, Relation, release, release_partner,
}

abbrev pub stranger : String
stranger = "알 수 없음"

module _ {F : Type 0} where
  abbrev pub busy_none : Row F → Row F
  busy_none r = record r { busy = none }

  abbrev pub in_dialogue_with : ℕ → ℕ → Row F → Row F
  in_dialogue_with session_id npc r = record r {
    dialogue = some (record { session_id = session_id; npc_entity = some npc });
  }

  abbrev pub talking : Row F → Row F
  talking r = record r { activity = "플레이어와 대화 중" }

  abbrev pub update_valid : ℕ → (Row F → Row F) → World F → World F
  update_valid e f w = if (w.rows e).is_valid then put_row e (f (w.rows e)) w else w

  -- The reply to `StartPlayerDialogueAsync`.
  unfoldable pub answer_start : Bool → ℕ → ℕ → ℕ → World F → World F
  answer_start is_success session_id npc player w =
      if is_success
      then update_valid player (in_dialogue_with session_id npc) (update_valid npc talking w)
      else update_valid player busy_none (release npc w)

  -- What is sent to the player with that reply.
  pub greet : Bool → ℕ → ℕ → String → String → List (Effect F)
  greet is_success session session_id npc_name greeting =
      if is_success then send_packet session (npc_reply session_id npc_name greeting) ∷ [] else []

  -- The reply to `SendPlayerMessageAsync`.
  pub answer_message : Bool → ℕ → ℕ → String → String → List (Effect F)
  answer_message is_success session session_id npc_name reply_text =
      if is_success then send_packet session (npc_reply session_id npc_name reply_text) ∷ [] else []

  -- The first thing that any of the replies does, for a session that was counted.
  pub uncount : Bool → ℕ → List (Effect F)
  uncount was_counted session = if was_counted then decrement_pending session ∷ [] else []

  -- The name that a reply to a message carries, taken when the message is sent.
  pub partner_name : Option ℕ → World F → String
  partner_name none w = "NPC"
  partner_name (some player) w = elim ((w.rows player).dialogue) [
    | none ↦ "NPC"
    | some pdc ↦ elim pdc.npc_entity [
      | none ↦ "NPC"
      | some npc ↦ if (w.rows npc).is_valid then (w.rows npc).identity.display_name else "NPC"
    ]
  ]

  -- The partner of the player when the dialogue is ended.
  unfoldable pub partner_of : Option ℕ → World F → Option ℕ
  partner_of none w = none
  partner_of (some player) w = elim ((w.rows player).dialogue) [
    | none ↦ none
    | some pdc ↦ pdc.npc_entity
  ]

  abbrev pub leave_dialogue : Row F → Row F
  leave_dialogue r = record r { busy = none; dialogue = none }

  -- The reply to `EndPlayerDialogueAsync`, a success or not.
  unfoldable pub answer_end : Option ℕ → Option ℕ → World F → World F
  answer_end npc none w = release_partner npc w
  answer_end npc (some player) w = update_valid player leave_dialogue (release_partner npc w)

  abbrev name_of : ℕ → World F → String
  name_of id w = elim (lookup id w.by_npc_id) [
    | none ↦ stranger
    | some e ↦ if (w.rows e).is_valid then (w.rows e).identity.display_name else stranger
  ]

  pub relations_of : List (ℕ × RelationshipEntry) → World F → List Relation
  relations_of [] w = []
  relations_of ((id, entry) ∷ rest) w =
      record { target_name = name_of id w; liking = entry.liking; trust = entry.trust }
      ∷ relations_of rest w

  abbrev relations_in : Row F → World F → List Relation
  relations_in r w = elim r.relationships [ none ↦ [] | some rels ↦ relations_of rels w ]

  -- The reply to `GetAgentStatusAsync`: what the planner knows, and the relationships known here.
  pub answer_status : Bool → ℕ → ℕ → AgentStatus F → World F → Effect F
  answer_status is_success session agent_id status w =
      if is_success
      then send_packet session (
          agent_status_ack status (elim (lookup agent_id w.by_npc_id) [
            | none ↦ []
            | some e ↦ if (w.rows e).is_valid then relations_in (w.rows e) w else []
          ]))
      else send_packet session agent_status_missing
