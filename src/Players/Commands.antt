-- ===== src/Players/Commands.antt =====
-- SystemPlayerCommands: one command after the other. A login under an agent's own name is
-- undefined in the source, which reads a `PlayerTag` that is not there, and changes nothing here.
use Prim.Native.String.{String}
use mundus_vivens_game_serve.Common.{
  ℕ, Bool, true, not, ◌&&◌, Option, none, some, List, [], ◌∷◌, ◌++◌, ◌==◌, if◌then◌else◌,
}
use mundus_vivens_game_serve.Common.Dict.{nat_eq, lookup, insert, erase}
use mundus_vivens_game_serve.Common.Float.{Float}
use mundus_vivens_game_serve.Agents.{same_text}
use mundus_vivens_game_serve.Agents.Furniture.{is_some}
use mundus_vivens_game_serve.Agents.World.{
  Row, World, Entities, put_row, send, blank_row, start_player_dialogue, send_player_message,
  end_player_dialogue, get_agent_status,
}
use mundus_vivens_game_serve.Places.Position.{update_entity_position}
use mundus_vivens_game_serve.Behavior.Combat.{separation}
use mundus_vivens_game_serve.Sync.{NpcSnapshot, snapshot_of, snapshots}
use mundus_vivens_game_serve.Players.{
  AgentIdMapper, get_agent_numeric_id, login_ack, Effect, send_packet, increment_pending,
  fresh_busy,
}

pub data Request (F : Type 0) : Type 0 where
  login : String → String → Request F
  move : F → F → F → Request F
  talk_to_npc : ℕ → Request F
  player_message : ℕ → String → Request F
  end_dialogue : ℕ → Request F
  agent_status : ℕ → Request F

module _ (fl : Float) (ecs : Entities fl.F) (mapper : AgentIdMapper) (is_connected : ℕ → Bool) where
  open fl use {F, lt, dec}

  -- A command changes the world, and has effects.
  abbrev pub Result : Type 0
  Result = World F × List (Effect F)

  -- `UpdateEntityPosition` of an entity, with its component.
  unfoldable pub place_entity : ℕ → World F → World F
  place_entity e w =
      let r = w.rows e in
      let (settled, places) =
        update_entity_position fl e r.location.x r.location.z (some r.location) w.places in
      put_row e (record r { location = elim settled [ none ↦ r.location | some loc ↦ loc ] })
        (record w { places = places })

  abbrev new_player : ℕ → ℕ → String → Row F
  new_player session npc_id name = record (blank_row fl) {
    is_valid = true;
    player_tag = some session;
    identity = record { npc_id = npc_id; display_name = name };
    location = record (blank_row fl).location { location_name = "광장" };
    synced = some (record { location = ""; emotion = ""; activity = "" });
  }

  unfoldable pub register_player : ℕ → ℕ → String → World F → ℕ × World F
  register_player session npc_id name w =
      let e = ecs.fresh w in
      (
        e,
        put_row e (new_player session npc_id name) (record w {
          by_npc_id = insert npc_id e w.by_npc_id;
          by_session_index = insert session e w.by_session_index;
        }),
      )

  -- A player that is known takes the new session.
  unfoldable pub renew_session : ℕ → ℕ → ℕ → World F → World F
  renew_session session e old_session w =
      put_row e (record (w.rows e) { player_tag = some session })
        (record w { by_session_index = insert session e (erase old_session w.by_session_index) })

  -- A login's reply has no health and no velocity: what is not set is 0. The places that it lists
  -- are left out here.
  abbrev brief_snapshot_of : Row F → NpcSnapshot F
  brief_snapshot_of r = record (snapshot_of fl r) {
    hp = dec 0 0;
    max_hp = dec 0 0;
    velocity = none;
  }

  -- The reply shows the agents as they are now.
  abbrev welcome : ℕ → ℕ → World F → Result
  welcome session e w =
      let placed = place_entity e w in
      (
        placed,
        send_packet session (login_ack (snapshots fl brief_snapshot_of (ecs.visit placed) placed))
            ∷ [],
      )

  unfoldable pub log_in : ℕ → String → String → World F → Result
  log_in session player_id name w =
      let npc_id = get_agent_numeric_id mapper player_id in
      elim (lookup npc_id w.by_npc_id) [
        | none ↦
            (let (e, registered) = register_player session npc_id name w in
              welcome session e registered)
        | some e ↦ elim ((w.rows e).player_tag) [
          | none ↦ (w, [])
          | some old_session ↦ welcome session e (renew_session session e old_session w)
        ]
      ]

  unfoldable pub move_player : ℕ → F → F → F → World F → Result
  move_player session x y z w = elim (lookup session w.by_session_index) [
    | none ↦ (w, [])
    | some e ↦
        let r = w.rows e in
        let there = record r { location = record r.location { x = x; y = y; z = z } } in
        (place_entity e (put_row e there w), [])
  ]

  -- The reasons to refuse a dialogue between the two.
  unfoldable pub may_talk : ℕ → ℕ → World F → Bool
  may_talk player npc w =
      let p = w.rows player in
      let n = w.rows npc in
      not (player == npc)
      && not (is_some n.player_tag)
      && same_text p.location.location_name n.location.location_name
      && not (lt (dec 8 0) (separation fl n.location p.location))
      && not (is_some n.busy)

  -- A request is counted at the session, if that is there still.
  abbrev pub counted : ℕ → List (Effect F)
  counted session = if is_connected session then increment_pending session ∷ [] else []

  abbrev pub listening : Row F → Row F
  listening r = record r { activity = "플레이어와 대화 대기"; busy = fresh_busy fl }

  unfoldable pub begin_dialogue : ℕ → ℕ → World F → World F
  begin_dialogue player npc w =
      let asked = put_row npc (listening (w.rows npc)) w in
      let both = put_row player (record (asked.rows player) { busy = fresh_busy fl }) asked in
      send (start_player_dialogue ((w.rows player).identity.npc_id) ((w.rows npc).identity.npc_id))
        both

  unfoldable pub talk : ℕ → ℕ → World F → Result
  talk session npc_id w = elim (lookup session w.by_session_index) [
    | none ↦ (w, [])
    | some player ↦ elim (lookup npc_id w.by_npc_id) [
      | none ↦ (w, [])
      | some npc ↦
          if may_talk player npc w then (begin_dialogue player npc w, counted session) else (w, [])
    ]
  ]

  -- One command.
  unfoldable pub run_request : ℕ → Request F → World F → Result
  run_request session (login player_id name) w = log_in session player_id name w
  run_request session (move x y z) w = move_player session x y z w
  run_request session (talk_to_npc npc_id) w = talk session npc_id w
  run_request session (player_message session_id text) w =
      (send (send_player_message session_id text) w, counted session)
  run_request session (end_dialogue session_id) w =
      (send (end_player_dialogue session_id) w, counted session)
  run_request session (agent_status agent_id) w =
      (send (get_agent_status agent_id) w, counted session)

  -- `SystemPlayerCommands`
  unfoldable pub player_commands : List (ℕ × Option (Request F)) → World F → Result
  player_commands [] w = (w, [])
  player_commands ((session, none) ∷ rest) w = player_commands rest w
  player_commands ((session, some request) ∷ rest) w =
      let (after, effects) = run_request session request w in
      let (end, others) = player_commands rest after in (end, effects ++ others)
