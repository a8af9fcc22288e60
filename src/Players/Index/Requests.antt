-- ===== src/Players/Index/Requests.antt =====
-- The indices under the players' commands.
use Prim.Native.String.{String}
use mundus_vivens_game_serve.Common.{
  ℕ, ◌≡◌, refl, inl, inr, Bool, true, false, List, [], ◌∷◌, arith, Option, none, some, Bool-cases,
  Option-cases,
}
use mundus_vivens_game_serve.Common.Dict.{nat_eq, lookup, lookup-insert, lookup-erase, erase}
use mundus_vivens_game_serve.Common.Float.{Float}
use mundus_vivens_game_serve.Agents.World.{World, Entities, Call, send}
use mundus_vivens_game_serve.Players.{AgentIdMapper, get_agent_numeric_id}
use mundus_vivens_game_serve.Players.Commands.{
  Request, login, move, talk_to_npc, player_message, end_dialogue, agent_status, place_entity,
  register_player, renew_session, log_in, move_player, begin_dialogue, may_talk, talk, run_request,
  player_commands,
}
use mundus_vivens_game_serve.Players.Index.{IsIndexed, put_row-IsIndexed}

module _ (fl : Float) (ecs : Entities fl.F) (mapper : AgentIdMapper) (is_connected : ℕ → Bool) where
  open fl use {F}

  place_entity-IsIndexed :
      (e : ℕ) (w : World F) → IsIndexed w → IsIndexed (place_entity fl ecs mapper is_connected e w)
  unfolding place_entity
  place_entity-IsIndexed e w h = record {
    sessions = λ s f at. ground (arith, h.sessions s f at);
    numbers = λ n f at. ground (arith, h.numbers n f at);
  }

  register_player-IsIndexed :
      (session npc_id : ℕ) (name : String) (w : World F)
      → (w.rows (ecs.fresh w)).is_valid ≡ false
      → IsIndexed w
      → IsIndexed (register_player fl ecs mapper is_connected session npc_id name w).1
  unfolding register_player
  register_player-IsIndexed session npc_id name w new h = record {
    sessions = λ s f at.
        ground (arith, h.sessions s f, lookup-insert session s (ecs.fresh w) w.by_session_index);
    numbers =
        λ n f at. ground (arith, h.numbers n f, lookup-insert npc_id n (ecs.fresh w) w.by_npc_id);
  }

  renew_session-IsIndexed :
      (session e old : ℕ) (w : World F)
      → (w.rows e).is_valid ≡ true
      → (w.rows e).player_tag ≡ some old
      → IsIndexed w
      → IsIndexed (renew_session fl ecs mapper is_connected session e old w)
  unfolding renew_session
  renew_session-IsIndexed session e old w valid tag h = record {
    sessions = λ s f at. ground (
      arith,
      h.sessions s f,
      lookup-insert session s e (erase old w.by_session_index),
      lookup-erase old s w.by_session_index,
    );
    numbers = λ n f at. ground (arith, h.numbers n f at);
  }

  log_in-IsIndexed :
      (session : ℕ) (player_id name : String) (w : World F)
      → (w.rows (ecs.fresh w)).is_valid ≡ false
      → IsIndexed w
      → IsIndexed (log_in fl ecs mapper is_connected session player_id name w).0
  unfolding log_in
  log_in-IsIndexed session player_id name w new h =
      let npc_id = get_agent_numeric_id mapper player_id in
      elim (Option-cases (lookup npc_id w.by_npc_id)) [
        | inl unknown ↦
            rw (log_in, unknown)
              (place_entity-IsIndexed _ _ (register_player-IsIndexed session npc_id name w new h))
        | inr (e, known) ↦ elim (Option-cases (w.rows e).player_tag) [
          | inl no_player ↦ rw (log_in, known, no_player) h
          | inr (old, tag) ↦
              rw (log_in, known, tag)
                (place_entity-IsIndexed e _
                  (renew_session-IsIndexed session e old w (h.numbers npc_id e known).0 tag h))
        ]
      ]

  move_player-IsIndexed :
      (session : ℕ) (x y z : F) (w : World F)
      → IsIndexed w
      → IsIndexed (move_player fl ecs mapper is_connected session x y z w).0
  unfolding move_player
  move_player-IsIndexed session x y z w h =
      elim (Option-cases (lookup session w.by_session_index)) [
        | inl unknown ↦ rw (move_player, unknown) h
        | inr (e, known) ↦
            rw (move_player, known)
              (place_entity-IsIndexed e _ (
                put_row-IsIndexed e
                  (record (w.rows e) {
                    location = record (w.rows e).location { x = x; y = y; z = z };
                  })
                  w (refl, refl, refl) h))
      ]

  begin_dialogue-IsIndexed :
      (player npc : ℕ) (w : World F)
      → IsIndexed w
      → IsIndexed (begin_dialogue fl ecs mapper is_connected player npc w)
  unfolding begin_dialogue
  begin_dialogue-IsIndexed player npc w h =
      let h1 =
        put_row-IsIndexed player _ _ (refl, refl, refl)
          (put_row-IsIndexed npc _ w (refl, refl, refl) h) in
      record { sessions = h1.sessions; numbers = h1.numbers }

  talk-IsIndexed :
      (session npc_id : ℕ) (w : World F)
      → IsIndexed w
      → IsIndexed (talk fl ecs mapper is_connected session npc_id w).0
  unfolding talk
  talk-IsIndexed session npc_id w h = elim (Option-cases (lookup session w.by_session_index)) [
    | inl unknown ↦ rw (talk, unknown) h
    | inr (player, known) ↦ elim (Option-cases (lookup npc_id w.by_npc_id)) [
      | inl nobody ↦ rw (talk, known, nobody) h
      | inr (npc, found) ↦ elim (Bool-cases (may_talk fl ecs mapper is_connected player npc w)) [
        | inl may ↦ rw (talk, known, found, may) (begin_dialogue-IsIndexed player npc w h)
        | inr refused ↦ rw (talk, known, found, refused) h
      ]
    ]
  ]

  send-IsIndexed : (call : Call F) (w : World F) → IsIndexed w → IsIndexed (send call w)
  send-IsIndexed call w h = record { sessions = h.sessions; numbers = h.numbers }

  run_request-IsIndexed :
      (session : ℕ) (request : Request F) (w : World F)
      → (w.rows (ecs.fresh w)).is_valid ≡ false
      → IsIndexed w
      → IsIndexed (run_request fl ecs mapper is_connected session request w).0
  unfolding run_request
  run_request-IsIndexed session (login player_id name) w new h =
      log_in-IsIndexed session player_id name w new h
  run_request-IsIndexed session (move x y z) w new h = move_player-IsIndexed session x y z w h
  run_request-IsIndexed session (talk_to_npc npc_id) w new h = talk-IsIndexed session npc_id w h
  run_request-IsIndexed session (player_message session_id text) w new h = send-IsIndexed _ w h
  run_request-IsIndexed session (end_dialogue session_id) w new h = send-IsIndexed _ w h
  run_request-IsIndexed session (agent_status agent_id) w new h = send-IsIndexed _ w h

  -- At each command, the entity that would be created is a new one.
  abbrev pub CreatesNew : List (ℕ × Option (Request F)) → World F → Type 0
  CreatesNew [] w = Unit
  CreatesNew ((session, none) ∷ rest) w = CreatesNew rest w
  CreatesNew ((session, some request) ∷ rest) w =
      ((w.rows (ecs.fresh w)).is_valid ≡ false)
      × CreatesNew rest (run_request fl ecs mapper is_connected session request w).0

  pub player_commands-IsIndexed :
      (cmds : List (ℕ × Option (Request F))) (w : World F)
      → CreatesNew cmds w
      → IsIndexed w
      → IsIndexed (player_commands fl ecs mapper is_connected cmds w).0
  unfolding player_commands
  player_commands-IsIndexed [] w new h = h
  player_commands-IsIndexed ((session, none) ∷ rest) w new h =
      player_commands-IsIndexed rest w new h
  player_commands-IsIndexed ((session, some request) ∷ rest) w (new, later) h =
      player_commands-IsIndexed rest (run_request fl ecs mapper is_connected session request w).0
        later (run_request-IsIndexed session request w new h)
