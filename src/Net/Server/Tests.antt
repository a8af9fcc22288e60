-- ===== src/Net/Server/Tests.antt =====
-- A server with two clients, and the theorems of its table and queue at it.
use mundus_vivens_game_serve.Common.{ℕ, ◌≡◌, refl, ◌≢◌, some, none, List, [], ◌∷◌, ◌++◌, map, arith}
use mundus_vivens_game_serve.Net.Session.{
  PlayerCommand, login, run_session, not_suspended, stopped_by,
}
use mundus_vivens_game_serve.Net.Session.Stream.{Frame, transmit, dispatch}
use mundus_vivens_game_serve.Net.Server.{
  drain_player_commands, queue_player_command, send_all, broadcast_packet, register_session, apply,
  unregisters, sends, TcpServer, ClientSession, get_session, accept_connection, initial_server,
  Call, accepts, broadcasts, queues, drains, apply_all, perform_all,
}
use mundus_vivens_game_serve.Net.Server.Sessions.{accept_fresh}
use mundus_vivens_game_serve.Net.Server.Delivery.{addressed, apply_all-delivers}
use mundus_vivens_game_serve.Net.Server.Commands.{
  drained, queued, commands_of, drained-apply_all, pending-transmit,
}

abbrev command : PlayerCommand
command = record { type = login; payload = 5 ∷ []; session_index = 1 }

abbrev calls : List Call
calls = accepts ∷ accepts ∷ broadcasts 7 [] ∷ queues command ∷ drains ∷ queues command ∷ []

abbrev two_clients : TcpServer
two_clients = apply_all initial_server calls

accept_fresh_example :
    let (i, t) = accept_connection two_clients in
    (get_session two_clients i ≡ none)
    × (get_session t i ≡ some (record { index = i; sent = [] }))
    × ((j : ℕ) → j ≢ i → get_session t j ≡ get_session two_clients j)
    × ((j : ℕ) (c : ClientSession) → get_session t j ≡ some c → c.index ≡ j)
accept_fresh_example = accept_fresh calls (omega arith)

drained-apply_all_example :
    drained initial_server calls ++ two_clients.pending_commands
    ≡ initial_server.pending_commands ++ queued calls
drained-apply_all_example = drained-apply_all initial_server calls

abbrev frames : List Frame
frames = (0x00FF, []) ∷ (0x0001, 7 ∷ 9 ∷ []) ∷ []

pending-transmit_example :
    (bytes : List ℕ) × (transmit frames ≡ some bytes)
    × ((perform_all 2
          (run_session 2 (λ n. not_suspended) bytes).actions
          two_clients).pending_commands
        ≡ two_clients.pending_commands ++ commands_of (map (dispatch 2) frames))
unfolding stopped_by
pending-transmit_example =
    pending-transmit 2 frames (λ n. not_suspended) two_clients (omega arith) (refl, (refl, tt))

abbrev first_client : ClientSession
first_client = record { index = 1; sent = (7, []) ∷ [] }

abbrev later_calls : List Call
later_calls = sends 1 9 (4 ∷ []) ∷ sends 2 9 [] ∷ unregisters 2 ∷ broadcasts 8 [] ∷ []

in_table : get_session two_clients 1 ≡ some first_client
unfolding apply_all apply accept_connection register_session broadcast_packet send_all
    queue_player_command drain_player_commands get_session initial_server
in_table = refl

apply_all-delivers_example :
    get_session (apply_all two_clients later_calls) 1
    ≡ some (record { index = 1; sent = first_client.sent ++ addressed 1 later_calls })
apply_all-delivers_example =
    apply_all-delivers calls later_calls 1 first_client (omega arith) in_table (omega arith, tt)
