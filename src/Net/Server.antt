-- ===== src/Net/Server.antt =====
-- TcpServer: the table of sessions, and the queue by which the I/O thread hands commands to the
-- game loop. Each function is one critical section of the source, so a run of the program is a
-- sequence of these calls. A session is its index and the packets given to its `Send`.
pub mod Sessions
pub mod Delivery
pub mod Commands
mod Tests
use mundus_vivens_game_serve.Common.{
  ℕ, ◌+◌, ◌%◌, Bool, true, false, Option, none, some, List, [], ◌∷◌, ◌++◌, map, if◌then◌else◌,
}
use mundus_vivens_game_serve.Common.Dict.{nat_eq, lookup, insert, erase, adjust}
use mundus_vivens_game_serve.Net.Session.{
  PlayerCommand, Action, queue_command, send, unknown_packet,
}

pub record ClientSession : Type 0 where
  pub index : ℕ
  pub sent : List (ℕ × List ℕ)

pub record TcpServer : Type 0 where
  pub sessions : List (ℕ × ClientSession)
  pub next_session_id : ℕ
  pub pending_commands : List PlayerCommand
  pub is_running : Bool

pub initial_server : TcpServer
initial_server = record {
  sessions = [];
  next_session_id = 1;
  pending_commands = [];
  is_running = false;
}

abbrev pub push_sent : ℕ → List ℕ → ClientSession → ClientSession
push_sent packet_id payload c = record c { sent = c.sent ++ (packet_id, payload) ∷ [] }

pub start : TcpServer → TcpServer
start s = if s.is_running then s else record s { is_running = true }

pub get_session : TcpServer → ℕ → Option ClientSession
get_session s session_index = lookup session_index s.sessions

-- `none` is the null pointer, which is not registered.
pub register_session : Option ClientSession → TcpServer → TcpServer
register_session none s = s
register_session (some c) s = record s { sessions = insert c.index c s.sessions }

pub unregister_session : ℕ → TcpServer → TcpServer
unregister_session session_index s = record s { sessions = erase session_index s.sessions }

pub send_to : ℕ → ℕ → List ℕ → TcpServer → TcpServer
send_to session_index packet_id payload s = record s {
  sessions = adjust session_index (push_sent packet_id payload) s.sessions;
}

send_all : ℕ → List ℕ → List (ℕ × ClientSession) → List (ℕ × ClientSession)
send_all packet_id payload [] = []
send_all packet_id payload ((index, c) ∷ rest) =
    (index, push_sent packet_id payload c) ∷ send_all packet_id payload rest

pub broadcast_packet : ℕ → List ℕ → TcpServer → TcpServer
unfolding send_all
broadcast_packet packet_id payload s = record s { sessions = send_all packet_id payload s.sessions }

pub queue_player_command : PlayerCommand → TcpServer → TcpServer
queue_player_command cmd s = record s { pending_commands = s.pending_commands ++ cmd ∷ [] }

-- The caller's vector is cleared, then swapped with the pending commands.
pub drain_player_commands : TcpServer → List PlayerCommand × TcpServer
drain_player_commands s = (s.pending_commands, record s { pending_commands = [] })

-- A connection that `AcceptLoop` accepts: a new index, and its session in the table.
pub accept_connection : TcpServer → ℕ × TcpServer
unfolding register_session
accept_connection s =
    let session_idx = s.next_session_id in
    let numbered = record s { next_session_id = (session_idx + 1) % 4294967296 } in
    (session_idx, register_session (some (record { index = session_idx; sent = [] })) numbered)

-- The effect of a handled packet of the session `index` on the server.
pub perform : ℕ → Action → TcpServer → TcpServer
unfolding queue_player_command send_to
perform index (queue_command cmd) s = queue_player_command cmd s
perform index (send packet_id payload) s = send_to index packet_id payload s
perform index (unknown_packet packet_id) s = s

pub perform_all : ℕ → List Action → TcpServer → TcpServer
unfolding perform
perform_all index [] s = s
perform_all index (a ∷ rest) s = perform_all index rest (perform index a s)

-- The calls that other threads make on the server.
pub data Call : Type 0 where
  starts accepts drains : Call
  unregisters : ℕ → Call
  sends : ℕ → ℕ → List ℕ → Call
  broadcasts : ℕ → List ℕ → Call
  queues : PlayerCommand → Call

pub apply : TcpServer → Call → TcpServer
apply s starts = start s
apply s accepts = (accept_connection s).1
apply s drains = (drain_player_commands s).1
apply s (unregisters i) = unregister_session i s
apply s (sends i packet_id payload) = send_to i packet_id payload s
apply s (broadcasts packet_id payload) = broadcast_packet packet_id payload s
apply s (queues cmd) = queue_player_command cmd s

pub apply_all : TcpServer → List Call → TcpServer
unfolding apply
apply_all s [] = s
apply_all s (c ∷ cs) = apply_all (apply s c) cs
