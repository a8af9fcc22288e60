-- ===== src/Net/Session.antt =====
-- ClientSession: the receive loop `Run`, the dispatch of `HandlePacket`, and the flow control that
-- suspends reading while too many gRPC requests of the client are pending.
pub mod Stream
pub mod Backpressure
pub mod Calls
pub mod Turns
pub mod Overlap
mod Tests
use mundus_vivens_game_serve.Common.{
  ℕ, zero, suc, ◌+◌, ◌-◌, ◌%◌, Bool, true, false, not, ◌&&◌, ◌||◌, List, [], ◌∷◌, length, take,
  drop, ltb, leb, Option, none, some, ◌==◌, if◌then◌else◌,
}
use mundus_vivens_game_serve.Net.Packet.{
  read_u16_be, header_size, max_packet_size, cs_login, cs_player_move, cs_talk_to_npc,
  cs_player_message, cs_end_dialogue, cs_get_agent_status, cs_heartbeat, sc_heartbeat_ack,
}

pub data CommandType : Type 0 where
  login move talk_to_npc player_message end_dialogue get_agent_status : CommandType

pub record PlayerCommand : Type 0 where
  pub type : CommandType
  pub payload : List ℕ
  pub session_index : ℕ

-- What `HandlePacket` does: it queues a command at the server, sends a packet, or logs.
pub data Action : Type 0 where
  queue_command : PlayerCommand → Action
  send : ℕ → List ℕ → Action
  unknown_packet : ℕ → Action

abbrev command : ℕ → List ℕ → CommandType → Action
command index payload t =
    queue_command (record { type = t; payload = payload; session_index = index })

pub handle_packet : ℕ → ℕ → List ℕ → Action
handle_packet index packet_id payload =
    if packet_id == cs_login
    then command index payload login
    else if packet_id == cs_player_move
    then command index payload move
    else if packet_id == cs_talk_to_npc
    then command index payload talk_to_npc
    else if packet_id == cs_player_message
    then command index payload player_message
    else if packet_id == cs_end_dialogue
    then command index payload end_dialogue
    else if packet_id == cs_get_agent_status
    then command index payload get_agent_status
    else if packet_id == cs_heartbeat
    then send sc_heartbeat_ack []
    else unknown_packet packet_id

-- One round of the loop on the bytes that the peer still sends: `async_read` throws when the
-- stream ends before its buffer is full, and a length out of range ends the session.
pub data Received : Type 0 where
  packet : ℕ → List ℕ → List ℕ → Received
  bad_length : Received
  end_of_stream : Received

pub receive_packet : List ℕ → Received
receive_packet (b0 ∷ b1 ∷ b2 ∷ b3 ∷ rest) =
    let length' = read_u16_be b0 b1 in
    let payload_size = length' - header_size in
    if ltb length' header_size || ltb max_packet_size length'
    then bad_length
    else if leb payload_size (length rest)
    then packet (read_u16_be b2 b3) (take payload_size rest) (drop payload_size rest)
    else end_of_stream
receive_packet _ = end_of_stream

-- What the flow control does to one round: the flag is clear; or the loop waits, and the wait is
-- cancelled, never ends, or fails with another error than the cancellation.
pub data Pause : Type 0 where
  not_suspended cancelled never_ends throws : Pause

-- Where the loop stands when it takes in no more: it was sent a length out of range, the stream
-- ended, it still waits, or its wait threw. `out_of_fuel` is a bound of the model and no outcome
-- of the program.
pub data Closing : Type 0 where
  refused_length stream_ended still_waits wait_threw out_of_fuel : Closing

-- The test of the flag and the wait; `none` goes on with the round.
unfoldable pub stopped_by : Pause → Option Closing
stopped_by not_suspended = none
stopped_by cancelled = none
stopped_by never_ends = some still_waits
stopped_by throws = some wait_threw

-- The pauses of the rounds to come, after a round.
abbrev pub later_pauses : (ℕ → Pause) → ℕ → Pause
later_pauses pauses n = pauses (suc n)

pub record Session : Type 0 where
  pub actions : List Action
  pub closing : Closing

abbrev after_action : Action → Session → Session
after_action a s = record { actions = a ∷ s.actions; closing = s.closing }

-- The loop of `Run`, up to the closing of the session. What the flow control does to round `n` is
-- `pauses n`.
pub run_loop : ℕ → ℕ → (ℕ → Pause) → List ℕ → Session
run_loop zero index pauses stream = record { actions = []; closing = out_of_fuel }
run_loop (suc fuel) index pauses stream = elim (stopped_by (pauses 0)) [
  | some why ↦ record { actions = []; closing = why }
  | none ↦ elim (receive_packet stream) [
    | packet packet_id payload rest ↦
        after_action (handle_packet index packet_id payload)
          (run_loop fuel index (later_pauses pauses) rest)
    | bad_length ↦ record { actions = []; closing = refused_length }
    | end_of_stream ↦ record { actions = []; closing = stream_ended }
  ]
]

-- Every packet takes four bytes at least, so a round more than there are bytes is enough.
pub run_session : ℕ → (ℕ → Pause) → List ℕ → Session
unfolding run_loop
run_session index pauses stream = run_loop (suc (length stream)) index pauses stream

-- The reader coroutine: it reads packets; it has seen the flag and not yet begun to wait; it
-- waits for the timer.
pub data Reader : Type 0 where
  reading about_to_wait waiting : Reader

pub record Flow : Type 0 where
  pub pending_grpc_requests : ℕ
  pub is_reading_suspended : Bool
  pub reader : Reader

abbrev size_t_mod : ℕ
size_t_mod = 18446744073709551616

-- Cancelling the timer ends a wait that has begun, and does nothing to one that has not.
pub cancel_timer : Reader → Reader
cancel_timer reading = reading
cancel_timer about_to_wait = about_to_wait
cancel_timer waiting = reading

-- `CheckBackpressure` and the two calls that end in it, as far as no other call overlaps: the
-- source takes no lock, and Net/Session/Calls has the single accesses.
pub check_backpressure : Flow → Flow
unfolding cancel_timer
check_backpressure f =
    let was_suspended = f.is_reading_suspended in
    let suspended =
      if leb 32 f.pending_grpc_requests
      then true
      else if leb f.pending_grpc_requests 8
      then false
      else was_suspended in
    record f {
      is_reading_suspended = suspended;
      reader = if not suspended && was_suspended then cancel_timer f.reader else f.reader;
    }

pub increment_pending_grpc : Flow → Flow
unfolding check_backpressure
increment_pending_grpc f =
    check_backpressure
      (record f { pending_grpc_requests = (f.pending_grpc_requests + 1) % size_t_mod })

pub decrement_pending_grpc : Flow → Flow
unfolding check_backpressure
decrement_pending_grpc f = check_backpressure (record f {
  pending_grpc_requests =
      if ltb 0 f.pending_grpc_requests
      then f.pending_grpc_requests - 1
      else f.pending_grpc_requests;
})

-- The two steps of the reader's test: `if (is_reading_suspended_)`, then `async_wait`.
pub check_flag : Reader → Bool → Reader
check_flag reading suspended = if suspended then about_to_wait else reading
check_flag about_to_wait suspended = about_to_wait
check_flag waiting suspended = waiting

pub begin_wait : Reader → Reader
begin_wait reading = reading
begin_wait about_to_wait = waiting
begin_wait waiting = waiting

pub initial_flow : Flow
initial_flow = record { pending_grpc_requests = 0; is_reading_suspended = false; reader = reading }
