-- ===== src/Net/Server/Commands.antt =====
-- The command queue, on the way from the receive loop to the game loop.
use mundus_vivens_game_serve.Common.{
  ℕ, ◌≡◌, sym, ap, ◌∙◌, List, [], ◌∷◌, ◌++◌, map, length, append-nil, append_assoc, arith, some,
}
use mundus_vivens_game_serve.Net.Session.{
  PlayerCommand, Action, queue_command, send, unknown_packet, run_session, Pause,
}
use mundus_vivens_game_serve.Net.Session.Stream.{
  Frame, AllSendable, AllGoOn, transmit, dispatch, actions-transmit,
}
use mundus_vivens_game_serve.Net.Server.{
  TcpServer, queue_player_command, drain_player_commands, perform_all, start, accept_connection,
  unregister_session, send_to, broadcast_packet, Call, starts, accepts, drains, unregisters, sends,
  broadcasts, queues, apply, apply_all,
}

-- The commands that a sequence of calls puts in, and those that its drains take out.
abbrev pub queued : List Call → List PlayerCommand
queued [] = []
queued (queues cmd ∷ cs) = cmd ∷ queued cs
queued (_ ∷ cs) = queued cs

abbrev drained_by : TcpServer → Call → List PlayerCommand
drained_by s drains = (drain_player_commands s).0
drained_by s _ = []

abbrev pub drained : TcpServer → List Call → List PlayerCommand
drained s [] = []
drained s (c ∷ cs) = drained_by s c ++ drained (apply s c) cs

pending-start : (s : TcpServer) → (start s).pending_commands ≡ s.pending_commands
unfolding start
pending-start s = ground arith

-- However the threads' calls interleave, the drains together return the queued commands, each
-- once and in the order in which they were queued, up to those that are still pending.
pub drained-apply_all :
    (s : TcpServer) (cs : List Call)
    → drained s cs ++ (apply_all s cs).pending_commands ≡ s.pending_commands ++ queued cs
unfolding apply_all accept_connection unregister_session send_to broadcast_packet
    queue_player_command drain_player_commands
drained-apply_all s [] = sym (append-nil s.pending_commands)
drained-apply_all s (drains ∷ cs) =
    append_assoc s.pending_commands _ _
    ∙ ap (◌++◌ s.pending_commands) (drained-apply_all (drain_player_commands s).1 cs)
drained-apply_all s (queues cmd ∷ cs) =
    drained-apply_all (queue_player_command cmd s) cs
    ∙ append_assoc s.pending_commands (cmd ∷ []) (queued cs)
drained-apply_all s (starts ∷ cs) =
    drained-apply_all (start s) cs ∙ ap (λ p. p ++ queued cs) (pending-start s)
drained-apply_all s (accepts ∷ cs) = drained-apply_all (accept_connection s).1 cs
drained-apply_all s (unregisters i ∷ cs) = drained-apply_all (unregister_session i s) cs
drained-apply_all s (sends i packet_id payload ∷ cs) =
    drained-apply_all (send_to i packet_id payload s) cs
drained-apply_all s (broadcasts packet_id payload ∷ cs) =
    drained-apply_all (broadcast_packet packet_id payload s) cs

-- The commands among the actions of a session.
abbrev pub commands_of : List Action → List PlayerCommand
commands_of [] = []
commands_of (queue_command cmd ∷ rest) = cmd ∷ commands_of rest
commands_of (_ ∷ rest) = commands_of rest

pending-perform_all :
    (index : ℕ) (actions : List Action) (s : TcpServer)
    → (perform_all index actions s).pending_commands ≡ s.pending_commands ++ commands_of actions
unfolding perform_all queue_player_command send_to
pending-perform_all index [] s = sym (append-nil s.pending_commands)
pending-perform_all index (queue_command cmd ∷ rest) s =
    pending-perform_all index rest (queue_player_command cmd s)
    ∙ append_assoc s.pending_commands (cmd ∷ []) (commands_of rest)
pending-perform_all index (send packet_id payload ∷ rest) s =
    pending-perform_all index rest (send_to index packet_id payload s)
pending-perform_all index (unknown_packet packet_id ∷ rest) s = pending-perform_all index rest s

-- What a client sends arrives: if no wait of the flow control before one of the packets lasts for
-- ever or fails, then, when the receive loop of session `index` has taken in the row of packets,
-- the queue has grown by their commands, in the order of sending.
pub pending-transmit :
    (index : ℕ) (frames : List Frame) (pauses : ℕ → Pause) (s : TcpServer)
    → AllSendable frames
    → AllGoOn (length frames) pauses
    → (bytes : List ℕ) × (transmit frames ≡ some bytes)
      × ((perform_all index (run_session index pauses bytes).actions s).pending_commands
          ≡ s.pending_commands ++ commands_of (map (dispatch index) frames))
pending-transmit index frames pauses s h on =
    let (bytes, sent, received) = actions-transmit index frames pauses h on in
    (
      bytes,
      sent,
      pending-perform_all index _ s
          ∙ ap (λ actions. s.pending_commands ++ commands_of actions) received,
    )
