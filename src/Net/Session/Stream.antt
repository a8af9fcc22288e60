-- ===== src/Net/Session/Stream.antt =====
-- Framing over a byte stream: `Send` against the receive loop.
use mundus_vivens_game_serve.Common.{
  ℕ, zero, suc, ◌+◌, ◌-◌, ◌/◌, ◌%◌, ◌≤◌, ◌<◌, ◌≡◌, ◌≢◌, ◌⊎◌, refl, sym, ap, ◌∙◌, true, false,
  Option, some, List, [], ◌∷◌, ◌++◌, map, length, take, drop, length-append, length-drop,
  append_assoc, append-nil, arith, none, Option-cases, inl, inr, ltb, leb, ◌||◌,
}
use mundus_vivens_game_serve.Net.Packet.{
  ◌>>=◌, build_packet, wire, header_size, max_packet_size, read_u16_be,
}
use mundus_vivens_game_serve.Net.Packet.Framing.{packet_bytes, build_packet_cases}
use mundus_vivens_game_serve.Net.Session.{
  Session, Action, Closing, Pause, not_suspended, cancelled, never_ends, throws, stopped_by,
  later_pauses, Received, packet, bad_length, end_of_stream, out_of_fuel, receive_packet,
  handle_packet, after_action, run_loop, run_session,
}

take-append : (xs ys : List ℕ) → take (length xs) (xs ++ ys) ≡ xs
take-append [] ys = refl
take-append (x ∷ xs) ys = ap (◌∷◌ x) (take-append xs ys)

drop-append : (xs ys : List ℕ) → drop (length xs) (xs ++ ys) ≡ ys
drop-append [] ys = refl
drop-append (x ∷ xs) ys = drop-append xs ys

receive-packet_bytes :
    (packet_id : ℕ) (payload rest : List ℕ)
    → packet_id < 65536
    → length payload ≤ 65531
    → receive_packet (packet_bytes packet_id payload ++ rest) ≡ packet packet_id payload rest
unfolding receive_packet
receive-packet_bytes packet_id payload rest h k =
    let n = header_size + length payload in
    let len : read_u16_be (n / 256 % 256) (n % 256) ≡ n = omega arith in
    let pid : read_u16_be (packet_id / 256 % 256) (packet_id % 256) ≡ packet_id = omega arith in
    let size : n - header_size ≡ length payload = omega arith in
    let in_range : (ltb n header_size || ltb max_packet_size n) ≡ false = ground arith in
    let arrived : leb (length payload) (length (payload ++ rest)) ≡ true =
      ground (arith, length-append payload rest) in
    rw (len, pid, size, in_range, arrived, take-append payload rest, drop-append payload rest)

-- A packet takes its header's four bytes at least.
receive_packet-shrinks :
    (stream : List ℕ) (packet_id : ℕ) (payload rest : List ℕ)
    → receive_packet stream ≡ packet packet_id payload rest
    → length rest + 4 ≤ length stream
unfolding receive_packet
receive_packet-shrinks (b0 ∷ b1 ∷ b2 ∷ b3 ∷ tail) packet_id payload rest e =
    ground (arith, length-drop (read_u16_be b0 b1 - header_size) tail)
receive_packet-shrinks _ packet_id payload rest e = cc

Received-cases :
    (r : Received)
    → ((packet_id : ℕ) × (payload : List ℕ) × (rest : List ℕ) × (r ≡ packet packet_id payload rest))
      ⊎ ((r ≡ bad_length) ⊎ (r ≡ end_of_stream))
Received-cases (packet packet_id payload rest) = inl (packet_id, payload, rest, refl)
Received-cases bad_length = inr (inl refl)
Received-cases end_of_stream = inr (inr refl)

-- Any two amounts of fuel above the length of the stream give one result.
run_loop-fuel :
    (f g index : ℕ) (pauses : ℕ → Pause) (stream : List ℕ)
    → length stream < f
    → length stream < g
    → run_loop f index pauses stream ≡ run_loop g index pauses stream
unfolding run_loop
run_loop-fuel zero g index pauses stream h k = elim h [ ]
run_loop-fuel (suc f) zero index pauses stream h k = elim k [ ]
run_loop-fuel (suc f) (suc g) index pauses stream h k =
    elim (Option-cases (stopped_by (pauses 0))) [
      | inr (why, stop) ↦ rw (stop, run_loop)
      | inl on ↦ elim (Received-cases (receive_packet stream)) [
        | inl (packet_id, payload, rest, e) ↦
            let shorter = receive_packet-shrinks stream packet_id payload rest e in
            rw (on, e, run_loop)
              (ap (after_action (handle_packet index packet_id payload))
                (run_loop-fuel f g index (later_pauses pauses) rest (omega arith) (omega arith)))
        | inr (inl e) ↦ rw (on, e, run_loop)
        | inr (inr e) ↦ rw (on, e, run_loop)
      ]
    ]

stopped_by-real : (p : Pause) (why : Closing) → stopped_by p ≡ some why → why ≢ out_of_fuel
unfolding stopped_by
stopped_by-real not_suspended why e = cc
stopped_by-real cancelled why e = cc
stopped_by-real never_ends why e = λ q. cc
stopped_by-real throws why e = λ q. cc

run_loop-fed :
    (f index : ℕ) (pauses : ℕ → Pause) (stream : List ℕ)
    → length stream < f
    → (run_loop f index pauses stream).closing ≢ out_of_fuel
unfolding run_loop
run_loop-fed zero index pauses stream h = elim h [ ]
run_loop-fed (suc f) index pauses stream h = elim (Option-cases (stopped_by (pauses 0))) [
  | inr (why, stop) ↦ rw (stop, run_loop) (stopped_by-real (pauses 0) why stop)
  | inl on ↦ elim (Received-cases (receive_packet stream)) [
    | inl (packet_id, payload, rest, e) ↦
        let shorter = receive_packet-shrinks stream packet_id payload rest e in
        rw (on, e, run_loop) (run_loop-fed f index (later_pauses pauses) rest (omega arith))
    | inr (inl e) ↦ rw (on, e, run_loop) (λ q. cc)
    | inr (inr e) ↦ rw (on, e, run_loop) (λ q. cc)
  ]
]

-- The fuel of `run_session` is enough.
run_session-fed :
    (index : ℕ) (pauses : ℕ → Pause) (stream : List ℕ)
    → (run_session index pauses stream).closing ≢ out_of_fuel
unfolding run_session
run_session-fed index pauses stream =
    run_loop-fed (suc (length stream)) index pauses stream (omega arith)

run_session_packet :
    (index packet_id : ℕ) (pauses : ℕ → Pause) (stream payload rest : List ℕ)
    → stopped_by (pauses 0) ≡ none
    → receive_packet stream ≡ packet packet_id payload rest
    → run_session index pauses stream
      ≡ after_action
          (handle_packet index packet_id payload)
          (run_session index (later_pauses pauses) rest)
unfolding run_session run_loop
run_session_packet index packet_id pauses stream payload rest on e =
    let shorter = receive_packet-shrinks stream packet_id payload rest e in
    rw (on, e, run_loop)
      (ap (after_action (handle_packet index packet_id payload)) (
        run_loop-fuel (length stream) (suc (length rest)) index (later_pauses pauses) rest
          (omega arith) (omega arith)))

-- The first rounds find the flag clear, or their wait is cancelled.
abbrev pub AllGoOn : ℕ → (ℕ → Pause) → Type 0
AllGoOn zero pauses = Unit
AllGoOn (suc n) pauses = (stopped_by (pauses 0) ≡ none) × AllGoOn n (later_pauses pauses)

abbrev pub skip_pauses : ℕ → (ℕ → Pause) → ℕ → Pause
skip_pauses zero pauses = pauses
skip_pauses (suc n) pauses = skip_pauses n (later_pauses pauses)

-- A packet as its sender sees it.
abbrev pub Frame : Type 0
Frame = ℕ × List ℕ

-- The bytes of packets sent in a row; `none` if building one of them overruns its buffer.
abbrev pub transmit : List Frame → Option (List ℕ)
transmit [] = some []
transmit ((packet_id, payload) ∷ frames) = do
  buf ← build_packet packet_id payload
  bytes ← transmit frames
  some (wire buf ++ bytes)

abbrev pub AllSendable : List Frame → Type 0
AllSendable [] = Unit {0}
AllSendable ((packet_id, payload) ∷ frames) =
    (packet_id < 65536) × (length payload ≤ 65531) × AllSendable frames

abbrev pub dispatch : ℕ → Frame → Action
dispatch index (packet_id, payload) = handle_packet index packet_id payload

-- Packets of at most 65531 payload bytes, sent in a row by `Send`, are received as they were
-- sent: if no wait of the flow control before one of them lasts for ever or fails, the receive loop
-- dispatches each once, in their order, with its own identifier and payload, and then goes on with
-- the bytes and the pauses that follow.
pub run_session-transmit :
    (index : ℕ) (frames : List Frame) (pauses : ℕ → Pause) (rest : List ℕ)
    → AllSendable frames
    → AllGoOn (length frames) pauses
    → (bytes : List ℕ) × (transmit frames ≡ some bytes)
      × (run_session index pauses (bytes ++ rest) ≡ record {
        actions =
            map (dispatch index) frames
            ++ (run_session index (skip_pauses (length frames) pauses) rest).actions;
        closing = (run_session index (skip_pauses (length frames) pauses) rest).closing;
      })
run_session-transmit index [] pauses rest h on = ([], refl, refl)
run_session-transmit index ((packet_id, payload) ∷ frames) pauses rest (hid, hlen, more) (on, ons) =
    let (buf, built, on_wire) = (build_packet_cases packet_id payload).0 hlen in
    let (bytes, sent, received) =
      run_session-transmit index frames (later_pauses pauses) rest more ons in
    (
      wire buf ++ bytes,
      rw (built, sent),
      ap (λ w. run_session index pauses ((w ++ bytes) ++ rest)) on_wire
          ∙ ap (run_session index pauses) (append_assoc (packet_bytes packet_id payload) bytes rest)
          ∙ run_session_packet index packet_id pauses
              (packet_bytes packet_id payload ++ (bytes ++ rest)) payload (bytes ++ rest) on
              (receive-packet_bytes packet_id payload (bytes ++ rest) hid hlen)
          ∙ ap (after_action (handle_packet index packet_id payload)) received,
    )

run_session-nil : (index : ℕ) (pauses : ℕ → Pause) → (run_session index pauses []).actions ≡ []
unfolding run_session run_loop receive_packet
run_session-nil index pauses = elim (Option-cases (stopped_by (pauses 0))) [
  | inl on ↦ rw (run_loop, on)
  | inr (why, stop) ↦ rw (run_loop, stop)
]

-- The packets alone, with the stream ended behind them.
pub actions-transmit :
    (index : ℕ) (frames : List Frame) (pauses : ℕ → Pause)
    → AllSendable frames
    → AllGoOn (length frames) pauses
    → (bytes : List ℕ) × (transmit frames ≡ some bytes)
      × ((run_session index pauses bytes).actions ≡ map (dispatch index) frames)
actions-transmit index frames pauses h on =
    let (bytes, sent, received) = run_session-transmit index frames pauses [] h on in
    let actions : Session → List Action = λ s. s.actions in
    let rest = skip_pauses (length frames) pauses in
    (
      bytes,
      sent,
      ap (λ b. actions (run_session index pauses b)) (sym (append-nil bytes))
          ∙ ap actions received
          ∙ ap (λ found. map (dispatch index) frames ++ found) (run_session-nil index rest)
          ∙ append-nil (map (dispatch index) frames),
    )
