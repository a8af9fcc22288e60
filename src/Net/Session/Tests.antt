-- ===== src/Net/Session/Tests.antt =====
-- Runs of the receive loop and of the flow control, and their theorems at concrete inputs.
use mundus_vivens_game_serve.Common.{
  ℕ, zero, suc, ◌<◌, ◌≡◌, refl, true, false, some, List, [], ◌∷◌, ◌++◌, map, arith,
}
use mundus_vivens_game_serve.Net.Session.{
  queue_command, send, login, Pause, not_suspended, cancelled, never_ends, stopped_by, run_session,
  receive_packet, handle_packet, Flow, waiting, about_to_wait, reading, initial_flow, size_t_mod,
  decrement_pending_grpc, begin_wait,
}
use mundus_vivens_game_serve.Net.Session.Stream.{
  Frame, transmit, dispatch, skip_pauses, run_session-transmit,
}
use mundus_vivens_game_serve.Net.Session.Backpressure.{
  IsConsistent, decrement_wakes, decrement_times, begin_wait_strands,
}
use mundus_vivens_game_serve.Net.Session.Calls.{out, to_check, Turns}
use mundus_vivens_game_serve.Net.Session.Turns.{Turns-IsConsistent}

-- A heartbeat, and a login with two bytes of payload.
abbrev frames : List Frame
frames = (0x00FF, []) ∷ (0x0001, 7 ∷ 9 ∷ []) ∷ []

abbrev stream : List ℕ
stream = 0 ∷ 4 ∷ 0 ∷ 255 ∷ 0 ∷ 6 ∷ 0 ∷ 1 ∷ 7 ∷ 9 ∷ []

abbrev always_clear : ℕ → Pause
always_clear n = not_suspended

-- The first round waits until the timer is cancelled, the third for ever.
abbrev wait_once : ℕ → Pause
wait_once zero = cancelled
wait_once (suc zero) = not_suspended
wait_once (suc (suc n)) = never_ends

two_actions :
    (run_session 3 always_clear stream).actions
    ≡ send 0x10FF []
      ∷ queue_command (record { type = login; payload = 7 ∷ 9 ∷ []; session_index = 3 })
      ∷ []
unfolding run_session receive_packet handle_packet stopped_by
two_actions = refl

run_session-transmit_example :
    (bytes : List ℕ) × (transmit frames ≡ some bytes)
    × (run_session 3 wait_once (bytes ++ 0 ∷ 1 ∷ []) ≡ record {
      actions =
          map (dispatch 3) frames ++ (run_session 3 (skip_pauses 2 wait_once) (0 ∷ 1 ∷ [])).actions;
      closing = (run_session 3 (skip_pauses 2 wait_once) (0 ∷ 1 ∷ [])).closing;
    })
unfolding stopped_by
run_session-transmit_example =
    run_session-transmit 3 frames wait_once (0 ∷ 1 ∷ []) (omega arith) (refl, (refl, tt))

abbrev paused : Flow
paused = record { pending_grpc_requests = 9; is_reading_suspended = true; reader = waiting }

paused-IsConsistent : IsConsistent paused
paused-IsConsistent = record {
  counted = omega arith;
  full = λ h. refl;
  drained = λ h. absurd (omega arith);
}

decrement_wakes_example :
    ((decrement_pending_grpc paused).is_reading_suspended ≡ false
      → ((decrement_pending_grpc paused).reader ≡ reading) × (paused.pending_grpc_requests ≡ 9))
    × ((decrement_pending_grpc paused).is_reading_suspended ≡ true
        → (decrement_pending_grpc paused).reader ≡ waiting)
decrement_wakes_example = decrement_wakes paused paused-IsConsistent refl refl

abbrev hesitating : Flow
hesitating = record paused { reader = about_to_wait }

begin_wait_strands_example :
    let late = decrement_pending_grpc hesitating in
    let after = decrement_times 8 (record late { reader = begin_wait late.reader }) in
    (after.reader ≡ waiting) × (after.is_reading_suspended ≡ false)
begin_wait_strands_example = begin_wait_strands hesitating 8 refl refl refl

abbrev full : Flow
full = record { pending_grpc_requests = 31; is_reading_suspended = false; reader = reading }

Turns-IsConsistent_example :
    (Turns (out, initial_flow) (out, initial_flow) → IsConsistent initial_flow)
    × (full.pending_grpc_requests < size_t_mod
        → Turns (to_check, full) (out, initial_flow)
        → IsConsistent initial_flow)
Turns-IsConsistent_example = Turns-IsConsistent full initial_flow
