-- ===== src/Net/Session/Calls.antt =====
-- The calls of the flow control, one access of the shared fields a step. `ClientSession` takes no
-- lock for them, so a thread may be anywhere inside a call while another one runs.
use mundus_vivens_game_serve.Common.{
  ℕ, zero, suc, ◌+◌, ◌-◌, ◌%◌, ◌≡◌, Bool, true, false, not, ◌&&◌, ltb, leb, if◌then◌else◌,
}
use mundus_vivens_game_serve.Net.Session.{Flow, size_t_mod, cancel_timer, check_flag, begin_wait}

-- Where a thread stands: outside; at the increment; at the test or at the decrement behind it; at
-- the reads and writes of `CheckBackpressure`, with its `was_suspended`; or at the cancellation.
pub data Pc : Type 0 where
  out to_increment to_test to_decrement to_check : Pc
  compares_high compares_low sets clears rereads : Bool → Pc
  cancels : Pc

-- One access.
unfoldable pub advance : Pc → Flow → Pc × Flow
unfolding cancel_timer
advance out f = (out, f)
advance to_increment f =
    (to_check, record f { pending_grpc_requests = (f.pending_grpc_requests + 1) % size_t_mod })
advance to_test f = (if ltb 0 f.pending_grpc_requests then to_decrement else to_check, f)
advance to_decrement f = (
  to_check,
  record f { pending_grpc_requests = (f.pending_grpc_requests + (size_t_mod - 1)) % size_t_mod },
)
advance to_check f = (compares_high f.is_reading_suspended, f)
advance (compares_high was) f =
    (if leb 32 f.pending_grpc_requests then sets was else compares_low was, f)
advance (compares_low was) f =
    (if leb f.pending_grpc_requests 8 then clears was else rereads was, f)
advance (sets was) f = (rereads was, record f { is_reading_suspended = true })
advance (clears was) f = (rereads was, record f { is_reading_suspended = false })
advance (rereads was) f = (if not f.is_reading_suspended && was then cancels else out, f)
advance cancels f = (out, record f { reader = cancel_timer f.reader })

-- A number of accesses of one thread, with no other in between.
unfoldable pub advance_times : ℕ → Pc × Flow → Pc × Flow
unfolding advance
advance_times zero s = s
advance_times (suc n) (pc, f) = advance_times n (advance pc f)

-- Two threads that count, the main thread and the one of the gRPC client, and the reader in the
-- flow's state.
pub record Threads : Type 0 where
  pub main : Pc
  pub grpc : Pc
  pub flow : Flow

abbrev pub main_advances : Threads → Threads
main_advances s =
    let (pc, f) = advance s.main s.flow in record { main = pc; grpc = s.grpc; flow = f }

abbrev pub grpc_advances : Threads → Threads
grpc_advances s =
    let (pc, f) = advance s.grpc s.flow in record { main = s.main; grpc = pc; flow = f }

abbrev pub reader_checks : Flow → Flow
reader_checks f = record f { reader = check_flag f.reader f.is_reading_suspended }

abbrev pub reader_waits : Flow → Flow
reader_waits f = record f { reader = begin_wait f.reader }

-- What may happen next: the main thread counts requests up, the other one down.
pub data Step (s : Threads) : Threads → Type 0 where
  main_calls : s.main ≡ out → Step s (record s { main = to_increment })
  grpc_calls : s.grpc ≡ out → Step s (record s { grpc = to_test })
  main_runs : Step s (main_advances s)
  grpc_runs : Step s (grpc_advances s)
  checks : Step s (record s { flow = reader_checks s.flow })
  waits : Step s (record s { flow = reader_waits s.flow })

pub data Reach (s : Threads) : Threads → Type 0 where
  here : Reach s s
  next : {t u : Threads} → Reach s t → Step t u → Reach s u

-- The same with no two calls under way at once: the next call begins when no thread is inside one.
pub data Turn (s : Pc × Flow) : Pc × Flow → Type 0 where
  counts_up : s.0 ≡ out → Turn s (to_increment, s.1)
  counts_down : s.0 ≡ out → Turn s (to_test, s.1)
  runs : Turn s (advance s.0 s.1)
  turn_checks : Turn s (s.0, reader_checks s.1)
  turn_waits : Turn s (s.0, reader_waits s.1)

pub data Turns (s : Pc × Flow) : Pc × Flow → Type 0 where
  start : Turns s s
  further : {t u : Pc × Flow} → Turns s t → Turn t u → Turns s u
