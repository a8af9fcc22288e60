-- ===== src/Net/Session/Backpressure.antt =====
-- The flow control, each call taken whole: when a reader is woken, and when its wake-up is lost.
-- Net/Session/Turns has the calls access by access, Net/Session/Overlap those that overlap.
use mundus_vivens_game_serve.Common.{ℕ, zero, suc, ◌≤◌, ◌<◌, ◌≡◌, true, false, arith}
use mundus_vivens_game_serve.Net.Session.{
  Flow, reading, about_to_wait, waiting, size_t_mod, decrement_pending_grpc, begin_wait,
}

-- The flag agrees with the thresholds; between them it remembers which was passed last.
pub record IsConsistent (f : Flow) : Type 0 where
  pub counted : f.pending_grpc_requests < size_t_mod
  pub full : 32 ≤ f.pending_grpc_requests → f.is_reading_suspended ≡ true
  pub drained : f.pending_grpc_requests ≤ 8 → f.is_reading_suspended ≡ false

-- If no other call is under way, a completed request that lifts the suspension wakes a reader whose wait has begun, and one that
-- does not lift it leaves that reader asleep.
pub decrement_wakes :
    (f : Flow)
    → IsConsistent f
    → f.reader ≡ waiting
    → f.is_reading_suspended ≡ true
    → ((decrement_pending_grpc f).is_reading_suspended ≡ false
        → ((decrement_pending_grpc f).reader ≡ reading) × (f.pending_grpc_requests ≡ 9))
      × ((decrement_pending_grpc f).is_reading_suspended ≡ true
          → (decrement_pending_grpc f).reader ≡ waiting)
unfolding decrement_pending_grpc
decrement_wakes f v w s = (λ h. (ground arith, ground arith), λ h. ground arith)

pub decrement_times : ℕ → Flow → Flow
decrement_times zero f = f
decrement_times (suc n) f = decrement_times n (decrement_pending_grpc f)

-- A reader that waits while reading is not suspended: nothing is left that would wake it.
abbrev IsStranded : Flow → Type 0
IsStranded f =
    (f.reader ≡ waiting) × (f.is_reading_suspended ≡ false) × (f.pending_grpc_requests ≤ 8)

decrement-IsStranded : (f : Flow) → IsStranded f → IsStranded (decrement_pending_grpc f)
unfolding decrement_pending_grpc
decrement-IsStranded f s = (ground arith, ground arith, ground arith)

decrement_times-IsStranded : (n : ℕ) (f : Flow) → IsStranded f → IsStranded (decrement_times n f)
unfolding decrement_times
decrement_times-IsStranded zero f s = s
decrement_times-IsStranded (suc n) f s =
    decrement_times-IsStranded n (decrement_pending_grpc f) (decrement-IsStranded f s)

strands_now :
    (f : Flow)
    → f.reader ≡ about_to_wait
    → f.is_reading_suspended ≡ true
    → f.pending_grpc_requests ≡ 9
    → let late = decrement_pending_grpc f in
      IsStranded (record late { reader = begin_wait late.reader })
unfolding decrement_pending_grpc begin_wait
strands_now f r s p = (ground arith, ground arith, ground arith)

-- Even if no two calls of the flow control overlap, a wake-up is lost if the request that brings
-- the count down to 8 completes after the reader has seen the flag and before its wait begins: the reader then waits although reading is not
-- suspended, and however many of the pending requests complete, none of them wakes it.
pub begin_wait_strands :
    (f : Flow) (n : ℕ)
    → f.reader ≡ about_to_wait
    → f.is_reading_suspended ≡ true
    → f.pending_grpc_requests ≡ 9
    → let late = decrement_pending_grpc f in
      let after = decrement_times n (record late { reader = begin_wait late.reader }) in
      (after.reader ≡ waiting) × (after.is_reading_suspended ≡ false)
begin_wait_strands f n r s p =
    let late = decrement_pending_grpc f in
    let stranded =
      decrement_times-IsStranded n (record late { reader = begin_wait late.reader })
        (strands_now f r s p) in
    (stranded.0, stranded.1)
