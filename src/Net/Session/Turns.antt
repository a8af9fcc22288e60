-- ===== src/Net/Session/Turns.antt =====
-- The calls of the flow control, alone and in turns.
use mundus_vivens_game_serve.Common.{
  ℕ, ◌≤◌, ◌<◌, ◌≡◌, refl, true, false, arith, Bool, if◌then◌else◌,
}
use mathlib.Core.Path.{subst}
use mundus_vivens_game_serve.Net.Session.{Flow, Reader, size_t_mod, initial_flow}
use mundus_vivens_game_serve.Net.Session.Backpressure.{IsConsistent}
use mundus_vivens_game_serve.Net.Session.Calls.{
  Pc, out, to_increment, to_test, to_decrement, to_check, compares_high, compares_low, sets, clears,
  rereads, cancels, advance, Turn, counts_up, counts_down, runs, turn_checks, turn_waits, Turns,
  start, further,
}

abbrev pub flow_at : ℕ → Bool → Reader → Flow
flow_at n was r = record { pending_grpc_requests = n; is_reading_suspended = was; reader = r }

-- Where the flag and the count stand inside a call that no other call overlaps.
IsOrderly : Pc → Flow → Type 0
IsOrderly out f = IsConsistent f
IsOrderly to_increment f = IsConsistent f
IsOrderly to_test f = IsConsistent f
IsOrderly to_decrement f = IsConsistent f × (0 < f.pending_grpc_requests)
IsOrderly to_check f = f.pending_grpc_requests < size_t_mod
IsOrderly (compares_high was) f = f.pending_grpc_requests < size_t_mod
IsOrderly (compares_low was) f =
    (f.pending_grpc_requests < size_t_mod) × (f.pending_grpc_requests < 32)
IsOrderly (sets was) f = (f.pending_grpc_requests < size_t_mod) × (32 ≤ f.pending_grpc_requests)
IsOrderly (clears was) f = (f.pending_grpc_requests < size_t_mod) × (f.pending_grpc_requests ≤ 8)
IsOrderly (rereads was) f = IsConsistent f
IsOrderly cancels f = IsConsistent f

either_pc :
    (P : Pc → Type 0) (b : Bool) (x y : Pc)
    → (b ≡ true → P x)
    → (b ≡ false → P y)
    → P (if b then x else y)
either_pc P true x y h k = h refl
either_pc P false x y h k = k refl

advance-IsOrderly :
    (pc : Pc) (f : Flow) → IsOrderly pc f → IsOrderly (advance pc f).0 (advance pc f).1
unfolding advance IsOrderly
advance-IsOrderly out f v = v
advance-IsOrderly to_increment f v = omega arith
advance-IsOrderly to_test f v =
    either_pc (λ pc. IsOrderly pc f) _ to_decrement to_check (λ h. (v, ground arith))
      (λ h. v.counted)
advance-IsOrderly to_decrement f v = omega arith
advance-IsOrderly to_check f v = v
advance-IsOrderly (compares_high was) f v =
    either_pc (λ pc. IsOrderly pc f) _ (sets was) (compares_low was) (λ h. (v, ground arith))
      (λ h. (v, ground arith))
advance-IsOrderly (compares_low was) f v =
    either_pc (λ pc. IsOrderly pc f) _ (clears was) (rereads was) (λ h. (v.0, ground arith))
      (λ h. record {
        counted = v.0;
        full = λ k. absurd (omega (arith, k, v.1));
        drained = λ k. absurd (ground arith);
      })
advance-IsOrderly (sets was) f v = record {
  counted = v.0;
  full = λ h. refl;
  drained = λ h. absurd (omega (arith, h, v.1));
}
advance-IsOrderly (clears was) f v = record {
  counted = v.0;
  full = λ h. absurd (omega (arith, h, v.1));
  drained = λ h. refl;
}
advance-IsOrderly (rereads was) f v =
    either_pc (λ pc. IsOrderly pc f) _ cancels out (λ h. v) (λ h. v)
advance-IsOrderly cancels f v = record { counted = v.counted; full = v.full; drained = v.drained }

-- The reader's own steps leave the flag and the count alone.
reader-IsOrderly :
    (pc : Pc) (n : ℕ) (b : Bool) (r q : Reader)
    → IsOrderly pc (flow_at n b r)
    → IsOrderly pc (flow_at n b q)
unfolding IsOrderly
reader-IsOrderly out n b r q v = record { counted = v.counted; full = v.full; drained = v.drained }
reader-IsOrderly to_increment n b r q v = record {
  counted = v.counted;
  full = v.full;
  drained = v.drained;
}
reader-IsOrderly to_test n b r q v = record {
  counted = v.counted;
  full = v.full;
  drained = v.drained;
}
reader-IsOrderly to_decrement n b r q (v, k) =
    (record { counted = v.counted; full = v.full; drained = v.drained }, k)
reader-IsOrderly to_check n b r q v = v
reader-IsOrderly (compares_high was) n b r q v = v
reader-IsOrderly (compares_low was) n b r q v = v
reader-IsOrderly (sets was) n b r q v = v
reader-IsOrderly (clears was) n b r q v = v
reader-IsOrderly (rereads was) n b r q v = record {
  counted = v.counted;
  full = v.full;
  drained = v.drained;
}
reader-IsOrderly cancels n b r q v = record {
  counted = v.counted;
  full = v.full;
  drained = v.drained;
}

Turn-IsOrderly : {s t : Pc × Flow} → Turn s t → IsOrderly s.0 s.1 → IsOrderly t.0 t.1
unfolding IsOrderly
Turn-IsOrderly {s} (counts_up at) v = subst (λ pc. IsOrderly pc s.1) at v
Turn-IsOrderly {s} (counts_down at) v = subst (λ pc. IsOrderly pc s.1) at v
Turn-IsOrderly {s} runs v = advance-IsOrderly s.0 s.1 v
Turn-IsOrderly {s} turn_checks v =
    reader-IsOrderly s.0 s.1.pending_grpc_requests s.1.is_reading_suspended _ _ v
Turn-IsOrderly {s} turn_waits v =
    reader-IsOrderly s.0 s.1.pending_grpc_requests s.1.is_reading_suspended _ _ v

Turns-IsOrderly : {s t : Pc × Flow} → Turns s t → IsOrderly s.0 s.1 → IsOrderly t.0 t.1
Turns-IsOrderly start v = v
Turns-IsOrderly (further r u) v = Turn-IsOrderly u (Turns-IsOrderly r v)

-- As long as no two calls of the flow control overlap, and however the reader's steps fall between
-- their accesses: from the initial values, and also from any flag and any count at all once a
-- thread is about to execute `CheckBackpressure`, reading is suspended at 32 pending requests or
-- more, and not suspended at 8 or fewer, whenever no call is under way.
pub Turns-IsConsistent :
    (f g : Flow)
    → (Turns (out, initial_flow) (out, g) → IsConsistent g)
      × (f.pending_grpc_requests < size_t_mod → Turns (to_check, f) (out, g) → IsConsistent g)
unfolding initial_flow IsOrderly
Turns-IsConsistent f g = (
  λ r.
      Turns-IsOrderly r
        (record { counted = omega arith; full = λ h. absurd (omega arith); drained = λ h. refl }),
  λ h r. Turns-IsOrderly r h,
)
