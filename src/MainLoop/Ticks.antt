-- ===== src/MainLoop/Ticks.antt =====
-- The logical tick under any replies of the planner.
use mundus_vivens_game_serve.Common.{
  ℕ, zero, suc, ◌+◌, ◌≡◌, ◌⊎◌, ◌∙◌, sym, refl, ap, inl, inr, Bool, true, false, ◌==◌, ◌%◌, List, [],
  ◌∷◌, if◌then◌else◌, arith, Option, none, some, Bool-cases,
}
use mathlib.Core.Path.{subst}
use mundus_vivens_game_serve.MainLoop.{
  TickSync, answer_tick, take_tick, ask_tick, take_at, drain_reply, frame, run_frames,
}

-- Between two frames: the flag tells whether a request is under way, there is one at most, it is for
-- the tick after the current one, and no tick is left to be taken over.
pub record IsInStep (s : TickSync) : Type 0 where
  pub taken : s.tick_synced_ready ≡ false
  pub flight :
      (s.is_tick_sync_pending ≡ false) × (s.in_flight ≡ [])
      ⊎ (s.is_tick_sync_pending ≡ true) × (s.in_flight ≡ (s.tick + 1) ∷ [])

-- 1 for a reply that is a success to a request under way.
abbrev pub advances : Option (ℕ × Bool) → TickSync → ℕ
advances none s = 0
advances (some (k, is_success)) s = elim (take_at k s.in_flight) [
  | none ↦ 0
  | some found ↦ if is_success then 1 else 0
]

-- A state in step, written out.
abbrev quiet : ℕ → ℕ → List ℕ → TickSync
quiet tick next requests = record {
  tick = tick;
  is_tick_sync_pending = false;
  tick_synced_ready = false;
  next_tick_val = next;
  in_flight = [];
  requests = requests;
}

abbrev asked : ℕ → ℕ → List ℕ → TickSync
asked tick next requests = record (quiet tick next requests) {
  is_tick_sync_pending = true;
  in_flight = (tick + 1) ∷ [];
}

abbrev Steps : ℕ → ℕ → Option (ℕ × Bool) → TickSync → Type 0
Steps hour physical reply s =
    IsInStep (frame hour physical reply s)
    × ((frame hour physical reply s).tick ≡ s.tick + advances reply s)

ask_quiet :
    (hour physical tick next : ℕ) (requests : List ℕ)
    → IsInStep (ask_tick hour physical (quiet tick next requests))
      × ((ask_tick hour physical (quiet tick next requests)).tick ≡ tick)
unfolding ask_tick
ask_quiet hour physical tick next requests = elim (Bool-cases (physical % hour == 0)) [
  | inl due ↦ rw due (record { taken = refl; flight = inr (refl, refl) }, refl)
  | inr early ↦ rw early (record { taken = refl; flight = inl (refl, refl) }, refl)
]

ask_asked :
    (hour physical tick next : ℕ) (requests : List ℕ)
    → IsInStep (ask_tick hour physical (asked tick next requests))
      × ((ask_tick hour physical (asked tick next requests)).tick ≡ tick)
unfolding ask_tick
ask_asked hour physical tick next requests = elim (Bool-cases (physical % hour == 0)) [
  | inl due ↦ rw due (record { taken = refl; flight = inr (refl, refl) }, refl)
  | inr early ↦ rw early (record { taken = refl; flight = inr (refl, refl) }, refl)
]

quiet-Steps :
    (hour physical : ℕ) (reply : Option (ℕ × Bool)) (tick next : ℕ) (requests : List ℕ)
    → Steps hour physical reply (quiet tick next requests)
unfolding frame drain_reply take_tick take_at
quiet-Steps hour physical none tick next requests =
    let (h, e) = ask_quiet hour physical tick next requests in (h, omega (arith, e))
quiet-Steps hour physical (some (k, ok)) tick next requests =
    let (h, e) = ask_quiet hour physical tick next requests in (h, omega (arith, e))

asked-Steps :
    (hour physical : ℕ) (reply : Option (ℕ × Bool)) (tick next : ℕ) (requests : List ℕ)
    → Steps hour physical reply (asked tick next requests)
unfolding frame drain_reply answer_tick take_tick take_at
asked-Steps hour physical none tick next requests =
    let (h, e) = ask_asked hour physical tick next requests in (h, omega (arith, e))
asked-Steps hour physical (some (zero, true)) tick next requests =
    let (h, e) = ask_quiet hour physical (tick + 1) (tick + 1) requests in (h, e)
asked-Steps hour physical (some (zero, false)) tick next requests =
    let (h, e) = ask_quiet hour physical tick next requests in (h, omega (arith, e))
asked-Steps hour physical (some (suc k, ok)) tick next requests =
    let (h, e) = ask_asked hour physical tick next requests in (h, omega (arith, e))

in_step-Steps :
    (hour physical : ℕ) (reply : Option (ℕ × Bool)) (s : TickSync)
    → IsInStep s
    → Steps hour physical reply s
in_step-Steps hour physical reply s h =
    let with_fields : Bool → Bool → List ℕ → TickSync = λ pending ready flight. record s {
      is_tick_sync_pending = pending;
      tick_synced_ready = ready;
      in_flight = flight;
    } in
    elim h.flight [
      | inl (idle, empty) ↦
          let same : quiet s.tick s.next_tick_val s.requests ≡ s =
            ap (λ b. with_fields b false []) (sym idle)
            ∙ ap (λ b. with_fields s.is_tick_sync_pending b []) (sym h.taken)
            ∙ ap (λ l. with_fields s.is_tick_sync_pending s.tick_synced_ready l) (sym empty) in
          subst (Steps hour physical reply) same
            (quiet-Steps hour physical reply s.tick s.next_tick_val s.requests)
      | inr (busy, one) ↦
          let same : asked s.tick s.next_tick_val s.requests ≡ s =
            ap (λ b. with_fields b false ((s.tick + 1) ∷ [])) (sym busy)
            ∙ ap (λ b. with_fields s.is_tick_sync_pending b ((s.tick + 1) ∷ [])) (sym h.taken)
            ∙ ap (λ l. with_fields s.is_tick_sync_pending s.tick_synced_ready l) (sym one) in
          subst (Steps hour physical reply) same
            (asked-Steps hour physical reply s.tick s.next_tick_val s.requests)
    ]

-- The same over the frames from a physical tick on.
unfoldable pub successes : ℕ → ℕ → List (Option (ℕ × Bool)) → TickSync → ℕ
successes hour physical [] s = 0
successes hour physical (reply ∷ rest) s =
    advances reply s + successes hour (physical + 1) rest (frame hour physical reply s)

-- However the planner answers, after any frames at most one request is under way, for the tick after
-- the current one, and no tick is left to be taken over; and the tick has grown by one for each
-- request that was answered with a success, and for nothing else.
pub run_frames_counts :
    (hour physical : ℕ) (replies : List (Option (ℕ × Bool))) (s : TickSync)
    → IsInStep s
    → IsInStep (run_frames hour physical replies s)
      × ((run_frames hour physical replies s).tick ≡ s.tick + successes hour physical replies s)
unfolding run_frames successes
run_frames_counts hour physical [] s h = (h, ground arith)
run_frames_counts hour physical (reply ∷ rest) s h =
    let (stays, grows) = in_step-Steps hour physical reply s h in
    let (end, grown) =
      run_frames_counts hour (physical + 1) rest (frame hour physical reply s) stays in
    (end, omega (arith, grown, grows))
