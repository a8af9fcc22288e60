-- ===== src/MainLoop.antt =====
-- main.cpp and GameLoop.cpp: the pace of the loop, and the synchronisation of the logical tick with
-- the planner. A request is answered at most once, by the task that the reply leaves.
pub mod Ticks
pub mod Shutdown
mod Tests
use mundus_vivens_game_serve.Common.{
  ℕ, zero, suc, ◌+◌, ◌-◌, ◌%◌, Bool, true, false, not, ◌&&◌, Option, none, some, List, [], ◌∷◌,
  ◌++◌, ◌==◌, ltb, if◌then◌else◌,
}

-- `GameLoop::Run`: the count of ticks, and the time at which the next one is due.
pub record Pace : Type 0 where
  pub tick : ℕ
  pub next_tick : ℕ

-- What one round does after the tick's work, at the time `now`: the time it sleeps for, and the
-- pace that it goes on with. A round that is late starts the count of the time anew.
pub pace_round : ℕ → ℕ → Pace → ℕ × Pace
pace_round interval now p =
    let due = p.next_tick + interval in
    if ltb now due
    then (due - now, record { tick = p.tick + 1; next_tick = due })
    else (0, record { tick = p.tick + 1; next_tick = now })

-- The synchronisation of the logical tick: the captured variables of `main`, and the targets of the
-- requests that the planner has not answered yet.
pub record TickSync : Type 0 where
  pub tick : ℕ
  pub is_tick_sync_pending : Bool
  pub tick_synced_ready : Bool
  pub next_tick_val : ℕ
  pub in_flight : List ℕ
  pub requests : List ℕ

-- The task that the reply to `ProcessWorldTickAsync` leaves.
pub answer_tick : Bool → ℕ → TickSync → TickSync
answer_tick is_success target_tick s =
    if is_success
    then record s {
      is_tick_sync_pending = false;
      next_tick_val = target_tick;
      tick_synced_ready = true;
    }
    else record s { is_tick_sync_pending = false }

-- The start of a frame takes over a tick that is ready.
pub take_tick : TickSync → TickSync
take_tick s =
    if s.tick_synced_ready
    then record s { tick_synced_ready = false; tick = s.next_tick_val }
    else s

-- The end of a frame asks for the next tick, once an hour, unless a request is under way.
pub ask_tick : ℕ → ℕ → TickSync → TickSync
ask_tick ticks_per_hour physical_tick s =
    if physical_tick % ticks_per_hour == 0 && not s.is_tick_sync_pending
    then record s {
      is_tick_sync_pending = true;
      in_flight = s.in_flight ++ ((s.tick + 1) ∷ []);
      requests = s.requests ++ ((s.tick + 1) ∷ []);
    }
    else s

-- The request at a position, and the others.
pub take_at : ℕ → List ℕ → Option (ℕ × List ℕ)
take_at k [] = none
take_at zero (target ∷ rest) = some (target, rest)
take_at (suc k) (target ∷ rest) = elim (take_at k rest) [
  | none ↦ none
  | some (found, others) ↦ some (found, target ∷ others)
]

-- `Drain` runs the task of a reply, if one has come: to which of the requests, and how it ended.
pub drain_reply : Option (ℕ × Bool) → TickSync → TickSync
drain_reply none s = s
drain_reply (some (k, is_success)) s = elim (take_at k s.in_flight) [
  | none ↦ s
  | some (target_tick, others) ↦
      answer_tick is_success target_tick (record s { in_flight = others })
]

-- A frame: the reply comes before all else.
pub frame : ℕ → ℕ → Option (ℕ × Bool) → TickSync → TickSync
frame ticks_per_hour physical_tick reply s =
    ask_tick ticks_per_hour physical_tick (take_tick (drain_reply reply s))

-- The frames that follow each other from a physical tick on, each with its reply.
pub run_frames : ℕ → ℕ → List (Option (ℕ × Bool)) → TickSync → TickSync
run_frames ticks_per_hour physical_tick [] s = s
run_frames ticks_per_hour physical_tick (reply ∷ rest) s =
    run_frames ticks_per_hour (physical_tick + 1) rest (frame ticks_per_hour physical_tick reply s)
