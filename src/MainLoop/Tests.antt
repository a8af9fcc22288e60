-- ===== src/MainLoop/Tests.antt =====
-- Frames in which a request fails and the next one is a success.
use mundus_vivens_game_serve.Common.{
  ℕ, inl, ◌≡◌, ◌+◌, refl, Bool, true, false, Option, none, some, List, [], ◌∷◌,
}
use mundus_vivens_game_serve.MainLoop.{
  TickSync, answer_tick, take_tick, ask_tick, drain_reply, take_at, frame, run_frames,
}
use mundus_vivens_game_serve.MainLoop.Ticks.{IsInStep, successes, run_frames_counts}

abbrev initial_sync : TickSync
initial_sync = record {
  tick = 0;
  is_tick_sync_pending = false;
  tick_synced_ready = false;
  next_tick_val = 0;
  in_flight = [];
  requests = [];
}

abbrev replies : List (Option (ℕ × Bool))
replies = none ∷ none ∷ some (0, false) ∷ none ∷ some (0, true) ∷ none ∷ []

two_requests : (run_frames 2 1 replies initial_sync).requests ≡ 1 ∷ 1 ∷ 2 ∷ []
unfolding run_frames frame drain_reply answer_tick take_tick ask_tick take_at
two_requests = refl

run_frames_counts_example :
    IsInStep (run_frames 2 1 replies initial_sync)
    × ((run_frames 2 1 replies initial_sync).tick ≡ 0 + successes 2 1 replies initial_sync)
run_frames_counts_example =
    run_frames_counts 2 1 replies initial_sync (record { taken = refl; flight = inl (refl, refl) })
