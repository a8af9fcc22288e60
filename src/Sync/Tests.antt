-- ===== src/Sync/Tests.antt =====
-- A batch of one agent, which has moved on when the acknowledgement comes.
use mundus_vivens_game_serve.Common.{ℕ, ◌≡◌, refl, true, false, some, [], ◌∷◌}
use mathlib.Core.List.Memᴰ.{head}
use mundus_vivens_game_serve.Agents.World.{Row, World}
use mundus_vivens_game_serve.Agents.World.Sample.{newcomer, other_agent, table, world_of}
use mundus_vivens_game_serve.Sync.{
  has_changed, is_outdated, status_of, collect_updates, synced_with, acknowledge,
}
use mundus_vivens_game_serve.Sync.Settled.{acknowledge_settles}

abbrev walker : Row ℕ
walker = record newcomer {
  activity = "work";
  synced = some (record { location = ""; emotion = ""; activity = "" });
}

abbrev before : World ℕ
before = world_of walker other_agent table

abbrev later : World ℕ
later = world_of (record walker { activity = "rest" }) other_agent table

walker_changed : is_outdated walker ≡ true
unfolding has_changed
walker_changed = refl

acknowledge_settles_example :
    ((acknowledge true (collect_updates (1 ∷ 2 ∷ []) before) later).rows 1
      ≡ record (later.rows 1) { synced = some (synced_with (status_of walker)) })
    × (collect_updates (1 ∷ 2 ∷ []) (acknowledge true (collect_updates (1 ∷ 2 ∷ []) before) before)
        ≡ [])
    × (collect_updates (1 ∷ 2 ∷ []) (acknowledge false (collect_updates (1 ∷ 2 ∷ []) before) before)
        ≡ collect_updates (1 ∷ 2 ∷ []) before)
acknowledge_settles_example =
    acknowledge_settles (1 ∷ 2 ∷ []) before later 1 (head refl) walker_changed refl refl
