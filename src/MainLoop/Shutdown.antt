-- ===== src/MainLoop/Shutdown.antt =====
-- The end of `main`: the agents in a dialogue with a player, or about to begin one, wait again, and
-- the planner is told so.
use Prim.Native.String.{String}
use mundus_vivens_game_serve.Common.{ℕ, Bool, ◌&&◌, ◌||◌, List, [], ◌∷◌, if◌then◌else◌}
use mundus_vivens_game_serve.Agents.{same_text}
use mundus_vivens_game_serve.Agents.Furniture.{is_some}
use mundus_vivens_game_serve.Agents.JobDriver.{waiting}
use mundus_vivens_game_serve.Agents.World.{World, put_row}
use mundus_vivens_game_serve.Society.Initiate.{asking}
use mundus_vivens_game_serve.Sync.{AgentStatusUpdate, status_of}

abbrev pub is_pending_dialogue : String → Bool
is_pending_dialogue activity =
    same_text activity asking || same_text activity "플레이어와 대화 중" || same_text activity "플레이어와 대화 대기"

module _ {F : Type 0} where
  -- The updates to send, if there are any, and what is left.
  pub shut_down : List ℕ → World F → List (AgentStatusUpdate F) × World F
  shut_down [] w = ([], w)
  shut_down (e ∷ es) w =
      let r = w.rows e in
      let waits = record r { activity = waiting } in
      let (updates, restored) = shut_down es (put_row e waits w) in
      let skipped = shut_down es w in
      if r.is_valid && r.is_agent && is_some r.busy && is_pending_dialogue r.activity
      then (status_of waits ∷ updates, restored)
      else skipped
