-- ===== src/Behavior/Seek/Endless.antt =====
-- What ActionMoveToTarget answers.
use mundus_vivens_game_serve.Common.{ℕ, ◌≡◌, ◌⊎◌, refl, Bool, true, false, ◌&&◌, arith}
use mundus_vivens_game_serve.Common.Float.{Float}
use mundus_vivens_game_serve.Common.Dict.{nat_eq}
use mundus_vivens_game_serve.Agents.{ToilState, idle, moving, working, interrupted}
use mundus_vivens_game_serve.Agents.Planning.{is_moving}
use mundus_vivens_game_serve.Agents.Tree.{success, running}
use mundus_vivens_game_serve.Agents.World.{World, Entities}
use mundus_vivens_game_serve.Behavior.Seek.{move_to_target, is_idle}

not_stuck : (s : ToilState) (b : Bool) → is_moving s ≡ true → is_idle s && b ≡ false
not_stuck idle b h = ground arith
not_stuck moving b h = refl
not_stuck working b h = ground arith
not_stuck interrupted b h = ground arith

module _ (fl : Float) (ecs : Entities fl.F) where
  open fl use {F}

  -- ActionMoveToTarget never fails: it succeeds and changes nothing, or it is running and the agent
  -- is on the move, also if it was idle with no waypoint left.
  pub move_to_target_goes_on :
      (e : ℕ) (w : World F)
      → (move_to_target fl ecs e w ≡ (success, w))
        ⊎ ((move_to_target fl ecs e w).0 ≡ running)
          × (is_moving (((move_to_target fl ecs e w).1.rows e).toil.state) ≡ true)
  unfolding move_to_target
  move_to_target_goes_on e w = ground (arith, not_stuck ((w.rows e).toil.state))
