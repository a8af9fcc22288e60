-- ===== src/Players/Index/Reach.antt =====
-- The indices at every moment of a run.
use mundus_vivens_game_serve.Common.{ℕ, Bool, List, Option}
use mundus_vivens_game_serve.Common.Dict.{nat_eq}
use mundus_vivens_game_serve.Common.Float.{Float}
use mundus_vivens_game_serve.Agents.World.{World, Entities}
use mundus_vivens_game_serve.Players.{AgentIdMapper, cleanup_disconnected}
use mundus_vivens_game_serve.Players.Commands.{Request, player_commands}
use mundus_vivens_game_serve.Players.Replies.{answer_start, answer_end}
use mundus_vivens_game_serve.Players.Index.{
  IsIndexed, answer_start-IsIndexed, answer_end-IsIndexed, cleanup-IsIndexed,
}
use mundus_vivens_game_serve.Players.Index.Requests.{CreatesNew, player_commands-IsIndexed}

module _ (fl : Float) (ecs : Entities fl.F) (mapper : AgentIdMapper) where
  open fl use {F}

  -- What the main loop and the result queue do to the players, step by step.
  pub data Step (w : World F) : World F → Type 0 where
    commands :
        (is_connected : ℕ → Bool) (cmds : List (ℕ × Option (Request F)))
        → CreatesNew fl ecs mapper is_connected cmds w
        → Step w (player_commands fl ecs mapper is_connected cmds w).0
    cleanup :
        (is_connected : ℕ → Bool) (es : List ℕ) → Step w (cleanup_disconnected fl is_connected es w)
    started : (b : Bool) (id npc player : ℕ) → Step w (answer_start b id npc player w)
    ended : (npc player : Option ℕ) → Step w (answer_end npc player w)

  pub data Reach (w : World F) : World F → Type 0 where
    here : Reach w w
    next : {u v : World F} → Reach w u → Step u v → Reach w v

  Step-IsIndexed : {u v : World F} → Step u v → IsIndexed u → IsIndexed v
  Step-IsIndexed {u} (commands is_connected cmds new) h =
      player_commands-IsIndexed fl ecs mapper is_connected cmds u new h
  Step-IsIndexed {u} (cleanup is_connected es) h = cleanup-IsIndexed fl is_connected es u h
  Step-IsIndexed {u} (started b id npc player) h = answer_start-IsIndexed b id npc player u h
  Step-IsIndexed {u} (ended npc player) h = answer_end-IsIndexed npc player u h

  -- If the indices are right at first, then after any commands, clean-ups and replies, in any order,
  -- where an entity that is created is a new one, an entry by session leads to a valid player that
  -- has this session, and an entry by number to a valid entity that has this number.
  pub Reach-IsIndexed : {w v : World F} → IsIndexed w → Reach w v → IsIndexed v
  Reach-IsIndexed h here = h
  Reach-IsIndexed h (next reach step) = Step-IsIndexed step (Reach-IsIndexed h reach)
