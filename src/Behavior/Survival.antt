-- ===== src/Behavior/Survival.antt =====
-- CreateSurvivalTree, and the tick of it on one agent.
pub mod Fighting
use mundus_vivens_game_serve.Common.{ℕ, none, some, if◌then◌else◌}
use mundus_vivens_game_serve.Common.Float.{Float}
use mundus_vivens_game_serve.Grid.{Field}
use mundus_vivens_game_serve.Agents.Furniture.{is_some}
use mundus_vivens_game_serve.Agents.Tree.{
  Node, Nodes, no_child, child, leaf, selector, sequence, update_tree,
}
use mundus_vivens_game_serve.Agents.World.{World, Entities}
use mundus_vivens_game_serve.Behavior.Crisis.{
  is_hungry, is_fatigued, is_scheduled_eat, is_scheduled_sleep,
}
use mundus_vivens_game_serve.Behavior.Seek.{find_furniture, move_to_target}
use mundus_vivens_game_serve.Behavior.Recover.{interact_furniture}
use mundus_vivens_game_serve.Behavior.Combat.{has_combat_target, is_low_health, melee_attack}
use mundus_vivens_game_serve.Behavior.Flee.{flee}
use mundus_vivens_game_serve.Behavior.Wander.{can_wander, wander}
use mundus_vivens_game_serve.Behavior.Aggro.{is_aggro_high, inhibit_or_attack}

module _ (fl : Float) (ecs : Entities fl.F) (grid : Field) (cos sin : fl.F → fl.F) (e : ℕ) where
  open fl use {F}

  abbrev pub flee_seq : Node (World F)
  flee_seq = sequence (
      child (leaf (has_combat_target e))
        (child (leaf (is_low_health fl e)) (child (leaf (flee fl grid cos sin e)) no_child)))

  abbrev pub aggro_seq : Node (World F)
  aggro_seq =
      sequence (child (leaf (is_aggro_high e)) (child (leaf (inhibit_or_attack fl e)) no_child))

  abbrev pub combat_seq : Node (World F)
  combat_seq =
      sequence (child (leaf (has_combat_target e)) (child (leaf (melee_attack fl e)) no_child))

  -- The care for a need that the condition finds critical.
  abbrev pub crisis_seq : Node (World F) → Node (World F)
  crisis_seq condition = sequence (
      child condition (
        child (leaf (find_furniture fl ecs e)) (
          child (leaf (move_to_target fl ecs e))
            (child (leaf (interact_furniture fl ecs e)) no_child))))

  abbrev pub hunger_seq : Node (World F)
  hunger_seq = crisis_seq (leaf (is_hungry fl e))

  abbrev pub fatigue_seq : Node (World F)
  fatigue_seq = crisis_seq (leaf (is_fatigued fl e))

  abbrev pub sched_eat_seq : Node (World F)
  sched_eat_seq =
      sequence
        (child (leaf (is_scheduled_eat fl e)) (child (leaf (interact_furniture fl ecs e)) no_child))

  abbrev pub sched_sleep_seq : Node (World F)
  sched_sleep_seq =
      sequence (
        child (leaf (is_scheduled_sleep fl e))
          (child (leaf (interact_furniture fl ecs e)) no_child))

  abbrev pub wander_seq : Node (World F)
  wander_seq = sequence (child (leaf (can_wander e)) (child (leaf (wander fl grid e)) no_child))

  -- The sequences in the order of their priority.
  pub survival_sequences : Nodes (World F)
  survival_sequences = child flee_seq (
      child aggro_seq (
        child combat_seq (
          child hunger_seq (
            child fatigue_seq
              (child sched_eat_seq (child sched_sleep_seq (child wander_seq no_child)))))))

  pub create_survival_tree : Node (World F)
  create_survival_tree = selector survival_sequences

  -- `SystemBehaviorTree` on this agent.
  pub run_tree : World F → World F
  run_tree w =
      update_tree (λ v. is_some ((v.rows e).busy))
        (if (w.rows e).has_tree then some create_survival_tree else none) w
