-- ===== src/Agents/Ambient.antt =====
-- SystemBusyAmbient and SystemDeath, on one entity: what a busy agent shows, and what is taken
-- from a dead one.
use Prim.Native.String.{String}
use mundus_vivens_game_serve.Common.{Bool, true, false, not, Option, none, some, [], if◌then◌else◌}
use mundus_vivens_game_serve.Common.Float.{Float}
use mundus_vivens_game_serve.Agents.{
  BusyTag, BusyReason, dialogue, reflection, schedule_wait, VelocityComp, PathfindingComp,
  CombatComp, ToilComp, ToilState, idle, moving, working, interrupted,
}
use mundus_vivens_game_serve.Agents.JobDriver.{is_interrupted, in_dialogue}
use mundus_vivens_game_serve.Agents.World.{Row}

abbrev pub is_still : BusyReason → Bool
is_still dialogue = true
is_still reflection = true
is_still schedule_wait = false

abbrev pub is_idle_state : ToilState → Bool
is_idle_state idle = true
is_idle_state moving = false
is_idle_state working = false
is_idle_state interrupted = false

abbrev pub dead_activity : String
dead_activity = "사망"

module _ (fl : Float) where
  open fl use {F, add, lt, dec}

  abbrev pub halted : VelocityComp F → VelocityComp F
  halted vel = record vel { dir_x = dec 0 0; dir_z = dec 0 0; speed = dec 0 0 }

  abbrev pub wrap_timer : F → F → F
  wrap_timer limit timer = if lt limit timer then dec 0 0 else timer

  abbrev pub busy_as : BusyReason → F → BusyTag F
  busy_as reason timer = record { reason = reason; anim_timer = timer }

  -- What is shown, by the reason; the timer has been moved on.
  pub show_busy : BusyReason → F → Row F → Row F
  show_busy dialogue timer r = record r {
    busy = some (busy_as dialogue timer);
    activity = in_dialogue;
    toil = record r.toil {
      current_action =
          if is_interrupted r.toil.state then "Dialogue_Talking" else "Dialogue_Listening";
    };
  }
  show_busy reflection timer r = record r {
    busy = some (busy_as reflection (wrap_timer (dec 10 0) timer));
    activity = "성찰 중";
    toil = record r.toil { current_action = "Thinking" };
  }
  show_busy schedule_wait timer r = record r {
    busy = some (busy_as schedule_wait (wrap_timer (dec 8 0) timer));
    activity = "스케줄 대기";
    toil = record r.toil { current_action = "WanderingAround" };
  }

  -- `SystemBusyAmbient` on one entity: busy, an agent, and with a velocity.
  pub busy_ambient : F → Row F → Row F
  busy_ambient delta_time r = elim r.busy [
    | none ↦ r
    | some busy ↦ elim r.velocity [
      | none ↦ r
      | some vel ↦
          if not r.is_agent
          then r
          else show_busy busy.reason (add busy.anim_timer delta_time)
              (record r { velocity = some (if is_still busy.reason then halted vel else vel) })
    ]
  ]

  abbrev end_toil : ToilComp → ToilComp
  end_toil toil =
      if is_idle_state toil.state
      then toil
      else record { state = idle; duration_ticks = 0; current_action = "Dead" }

  abbrev clear_waypoints : Option (PathfindingComp F) → Option (PathfindingComp F)
  clear_waypoints none = none
  clear_waypoints (some path) = some (record path { waypoints = [] })

  abbrev halt : Option (VelocityComp F) → Option (VelocityComp F)
  halt none = none
  halt (some vel) = some (halted vel)

  abbrev disarm : Option (CombatComp F) → Option (CombatComp F)
  disarm none = none
  disarm (some combat) = some (record combat { target_entity = none })

  -- `SystemDeath` on one entity.
  pub lay_to_rest : Row F → Row F
  lay_to_rest r = elim r.health [
    | none ↦ r
    | some health ↦ if not health.is_dead then r else record r {
      toil = end_toil r.toil;
      velocity = halt r.velocity;
      path = clear_waypoints r.path;
      activity = dead_activity;
      combat = disarm r.combat;
      has_tree = false;
    }
  ]
