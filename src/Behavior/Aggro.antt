-- ===== src/Behavior/Aggro.antt =====
-- ConditionIsAggroHigh and ActionInhibitOrAttack. A creature without reason attacks at once; an
-- agent with reason holds back and asks the planner, whose reply is a task of the result queue.
pub mod Timeout
use Prim.Native.String.{String, ◌++◌}
use mundus_vivens_game_serve.Common.{
  ℕ, ◌+◌, Bool, true, false, not, ◌&&◌, Option, none, some, ltb, leb, ◌==◌, if◌then◌else◌,
}
use mundus_vivens_game_serve.Common.Dict.{nat_eq, insert}
use mundus_vivens_game_serve.Common.Float.{Float}
use mundus_vivens_game_serve.Agents.{AggroComp, CooldownComp, idle, interrupted}
use mundus_vivens_game_serve.Agents.Tree.{NodeStatus, success, failure, running}
use mundus_vivens_game_serve.Agents.World.{
  Row, World, put_row, send, is_present, or_new_combat, or_new_cooldown, threat_detected,
}
use mundus_vivens_game_serve.Behavior.Combat.{target_of}

abbrev pub calm : AggroComp → AggroComp
calm aggro = record aggro { aggro_score = 0; is_inhibited = false }

-- What is needed to hold an agent without `SentienceComp` for one with reason.
abbrev pub has_reason : Option Bool → Bool
has_reason none = true
has_reason (some b) = b

-- No aggro against this target for 600 ticks.
abbrev pub exempt : ℕ → ℕ → CooldownComp → CooldownComp
exempt target_npc_id tick cd = record cd {
  cooldown_per_target = insert target_npc_id (tick + 600) cd.cooldown_per_target;
}

module _ {F : Type 0} where
  unfoldable pub is_aggro_high : ℕ → World F → NodeStatus × World F
  is_aggro_high e w =
      let r = w.rows e in
      if is_present (target_of r.combat) w then (failure, w) else elim r.aggro [
        | none ↦ (failure, w)
        | some aggro ↦
            if leb 100 aggro.aggro_score && is_present aggro.threat_entity w
            then (success, w)
            else (failure, w)
      ]

  -- The first tick of the inhibition asks the planner.
  pub begin_inhibition : ℕ → ℕ → AggroComp → World F → AggroComp × World F
  begin_inhibition e threat aggro w = if aggro.is_inhibited then (aggro, w) else (
    record aggro { is_inhibited = true; inhibit_wait_ticks = 0 },
    send
        (threat_detected ((w.rows e).identity.npc_id) ((w.rows threat).identity.npc_id)
          aggro.aggro_score)
        w,
  )

  abbrev hold : String → AggroComp → Row F → Row F
  hold name aggro r = record r {
    aggro = some aggro;
    toil = record r.toil { state = interrupted };
    activity = name ++ "와 대치 중 (생각하는 중)";
  }

  -- One tick of waiting for the reply; after 100 of them the agent calms down.
  pub inhibit : ℕ → ℕ → AggroComp → World F → NodeStatus × World F
  inhibit e threat aggro w =
      let (held, asked) = begin_inhibition e threat aggro w in
      let waited = record held { inhibit_wait_ticks = held.inhibit_wait_ticks + 1 } in
      let r = asked.rows e in
      if ltb 100 waited.inhibit_wait_ticks
      then (failure, put_row e (record r { aggro = some (calm waited) }) asked)
      else (running, put_row e (hold ((asked.rows threat).identity.display_name) waited r) asked)

module _ (fl : Float) where
  open fl use {F}

  abbrev attack_at_once : ℕ → AggroComp → Row F → Row F
  attack_at_once threat aggro r = record r {
    combat = some (record (or_new_combat fl r.combat) { target_entity = some threat });
    aggro = some (record aggro { aggro_score = 0 });
    toil = record r.toil { state = idle; duration_ticks = 0 };
  }

  pub inhibit_or_attack : ℕ → World F → NodeStatus × World F
  inhibit_or_attack e w =
      let r = w.rows e in
      elim r.aggro [
        | none ↦ (failure, w)
        | some aggro ↦ elim aggro.threat_entity [
          | none ↦ (failure, put_row e (record r { aggro = some (calm aggro) }) w)
          | some threat ↦
              if not ((w.rows threat).is_valid)
              then (failure, put_row e (record r { aggro = some (calm aggro) }) w)
              else if not (has_reason r.is_sentient)
              then (success, put_row e (attack_at_once threat aggro r) w)
              else inhibit e threat aggro w
        ]
      ]

  abbrev pub reject : ℕ → ℕ → AggroComp → Row F → Row F
  reject target_npc_id tick aggro r = record r {
    aggro = some (calm aggro);
    cooldown = some (exempt target_npc_id tick (or_new_cooldown r.cooldown));
  }

  abbrev pub approve : AggroComp → Row F → Row F
  approve aggro r = record r {
    combat = some (record (or_new_combat fl r.combat) { target_entity = aggro.threat_entity });
    aggro = some (calm aggro);
  }

  -- The reply of the planner: 0 approves the attack; 2, a conversation, and every other code do
  -- the same to the state.
  pub answer_threat : Bool → ℕ → ℕ → ℕ → World F → World F
  answer_threat is_success action_code e target_npc_id w =
      let r = w.rows e in
      if not r.is_valid then w else elim r.aggro [
        | none ↦ w
        | some aggro ↦
            if not is_success
            then put_row e (record r { aggro = some (record aggro { is_inhibited = false }) }) w
            else if action_code == 0
            then put_row e (approve aggro r) w
            else put_row e (reject target_npc_id w.tick aggro r) w
      ]
