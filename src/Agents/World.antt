-- ===== src/Agents/World.antt =====
-- The registry, for the systems that read one entity's components on behalf of another: a row of
-- components for each entity. Identity and location are what every entity is created with. The
-- components from `activity` to `needs` are those that every agent is created with and keeps;
-- `is_agent` says whether the row has them. A component that may come and go is an `Option`.
pub mod Sample
use Prim.Native.String.{String}
use mundus_vivens_game_serve.Common.{ℕ, suc, Bool, false, Option, none, some, List, [], ◌∷◌, ◌++◌}
use mundus_vivens_game_serve.Common.Float.{Float}
use mundus_vivens_game_serve.Common.Int.{pos}
use mundus_vivens_game_serve.Grid.Route.{write}
use mundus_vivens_game_serve.Places.{LocationRegistry}
use mundus_vivens_game_serve.Agents.{
  IdentityComp, LocationComp, EmotionComp, CooldownComp, JobComp, ToilComp, NeedsComp, BusyTag,
  PathfindingComp, VelocityComp, HealthComp, CombatComp, AggroComp, AffordanceComp,
  RelationshipEntry, PlayerDialogueComp, LastSyncedComp, EmotionRegistry, unspecified,
  unspecified_job, idle, no_need,
}

pub record Row (F : Type 0) : Type 0 where
  pub is_valid : Bool
  pub is_agent : Bool
  pub identity : IdentityComp
  pub location : LocationComp F
  pub activity : String
  pub emotion : EmotionComp
  pub job : JobComp F
  pub toil : ToilComp
  pub needs : NeedsComp F
  pub path : Option (PathfindingComp F)
  pub velocity : Option (VelocityComp F)
  pub busy : Option (BusyTag F)
  pub health : Option (HealthComp F)
  pub combat : Option (CombatComp F)
  pub aggro : Option AggroComp
  pub is_sentient : Option Bool
  pub faction : Option String
  pub cooldown : Option CooldownComp
  pub relationships : Option (List (ℕ × RelationshipEntry))
  pub extroversion : Option F
  pub affordance : Option AffordanceComp
  pub player_tag : Option ℕ
  pub dialogue : Option PlayerDialogueComp
  pub synced : Option LastSyncedComp
  pub has_tree : Bool

-- What the systems ask of the planner; a reply comes later, as a function of the world.
pub data Call (F : Type 0) : Type 0 where
  report_job_status : ℕ → ℕ → ℕ → String → Call F
  report_combat_event : ℕ → ℕ → F → Call F
  threat_detected : ℕ → ℕ → ℕ → Call F
  trigger_dialogue : List ℕ → Call F
  start_player_dialogue : ℕ → ℕ → Call F
  send_player_message : ℕ → String → Call F
  end_player_dialogue : ℕ → Call F
  get_agent_status : ℕ → Call F
  get_pending_jobs : ℕ → Call F
  process_world_tick : ℕ → Call F
  inject_belief : ℕ → ℕ → String → ℕ → Call F

-- `rolls` are the numbers that `rand` will give, and `dice` those of the uniform distributions
-- between 0 and 1. The two maps are EntityIndex; `contagion_ids` are the two static numbers of
-- SystemEmotionDecay, once they are there.
pub record World (F : Type 0) : Type 0 where
  pub rows : ℕ → Row F
  pub places : LocationRegistry F
  pub tick : ℕ
  pub rolls : ℕ → ℕ
  pub dice : ℕ → F
  pub by_npc_id : List (ℕ × ℕ)
  pub by_session_index : List (ℕ × ℕ)
  pub emotion_registry : EmotionRegistry
  pub contagion_ids : Option (ℕ × ℕ)
  pub calls : List (Call F)

module _ {F : Type 0} where
  abbrev pub put_row : ℕ → Row F → World F → World F
  put_row e r w = record w { rows = write w.rows e r }

  abbrev pub send : Call F → World F → World F
  send call w = record w { calls = w.calls ++ (call ∷ []) }

  -- `rand()`
  abbrev pub draw : World F → ℕ × World F
  draw w = (w.rolls 0, record w { rolls = λ n. w.rolls (suc n) })

  -- `dis(gen)`
  abbrev pub throw_dice : World F → F × World F
  throw_dice w = (w.dice 0, record w { dice = λ n. w.dice (suc n) })

  -- `entity != entt::null && reg.valid(entity)`
  abbrev pub is_present : Option ℕ → World F → Bool
  is_present none w = false
  is_present (some e) w = (w.rows e).is_valid

  -- The path given up: no waypoint is left.
  abbrev pub forget_path : Option (PathfindingComp F) → Option (PathfindingComp F)
  forget_path none = none
  forget_path (some path) = some (record path { waypoints = []; current_waypoint_index = 0 })

-- What EnTT decides: the entity that `create` gives, and the order in which a view visits the
-- entities.
pub record Entities (F : Type 0) : Type 0 where
  pub fresh : World F → ℕ
  pub visit : World F → List ℕ

module _ (fl : Float) where
  open fl use {F, dec}

  -- The members' initial values, and no component that may be missing.
  abbrev pub blank_row : Row F
  blank_row = record {
    is_valid = false;
    is_agent = false;
    identity = record { npc_id = 0; display_name = "" };
    location = record {
      zone_id = 0;
      location_name = "";
      x = dec 0 0;
      y = dec 0 0;
      z = dec 0 0;
      kind = unspecified;
      region_id = 0;
      territory_id = 0;
    };
    activity = "";
    emotion = record {
      current_emotion = "";
      base_emotion = "";
      current_emotion_id = 0;
      base_emotion_id = 0;
      decay_ticks_remaining = 0;
    };
    job = record {
      job_id = 0;
      target_location = "";
      target_x = dec 0 0;
      target_y = dec 0 0;
      target_z = dec 0 0;
      intent = "";
      target_agent_id = 0;
      priority = pos 0;
      is_active = false;
      category = unspecified_job;
    };
    toil = record { state = idle; current_action = ""; duration_ticks = 0 };
    needs = record {
      hunger = dec 100 0;
      fatigue = dec 100 0;
      is_resolving_survival = false;
      current_survival_type = no_need;
      occupied_furniture = none;
    };
    path = none;
    velocity = none;
    busy = none;
    health = none;
    combat = none;
    aggro = none;
    is_sentient = none;
    faction = none;
    cooldown = none;
    relationships = none;
    extroversion = none;
    affordance = none;
    player_tag = none;
    dialogue = none;
    synced = none;
    has_tree = false;
  }

  -- `reg.destroy`
  abbrev pub destroy_row : ℕ → World F → World F
  destroy_row e w = put_row e blank_row w

  -- A default `CombatComp`, which `get_or_emplace` makes.
  abbrev pub or_new_combat : Option (CombatComp F) → CombatComp F
  or_new_combat none = record {
    target_entity = none;
    attack_range = dec 2 0;
    attack_damage = dec 10 0;
    cooldown_ticks = 0;
  }
  or_new_combat (some combat) = combat

abbrev pub or_new_cooldown : Option CooldownComp → CooldownComp
or_new_cooldown none = record {
  cooldown_per_target = [];
  last_initiative_tick = 0;
  social_energy = 100;
  max_social_energy = 100;
  cognitive_refractory_until = 0;
}
or_new_cooldown (some cooldown) = cooldown
