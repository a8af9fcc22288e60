-- ===== src/Agents.antt =====
-- Components.h: the components of an entity. A component that an entity may lack is an `Option` of
-- the record that a system works on; an `entt::entity` is a number, and `entt::null` is `none`. The
-- counters of ticks, the social energy and the score of aggro are never set below zero, and are
-- natural numbers.
pub mod JobDriver
pub mod Tree
pub mod Furniture
pub mod Planning
pub mod Movement
pub mod World
pub mod Ambient
pub mod Orders
use Prim.Native.String.{String}
use text.Mathlib.Text.{◌==◌ as str_eq}
use mundus_vivens_game_serve.Common.{ℕ, Bool, Option, List}
use mundus_vivens_game_serve.Grid.Find.{GridVector2}
use mundus_vivens_game_serve.Common.Float.{Float}
use mundus_vivens_game_serve.Common.Int.{ℤ}

pub data LocationType : Type 0 where
  unspecified : LocationType
  pub_house : LocationType
  market : LocationType
  square : LocationType
  church : LocationType
  wilderness : LocationType
  residential : LocationType
  forge : LocationType
  manor : LocationType
  country : LocationType
  city : LocationType
  place : LocationType

pub record LocationComp (F : Type 0) : Type 0 where
  pub zone_id : ℕ
  pub location_name : String
  pub x : F
  pub y : F
  pub z : F
  pub kind : LocationType
  pub region_id : ℕ
  pub territory_id : ℕ

pub record IdentityComp : Type 0 where
  pub npc_id : ℕ
  pub display_name : String

pub record RelationshipEntry : Type 0 where
  pub liking : ℤ
  pub trust : ℤ

pub record EmotionComp : Type 0 where
  pub current_emotion : String
  pub base_emotion : String
  pub current_emotion_id : ℕ
  pub base_emotion_id : ℕ
  pub decay_ticks_remaining : ℕ

pub record CooldownComp : Type 0 where
  pub cooldown_per_target : List (ℕ × ℕ)
  pub last_initiative_tick : ℕ
  pub social_energy : ℕ
  pub max_social_energy : ℕ
  pub cognitive_refractory_until : ℕ

pub record VelocityComp (F : Type 0) : Type 0 where
  pub speed : F
  pub dir_x : F
  pub dir_z : F

pub record PathfindingComp (F : Type 0) : Type 0 where
  pub waypoints : List (GridVector2 F)
  pub current_waypoint_index : ℕ
  pub last_target_x : F
  pub last_target_z : F
  pub is_partial : Bool
  pub cap_retry_count : ℕ
  pub last_cap_pos_x : F
  pub last_cap_pos_z : F

pub data JobCategory : Type 0 where
  unspecified_job : JobCategory
  sleep_job : JobCategory
  eat_job : JobCategory
  social_job : JobCategory
  work_job : JobCategory
  travel_job : JobCategory
  survival_job : JobCategory
  combat_job : JobCategory

pub record JobComp (F : Type 0) : Type 0 where
  pub job_id : ℕ
  pub target_location : String
  pub target_x : F
  pub target_y : F
  pub target_z : F
  pub intent : String
  pub target_agent_id : ℕ
  pub priority : ℤ
  pub is_active : Bool
  pub category : JobCategory

pub data ToilState : Type 0 where
  idle : ToilState
  moving : ToilState
  working : ToilState
  interrupted : ToilState

pub record ToilComp : Type 0 where
  pub state : ToilState
  pub current_action : String
  pub duration_ticks : ℕ

pub data SurvivalType : Type 0 where
  no_need : SurvivalType
  hunger_need : SurvivalType
  fatigue_need : SurvivalType

pub record NeedsComp (F : Type 0) : Type 0 where
  pub hunger : F
  pub fatigue : F
  pub is_resolving_survival : Bool
  pub current_survival_type : SurvivalType
  pub occupied_furniture : Option ℕ

pub data BusyReason : Type 0 where
  dialogue : BusyReason
  reflection : BusyReason
  schedule_wait : BusyReason

pub record BusyTag (F : Type 0) : Type 0 where
  pub reason : BusyReason
  pub anim_timer : F

pub record HealthComp (F : Type 0) : Type 0 where
  pub hp : F
  pub max_hp : F
  pub is_dead : Bool

pub record CombatComp (F : Type 0) : Type 0 where
  pub target_entity : Option ℕ
  pub attack_range : F
  pub attack_damage : F
  pub cooldown_ticks : ℕ

pub data AffordanceType : Type 0 where
  unspecified_use : AffordanceType
  sit : AffordanceType
  sleep : AffordanceType
  eat : AffordanceType
  drink : AffordanceType
  pray : AffordanceType

pub record AffordanceComp : Type 0 where
  pub use_of : AffordanceType
  pub occupied_by : Option ℕ
  pub is_temporary : Bool

pub record LastSyncedComp : Type 0 where
  pub location : String
  pub emotion : String
  pub activity : String

pub record PlayerDialogueComp : Type 0 where
  pub session_id : ℕ
  pub npc_entity : Option ℕ

pub data EmotionCategory : Type 0 where
  neutral : EmotionCategory
  anger : EmotionCategory
  hostility : EmotionCategory
  fear : EmotionCategory

pub record EmotionRegistry : Type 0 where
  pub name_to_id : List (String × ℕ)
  pub decay_ticks_table : List ℕ
  pub category_table : List EmotionCategory

pub record AggroComp : Type 0 where
  pub threat_entity : Option ℕ
  pub aggro_score : ℕ
  pub inhibit_wait_ticks : ℕ
  pub is_inhibited : Bool

abbrev pub same_text : String → String → Bool
same_text = str_eq
