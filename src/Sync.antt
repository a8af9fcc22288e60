-- ===== src/Sync.antt =====
-- SystemNetwork.cpp: the batch of agents whose state has changed since the planner was last told,
-- its acknowledgement, which is a task of the result queue, and the snapshot for the clients.
pub mod Settled
mod Tests
use Prim.Native.String.{String}
use mundus_vivens_game_serve.Common.{
  ℕ, Bool, true, false, not, ◌&&◌, ◌||◌, Option, none, some, List, [], ◌∷◌, if◌then◌else◌,
}
use mundus_vivens_game_serve.Common.Float.{Float}
use mundus_vivens_game_serve.Agents.{LastSyncedComp, HealthComp, VelocityComp, same_text}
use mundus_vivens_game_serve.Agents.Furniture.{is_some}
use mundus_vivens_game_serve.Agents.World.{Row, World, put_row}

pub record AgentStatusUpdate (F : Type 0) : Type 0 where
  pub agent_id : ℕ
  pub location : String
  pub x : F
  pub y : F
  pub z : F
  pub emotion : String
  pub activity : String

pub record NpcSnapshot (F : Type 0) : Type 0 where
  pub npc_id : ℕ
  pub display_name : String
  pub location : String
  pub x : F
  pub y : F
  pub z : F
  pub emotion : String
  pub activity : String
  pub hp : F
  pub max_hp : F
  pub velocity : Option (F × F × F)

module _ {F : Type 0} where
  -- Whether the entity differs from what the planner knows of it.
  pub has_changed : LastSyncedComp → Row F → Bool
  has_changed sync r =
      not (same_text sync.location r.location.location_name)
      || not (same_text sync.emotion r.emotion.current_emotion)
      || not (same_text sync.activity r.activity)

  pub status_of : Row F → AgentStatusUpdate F
  status_of r = record {
    agent_id = r.identity.npc_id;
    location = r.location.location_name;
    x = r.location.x;
    y = r.location.y;
    z = r.location.z;
    emotion = r.emotion.current_emotion;
    activity = r.activity;
  }

  abbrev pub is_outdated : Row F → Bool
  is_outdated r =
      r.is_valid && r.is_agent && elim r.synced [ none ↦ false | some sync ↦ has_changed sync r ]

  -- `SystemNetworkSync`: the entities to tell of, with their updates. No request is made if there
  -- are none.
  pub collect_updates : List ℕ → World F → List (ℕ × AgentStatusUpdate F)
  collect_updates [] w = []
  collect_updates (e ∷ es) w =
      let rest = collect_updates es w in
      if is_outdated (w.rows e) then (e, status_of (w.rows e)) ∷ rest else rest

  abbrev pub synced_with : AgentStatusUpdate F → LastSyncedComp
  synced_with update = record {
    location = update.location;
    emotion = update.emotion;
    activity = update.activity;
  }

  -- One entity of an acknowledged batch.
  pub acknowledge_one : ℕ → AgentStatusUpdate F → World F → World F
  acknowledge_one e update w =
      let r = w.rows e in
      if r.is_valid && is_some r.synced
      then put_row e (record r { synced = some (synced_with update) }) w
      else w

  pub acknowledge_all : List (ℕ × AgentStatusUpdate F) → World F → World F
  acknowledge_all [] w = w
  acknowledge_all ((e, update) ∷ rest) w = acknowledge_all rest (acknowledge_one e update w)

  -- The reply to a batch.
  pub acknowledge : Bool → List (ℕ × AgentStatusUpdate F) → World F → World F
  acknowledge is_success batch w = if is_success then acknowledge_all batch w else w

module _ (fl : Float) where
  open fl use {F, mul, dec}

  abbrev hp_of : Option (HealthComp F) → F × F
  hp_of none = (dec 100 0, dec 100 0)
  hp_of (some health) = (health.hp, health.max_hp)

  abbrev velocity_of : Option (VelocityComp F) → Option (F × F × F)
  velocity_of none = none
  velocity_of (some vel) = some (mul vel.dir_x vel.speed, dec 0 0, mul vel.dir_z vel.speed)

  pub snapshot_of : Row F → NpcSnapshot F
  snapshot_of r = record {
    npc_id = r.identity.npc_id;
    display_name = r.identity.display_name;
    location = r.location.location_name;
    x = r.location.x;
    y = r.location.y;
    z = r.location.z;
    emotion = r.emotion.current_emotion;
    activity = r.activity;
    hp = (hp_of r.health).0;
    max_hp = (hp_of r.health).1;
    velocity = velocity_of r.velocity;
  }

  -- The snapshots of the agents that are no players, each made by `of_row`.
  pub snapshots : (Row F → NpcSnapshot F) → List ℕ → World F → List (NpcSnapshot F)
  snapshots of_row [] w = []
  snapshots of_row (e ∷ es) w =
      let rest = snapshots of_row es w in
      let r = w.rows e in
      if r.is_valid && r.is_agent && not (is_some r.player_tag) then of_row r ∷ rest else rest

  -- What SystemBroadcastWorldSnapshot sends.
  pub world_snapshot : List ℕ → World F → List (NpcSnapshot F)
  world_snapshot es w = snapshots snapshot_of es w
