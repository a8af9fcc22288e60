-- ===== src/Behavior.antt =====
-- BehaviorTrees.h: the conditions and actions of the agents' trees, each a function of the agent
-- and the world, and the tree that is built of them.
mod Tests
pub mod Crisis
pub mod Seek
pub mod Recover
pub mod Combat
pub mod Flee
pub mod Wander
pub mod Aggro
pub mod Survival
