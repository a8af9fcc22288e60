-- ===== src/Agents/Tree.antt =====
-- BTNode.h and SystemBehaviorTree: the nodes of a behaviour tree over any state, which stands for
-- the registry. A condition or an action is a leaf; `AddChild` appends to the children.
pub mod Duality
pub mod Steps
mod Tests
use mundus_vivens_game_serve.Common.{Bool, true, false, Option, none, some, if◌then◌else◌}

pub data NodeStatus : Type 0 where
  success : NodeStatus
  failure : NodeStatus
  running : NodeStatus

mutual
  pub data Node (S : Type 0) : Type 0 where
    leaf : (S → NodeStatus × S) → Node S
    selector : Nodes S → Node S
    sequence : Nodes S → Node S
    inverter : Node S → Node S

  pub data Nodes (S : Type 0) : Type 0 where
    no_child : Nodes S
    child : Node S → Nodes S → Nodes S

-- `Inverter::Tick` on what the child returned.
pub invert : NodeStatus → NodeStatus
invert success = failure
invert failure = success
invert running = running

pub add_child : {S : Type 0} → Nodes S → Node S → Nodes S
add_child no_child n = child n no_child
add_child (child m ns) n = child m (add_child ns n)

abbrev pub is_failure : NodeStatus → Bool
is_failure success = false
is_failure failure = true
is_failure running = false

abbrev pub is_success : NodeStatus → Bool
is_success success = true
is_success failure = false
is_success running = false

mutual
  pub tick : {S : Type 0} → Node S → S → NodeStatus × S
  tick (leaf act) s = act s
  tick (selector ns) s = tick_selector ns s
  tick (sequence ns) s = tick_sequence ns s
  tick (inverter n) s = let (status, after) = tick n s in (invert status, after)

  pub tick_selector : {S : Type 0} → Nodes S → S → NodeStatus × S
  tick_selector no_child s = (failure, s)
  tick_selector (child n ns) s =
      let (status, after) = tick n s in
      if is_failure status then tick_selector ns after else (status, after)

  pub tick_sequence : {S : Type 0} → Nodes S → S → NodeStatus × S
  tick_sequence no_child s = (success, s)
  tick_sequence (child n ns) s =
      let (status, after) = tick n s in
      if is_success status then tick_sequence ns after else (status, after)

-- One entity: nothing is decided while it is busy, or if it has no tree.
pub update_tree : {S : Type 0} → (S → Bool) → Option (Node S) → S → S
update_tree is_busy none s = s
update_tree is_busy (some root) s = if is_busy s then s else (tick root s).1
