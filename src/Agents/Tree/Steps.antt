-- ===== src/Agents/Tree/Steps.antt =====
-- One step at a time: what a node does by what its first child does.
use mundus_vivens_game_serve.Common.{◌≡◌, refl, ap, ◌∙◌, Bool, false, some, if◌then◌else◌}
use mundus_vivens_game_serve.Agents.Tree.{
  NodeStatus, success, failure, running, Node, Nodes, no_child, child, leaf, selector, sequence,
  tick, tick_selector, tick_sequence, is_failure, is_success, update_tree,
}

module _ {S : Type 0} where
  pub tick-selector : (ns : Nodes S) (s : S) → tick (selector ns) s ≡ tick_selector ns s
  unfolding tick
  tick-selector ns s = refl

  -- A condition that fails ends the sequence.
  pub sequence_ends :
      (act : S → NodeStatus × S) (ns : Nodes S) {s after : S}
      → act s ≡ (failure, after)
      → tick (sequence (child (leaf act) ns)) s ≡ (failure, after)
  unfolding tick tick_sequence
  sequence_ends act ns h = ap (λ r. if is_success r.0 then tick_sequence ns r.1 else r) h

  pub sequence_goes_on :
      (act : S → NodeStatus × S) (next : Node S) (ns : Nodes S) {s after : S}
      → act s ≡ (success, after)
      → tick (sequence (child (leaf act) (child next ns))) s ≡ tick (sequence (child next ns)) after
  unfolding tick tick_sequence
  sequence_goes_on act next ns h =
      ap (λ r. if is_success r.0 then tick_sequence (child next ns) r.1 else r) h

  sequence_result : (r : NodeStatus × S) → (if is_success r.0 then (success, r.1) else r) ≡ r
  sequence_result (success, s) = refl
  sequence_result (failure, s) = refl
  sequence_result (running, s) = refl

  -- The last child decides.
  pub sequence_last :
      (act : S → NodeStatus × S) (s : S) → tick (sequence (child (leaf act) no_child)) s ≡ act s
  unfolding tick tick_sequence
  sequence_last act s = sequence_result (act s)

  pub selector_goes_on :
      (n : Node S) (ns : Nodes S) (s : S) {after : S}
      → tick n s ≡ (failure, after)
      → tick_selector (child n ns) s ≡ tick_selector ns after
  unfolding tick_selector
  selector_goes_on n ns s h = ap (λ r. if is_failure r.0 then tick_selector ns r.1 else r) h

  pub selector_stops :
      (n : Node S) (ns : Nodes S) (s : S) {r : NodeStatus × S}
      → tick n s ≡ r
      → is_failure r.0 ≡ false
      → tick_selector (child n ns) s ≡ r
  unfolding tick_selector
  selector_stops n ns s {r} h no_failure =
      ap (λ q. if is_failure q.0 then tick_selector ns q.1 else q) h
      ∙ ap (λ b. if b then tick_selector ns r.1 else r) no_failure

  -- An agent with a tree that is not busy.
  pub update_tree_ticks :
      (is_busy : S → Bool) (root : Node S) (s : S)
      → is_busy s ≡ false
      → update_tree is_busy (some root) s ≡ (tick root s).1
  unfolding update_tree
  update_tree_ticks is_busy root s h = ap (λ b. if b then s else (tick root s).1) h
