-- ===== src/Agents/Tree/Duality.antt =====
-- Selectors against sequences, and composites within composites.
use mundus_vivens_game_serve.Common.{◌≡◌, refl, sym, if◌then◌else◌}
use mundus_vivens_game_serve.Agents.Tree.{
  NodeStatus, success, failure, running, Nodes, no_child, child, selector, sequence, inverter,
  invert, tick, tick_selector, tick_sequence, is_failure, is_success,
}

module _ {S : Type 0} where
  -- Every child under an inverter.
  pub inverted : Nodes S → Nodes S
  inverted no_child = no_child
  inverted (child n ns) = child (inverter n) (inverted ns)

  pub joined : Nodes S → Nodes S → Nodes S
  joined no_child ms = ms
  joined (child n ns) ms = child n (joined ns ms)

  abbrev flip : NodeStatus × S → NodeStatus × S
  flip (status, s) = (invert status, s)

  selector_step :
      (ns : Nodes S) (status : NodeStatus) (after : S)
      → ((s : S) → tick_selector (inverted ns) s ≡ flip (tick_sequence ns s))
      → (if is_failure (invert status)
          then tick_selector (inverted ns) after
          else (invert status, after))
        ≡ flip (if is_success status then tick_sequence ns after else (status, after))
  unfolding invert
  selector_step ns success after h = h after
  selector_step ns failure after h = refl
  selector_step ns running after h = refl

  pub tick_selector-inverted :
      (ns : Nodes S) (s : S) → tick_selector (inverted ns) s ≡ flip (tick_sequence ns s)
  unfolding tick tick_selector tick_sequence inverted invert
  tick_selector-inverted no_child s = refl
  tick_selector-inverted (child n ns) s =
      selector_step ns (tick n s).0 (tick n s).1 (tick_selector-inverted ns)

  sequence_step :
      (ns : Nodes S) (status : NodeStatus) (after : S)
      → ((s : S) → tick_sequence (inverted ns) s ≡ flip (tick_selector ns s))
      → (if is_success (invert status)
          then tick_sequence (inverted ns) after
          else (invert status, after))
        ≡ flip (if is_failure status then tick_selector ns after else (status, after))
  unfolding invert
  sequence_step ns success after h = refl
  sequence_step ns failure after h = h after
  sequence_step ns running after h = refl

  pub tick_sequence-inverted :
      (ns : Nodes S) (s : S) → tick_sequence (inverted ns) s ≡ flip (tick_selector ns s)
  unfolding tick tick_selector tick_sequence inverted invert
  tick_sequence-inverted no_child s = refl
  tick_sequence-inverted (child n ns) s =
      sequence_step ns (tick n s).0 (tick n s).1 (tick_sequence-inverted ns)

  -- De Morgan's laws, for the status and the state: an inverted sequence runs as the selector of
  -- its inverted children does, and an inverted selector as the sequence of its inverted children.
  pub tick-dual :
      (ns : Nodes S) (s : S)
      → (tick (inverter (sequence ns)) s ≡ tick (selector (inverted ns)) s)
        × (tick (inverter (selector ns)) s ≡ tick (sequence (inverted ns)) s)
  unfolding tick
  tick-dual ns s = (sym (tick_selector-inverted ns s), sym (tick_sequence-inverted ns s))

  joined_selector :
      (ns ms : Nodes S) (status : NodeStatus) (after : S)
      → ((s : S) → tick_selector (child (selector ns) ms) s ≡ tick_selector (joined ns ms) s)
      → (let (r, t) = (if is_failure status then tick_selector ns after else (status, after)) in
          if is_failure r then tick_selector ms t else (r, t))
        ≡ (if is_failure status then tick_selector (joined ns ms) after else (status, after))
  unfolding tick_selector tick
  joined_selector ns ms success after h = refl
  joined_selector ns ms failure after h = h after
  joined_selector ns ms running after h = refl

  selector_in_selector :
      (ns ms : Nodes S) (s : S)
      → tick_selector (child (selector ns) ms) s ≡ tick_selector (joined ns ms) s
  unfolding tick_selector tick joined
  selector_in_selector no_child ms s = refl
  selector_in_selector (child n ns) ms s =
      joined_selector ns ms (tick n s).0 (tick n s).1 (selector_in_selector ns ms)

  joined_sequence :
      (ns ms : Nodes S) (status : NodeStatus) (after : S)
      → ((s : S) → tick_sequence (child (sequence ns) ms) s ≡ tick_sequence (joined ns ms) s)
      → (let (r, t) = (if is_success status then tick_sequence ns after else (status, after)) in
          if is_success r then tick_sequence ms t else (r, t))
        ≡ (if is_success status then tick_sequence (joined ns ms) after else (status, after))
  unfolding tick_sequence tick
  joined_sequence ns ms success after h = h after
  joined_sequence ns ms failure after h = refl
  joined_sequence ns ms running after h = refl

  sequence_in_sequence :
      (ns ms : Nodes S) (s : S)
      → tick_sequence (child (sequence ns) ms) s ≡ tick_sequence (joined ns ms) s
  unfolding tick_sequence tick joined
  sequence_in_sequence no_child ms s = refl
  sequence_in_sequence (child n ns) ms s =
      joined_sequence ns ms (tick n s).0 (tick n s).1 (sequence_in_sequence ns ms)

  -- A selector that is the first child of a selector may be replaced by its children, and a
  -- sequence that is the first child of a sequence likewise: status and state stay the same.
  pub tick-nested :
      (ns ms : Nodes S) (s : S)
      → (tick (selector (child (selector ns) ms)) s ≡ tick (selector (joined ns ms)) s)
        × (tick (sequence (child (sequence ns) ms)) s ≡ tick (sequence (joined ns ms)) s)
  unfolding tick
  tick-nested ns ms s = (selector_in_selector ns ms s, sequence_in_sequence ns ms s)
