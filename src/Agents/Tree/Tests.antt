-- ===== src/Agents/Tree/Tests.antt =====
-- A tree over a counter.
use mundus_vivens_game_serve.Common.{ℕ, ◌+◌, ◌≡◌, refl, ltb, if◌then◌else◌, some, false}
use mundus_vivens_game_serve.Agents.Tree.{
  success, failure, running, Node, Nodes, no_child, child, selector, sequence, leaf, tick,
  tick_selector, tick_sequence, update_tree,
}

abbrev below_three : Node ℕ
below_three = leaf (λ n. if ltb n 3 then (success, n) else (failure, n))

abbrev count_up : Node ℕ
count_up = leaf (λ n. (running, n + 1))

abbrev rest : Node ℕ
rest = leaf (λ n. (success, n))

abbrev counting : Nodes ℕ
counting = child below_three (child count_up no_child)

abbrev counter : Node ℕ
counter = selector (child (sequence counting) (child rest no_child))

counts : tick counter 1 ≡ (running, 2)
unfolding tick tick_selector tick_sequence
counts = refl

rests : update_tree (λ n. false) (some counter) 5 ≡ 5
unfolding update_tree tick tick_selector tick_sequence
rests = refl
