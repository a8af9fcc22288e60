-- ===== src/Players/Tests.antt =====
-- A player that talks to an agent.
use mundus_vivens_game_serve.Common.{
  ◌≢◌, Option, ℕ, ◌≡◌, refl, Bool, true, false, some, [], ◌∷◌, arith,
}
use mundus_vivens_game_serve.Common.Dict.{nat_eq}
use mundus_vivens_game_serve.Common.Fixed.{fixed}
use mundus_vivens_game_serve.Agents.World.{Row, World, blank_row}
use mundus_vivens_game_serve.Agents.World.Sample.{other_agent, world_of, entities}
use mundus_vivens_game_serve.Players.{AgentIdMapper, fresh_busy, cleanup_disconnected}
use mundus_vivens_game_serve.Players.Commands.{talk_to_npc, may_talk, player_commands, talk}
use mundus_vivens_game_serve.Players.Index.{IsIndexed}
use mundus_vivens_game_serve.Players.Index.Reach.{
  here, next, commands, cleanup, started, Reach-IsIndexed,
}
use mundus_vivens_game_serve.Players.Replies.{answer_start, partner_of}
use mundus_vivens_game_serve.Players.Stranded.{MayBegin, IsUnheld, reply_strands}

abbrev visitor : Row ℕ
visitor = record (blank_row fixed) {
  is_valid = true;
  identity = record { npc_id = 70; display_name = "Mia" };
  player_tag = some 5;
}

abbrev plaza : World ℕ
plaza = record (world_of visitor other_agent (blank_row fixed)) {
  by_npc_id = (70, 1) ∷ (8, 2) ∷ [];
  by_session_index = (5, 1) ∷ [];
}

abbrev names : AgentIdMapper
names = record {
  string_to_numeric = ("player_a", 70) ∷ ("player_b", 71) ∷ [];
  numeric_to_string = (70, "player_a") ∷ (71, "player_b") ∷ [];
}

abbrev online : ℕ → Bool
online session = true

abbrev offline : ℕ → Bool
offline session = false

plaza-IsIndexed : IsIndexed plaza
plaza-IsIndexed = record { sessions = λ s e at. ground arith; numbers = λ n e at. ground arith }

abbrev greeted : World ℕ
greeted = (player_commands fixed entities names online ((5, some (talk_to_npc 8)) ∷ []) plaza).0

abbrev cleaned : World ℕ
cleaned = cleanup_disconnected fixed offline (1 ∷ 2 ∷ []) greeted

Reach-IsIndexed_example : IsIndexed (answer_start true 3 2 1 cleaned)
Reach-IsIndexed_example = Reach-IsIndexed fixed entities names plaza-IsIndexed (
    next
      (next (next here (commands online ((5, some (talk_to_npc 8)) ∷ []) (refl, tt)))
        (cleanup offline (1 ∷ 2 ∷ [])))
      (started true 3 2 1))

begins : MayBegin fixed entities names offline 5 8 1 2 plaza
unfolding may_talk
begins = record {
  player_is = refl;
  npc_is = refl;
  may = refl;
  distinct = ground arith;
  player_valid = refl;
  npc_valid = refl;
  tag_is = refl;
  in_none = refl;
  unheld = λ a d h. ground arith;
}

reply_strands_example :
    let begun = (talk fixed entities names offline 5 8 plaza).0 in
    let left = cleanup_disconnected fixed offline (1 ∷ []) begun in
    let answered = answer_start true 3 2 1 left in
    ((answered.rows 2).busy ≡ fresh_busy fixed)
    × ((answered.rows 1).is_valid ≡ false)
    × IsUnheld fixed entities names offline 2 answered
    × ((p : Option ℕ) → partner_of p answered ≢ some 2)
reply_strands_example = reply_strands fixed entities names offline 5 8 3 1 2 plaza begins refl
