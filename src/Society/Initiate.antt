-- ===== src/Society/Initiate.antt =====
-- SystemSocialInteraction, with how a dialogue begins: the agent that takes the initiative, the
-- partner that it chooses and that may refuse, and the others that join. `shuffle` is std::shuffle
-- with the generator; the events for the clients are left out.
pub mod Join
pub mod Group
pub mod Exclusive
mod Tests
use Prim.Native.String.{String}
use mundus_vivens_game_serve.Common.{
  ℕ, zero, suc, ◌+◌, Bool, true, false, not, ◌&&◌, ◌||◌, Option, none, some, List, [], ◌∷◌, ◌++◌,
  ◌==◌, ltb, leb, length, if◌then◌else◌,
}
use mundus_vivens_game_serve.Common.Dict.{nat_eq, lookup, insert}
use mundus_vivens_game_serve.Common.Float.{Float}
use mundus_vivens_game_serve.Common.Int.{ℤ, pos, negsuc, ◌+ℤ◌, ltb_ℤ}
use mundus_vivens_game_serve.Agents.{CooldownComp, RelationshipEntry}
use mundus_vivens_game_serve.Agents.Furniture.{is_some}
use mundus_vivens_game_serve.Agents.World.{Row, World, put_row, send, throw_dice, trigger_dialogue}
use mundus_vivens_game_serve.Behavior.Combat.{separation}
use mundus_vivens_game_serve.Players.{fresh_busy}
use mundus_vivens_game_serve.Society.Candidates.{
  recover_all, all_npcs, cooldown_of, may_initiate, social_modifier, candidates_of,
}
use mundus_vivens_game_serve.Society.Perception.{is_exempt}

abbrev pub asking : String
asking = "대화 요청 중"

pub entry_for : ℕ → Option (List (ℕ × RelationshipEntry)) → Option RelationshipEntry
entry_for id none = none
entry_for id (some rels) = lookup id rels

module _ {F : Type 0} where
  -- 0 where no relationship is known.
  abbrev pub liking_of : ℕ → ℕ → World F → ℤ
  liking_of a b w = elim (entry_for ((w.rows b).identity.npc_id) ((w.rows a).relationships)) [
    | none ↦ pos 0
    | some entry ↦ entry.liking
  ]

  abbrev pub are_enemies : ℕ → ℕ → World F → Bool
  are_enemies a b w = ltb_ℤ (liking_of a b w) (negsuc 69) || ltb_ℤ (liking_of b a w) (negsuc 69)

  abbrev pub set_cooldown : ℕ → CooldownComp → World F → World F
  set_cooldown e cooldown w = put_row e (record (w.rows e) { cooldown = some cooldown }) w

  -- The sums of what one feels for the members, and how many of them it knows.
  pub feelings : ℕ → List ℕ → ℤ × ℤ × ℕ → World F → ℤ × ℤ × ℕ
  feelings other [] sums w = sums
  feelings other (m ∷ ms) (liking, trust, count) w =
      elim (entry_for ((w.rows m).identity.npc_id) ((w.rows other).relationships)) [
        | none ↦ feelings other ms (liking, trust, count) w
        | some entry ↦ feelings other ms (liking +ℤ entry.liking, trust +ℤ entry.trust, count + 1) w
      ]

  pub ids_of : List ℕ → World F → List ℕ
  ids_of [] w = []
  ids_of (e ∷ es) w = (w.rows e).identity.npc_id ∷ ids_of es w

module _ (fl : Float) (shuffle : World fl.F → List ℕ → List ℕ) where
  open fl use {F, add, sub, mul, div, lt, le, dec, of_ℤ}

  abbrev or_half : Option F → F
  or_half none = dec 5 1
  or_half (some extroversion) = extroversion

  abbrev within : F → F → F → F
  within low high v = if lt v low then low else if lt high v then high else v

  abbrev initiation_prob : F → F → F
  initiation_prob extroversion modifier =
      within (dec 2 2) (dec 60 2) (mul (mul (dec 60 2) (add (dec 3 1) extroversion)) modifier)

  abbrev weight_of : ℤ → F
  weight_of liking =
      let warm = of_ℤ (liking +ℤ pos 60) in if lt (dec 1 0) warm then warm else dec 1 0

  -- Whether the candidate can be the partner.
  abbrev pub may_be_target : ℕ → ℕ → World F → Bool
  may_be_target init c w =
      not (c == init)
      && not (is_some ((w.rows c).busy))
      && not (is_exempt ((w.rows init).cooldown) ((w.rows c).identity.npc_id) w.tick)
      && not (lt (dec 8 0) (separation fl ((w.rows c).location) ((w.rows init).location)))
      && not (are_enemies init c w)

  pub potential_targets : ℕ → List ℕ → World F → List (ℕ × F)
  potential_targets init [] w = []
  potential_targets init (c ∷ cs) w =
      let rest = potential_targets init cs w in
      if may_be_target init c w then (c, weight_of (liking_of init c w)) ∷ rest else rest

  pub total_weight : List (ℕ × F) → F → F
  total_weight [] total = total
  total_weight ((c, weight) ∷ rest) total = total_weight rest (add total weight)

  -- The target at which the weight drawn is used up, or the last.
  pub choose : ℕ × F → List (ℕ × F) → F → ℕ
  choose (c, weight) [] drawn = c
  choose (c, weight) (next ∷ rest) drawn =
      let left = sub drawn weight in
      let later = choose next rest left in if le left (dec 0 0) then c else later

  abbrev acceptance_prob : F → ℤ → F → F
  acceptance_prob extroversion liking modifier = within (dec 10 2) (dec 95 2) (
      add (add (add (dec 5 1) (mul extroversion (dec 25 2))) (div (of_ℤ liking) (dec 200 0)))
        (mul (sub modifier (dec 1 0)) (dec 15 2)))

  abbrev embarrassment : F → ℕ
  embarrassment extroversion =
      if lt (dec 7 1) extroversion then 1 else if lt extroversion (dec 3 1) then 3 else 2

  -- The one that is refused.
  pub refuse : ℕ → ℕ → World F → World F
  refuse init target w =
      let cooldown = cooldown_of init w in
      set_cooldown init
        (record cooldown {
          cognitive_refractory_until =
              w.tick + embarrassment (or_half ((w.rows init).extroversion));
          cooldown_per_target =
              insert ((w.rows target).identity.npc_id) (w.tick + 3) cooldown.cooldown_per_target;
        })
        w

  abbrev average : ℤ → ℕ → F → F
  average sum count default = if ltb 0 count then div (of_ℤ sum) (of_ℤ (pos count)) else default

  abbrev join_prob : F → F → F → ℕ → F
  join_prob extroversion liking trust size = within (dec 0 0) (dec 50 2) (
      mul
        (mul (mul (dec 25 2) (add (dec 5 1) extroversion))
          (add (add (dec 1 0) (div liking (dec 100 0))) (div (sub trust (dec 50 0)) (dec 100 0))))
        (div (dec 2 0) (of_ℤ (pos size))))

  -- Whether one that is not in the group joins it; the dice are thrown for one that likes it.
  pub joins : ℕ → List ℕ → World F → Bool × World F
  joins other group w =
      let (liking, trust, count) = feelings other group (pos 0, pos 0, 0) w in
      let avg_liking = average liking count (dec 0 0) in
      let avg_trust = average trust count (dec 50 0) in
      if lt avg_liking (dec 20 0)
      then (false, w)
      else let (roll, thrown) = throw_dice w in
        (
          lt roll (
              join_prob (or_half ((w.rows other).extroversion)) avg_liking avg_trust
                (length group)),
          thrown,
        )

  pub join_all : ℕ → ℕ → List ℕ → List ℕ → World F → List ℕ × World F
  join_all init target group [] w = (group, w)
  join_all init target group (other ∷ rest) w =
      let (is_in_group, asked) = joins other group w in
      let skipped = join_all init target group rest w in
      let answered =
        join_all init target (if is_in_group then group ++ (other ∷ []) else group) rest asked in
      if other == init || other == target
      then skipped
      else if leb 4 (length group)
      then (group, w)
      else if is_some ((w.rows other).busy)
      then skipped
      else answered

  abbrev pub occupied : Row F → Row F
  occupied r = record r { activity = asking; busy = fresh_busy fl }

  pub occupy_all : List ℕ → World F → World F
  occupy_all [] w = w
  occupy_all (e ∷ es) w = occupy_all es (put_row e (occupied (w.rows e)) w)

  -- The group that a dialogue begins with, if one does.
  pub converse : ℕ → ℕ → List ℕ → F → World F → List ℕ × World F
  converse init target candidates modifier w =
      let prob =
        acceptance_prob (or_half ((w.rows target).extroversion)) (liking_of target init w)
          modifier in
      let (roll, thrown) = throw_dice w in
      let (group, asked) = join_all init target (init ∷ target ∷ []) candidates thrown in
      if le prob roll
      then ([], refuse init target thrown)
      else (group, send (trigger_dialogue (ids_of group asked)) (occupy_all group asked))

  -- The choice among those that can be the partner.
  pub approach : ℕ → List ℕ → F → List (ℕ × F) → World F → List ℕ × World F
  approach init candidates modifier [] w = ([], w)
  approach init candidates modifier (first ∷ rest) w =
      let (roll, thrown) = throw_dice w in
      let drawn = mul roll (total_weight (first ∷ rest) (dec 0 0)) in
      converse init (choose first rest drawn) candidates modifier thrown

  -- The initiative, which is noted if it is taken.
  pub take_initiative : ℕ → List ℕ → F → World F → List ℕ × World F
  take_initiative init candidates modifier w =
      let (roll, thrown) = throw_dice w in
      let cooldown = cooldown_of init thrown in
      let noted = set_cooldown init (record cooldown { last_initiative_tick = w.tick }) thrown in
      if le (initiation_prob (or_half ((w.rows init).extroversion)) modifier) roll
      then ([], thrown)
      else approach init candidates modifier (potential_targets init candidates noted) noted

  -- The place counts by the first of the shuffled candidates.
  pub with_candidates : ℕ → List ℕ → World F → List ℕ × World F
  with_candidates init [] w = ([], w)
  with_candidates init (first ∷ rest) w =
      take_initiative init (first ∷ rest) (social_modifier fl ((w.rows first).location.kind)) w

  -- One agent of the list.
  pub attempt : List ℕ → ℕ → World F → List ℕ × World F
  attempt processed e w =
      let (is_ready, ready) = may_initiate processed e w in
      let (candidates, gathered) = candidates_of fl processed e ready in
      let began = with_candidates e (shuffle gathered candidates) gathered in
      if not is_ready
      then ([], ready)
      else if ltb (length candidates) 2
      then ([], gathered)
      else began

  -- The groups of this run, in their order.
  pub attempt_all : List ℕ → List ℕ → World F → List (List ℕ) × World F
  attempt_all processed [] w = ([], w)
  attempt_all processed (e ∷ es) w =
      let (group, after) = attempt processed e w in
      let (groups, end) = attempt_all (processed ++ group) es after in (group ∷ groups, end)

  -- `SystemSocialInteraction`, over the entities in the order of the view.
  pub system_social_interaction : List ℕ → World F → List (List ℕ) × World F
  system_social_interaction es w =
      let recovered = recover_all es w in attempt_all [] (all_npcs es recovered) recovered
