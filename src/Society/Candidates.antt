-- ===== src/Society/Candidates.antt =====
-- SystemSocialInteraction, with who may take part in a dialogue: the recovery of energy, the agents
-- that may begin one, and the candidates around them; with IsNPCFocusedOnActivity of Systems.h.
pub mod Free
use Prim.Native.String.{String, find, len}
use mundus_vivens_game_serve.Common.{
  ℕ, ◌+◌, ◌%◌, min, Bool, true, false, not, ◌&&◌, ◌||◌, Option, none, some, List, [], ◌∷◌, ◌++◌,
  ◌==◌, ltb, leb, if◌then◌else◌,
}
use mundus_vivens_game_serve.Common.Float.{Float}
use mundus_vivens_game_serve.Agents.{
  CooldownComp, LocationComp, LocationType, unspecified, pub_house, market, square, church,
  wilderness, residential, forge, manor, country, city, place, same_text,
}
use mundus_vivens_game_serve.Agents.Furniture.{is_some}
use mundus_vivens_game_serve.Agents.World.{Row, World, put_row, throw_dice, or_new_cooldown}
use mundus_vivens_game_serve.Behavior.Combat.{is_dead, target_of}
use mundus_vivens_game_serve.Places.Position.{get_nearby_entities}
use mundus_vivens_game_serve.Society.Dialogue.{is_in}

abbrev pub is_pub_house : LocationType → Bool
is_pub_house unspecified = false
is_pub_house pub_house = true
is_pub_house market = false
is_pub_house square = false
is_pub_house church = false
is_pub_house wilderness = false
is_pub_house residential = false
is_pub_house forge = false
is_pub_house manor = false
is_pub_house country = false
is_pub_house city = false
is_pub_house place = false

pub contains_text : String → String → Bool
contains_text text part = leb (find text part) (len text)

-- In a pub each tick, and elsewhere each tenth tick.
pub recover : LocationType → ℕ → CooldownComp → CooldownComp
recover kind tick cooldown =
    if (is_pub_house kind || tick % 10 == 0)
      && ltb cooldown.social_energy cooldown.max_social_energy
    then record cooldown {
      social_energy = min cooldown.max_social_energy (cooldown.social_energy + 1);
    }
    else cooldown

-- Energy and rest enough for a dialogue.
abbrev pub is_sociable : ℕ → CooldownComp → Bool
is_sociable tick cooldown =
    leb 20 cooldown.social_energy && ltb cooldown.cognitive_refractory_until tick

abbrev pub is_mindless : Option Bool → Bool
is_mindless none = false
is_mindless (some sentient) = not sentient

module _ {F : Type 0} where
  pub recover_all : List ℕ → World F → World F
  recover_all [] w = w
  recover_all (e ∷ es) w =
      let r = w.rows e in
      recover_all es (
        if not r.is_valid then w else elim r.cooldown [
          | none ↦ w
          | some cooldown ↦
              put_row e (record r { cooldown = some (recover r.location.kind w.tick cooldown) }) w
        ])

  -- The agents that are looked at, one after the other.
  pub all_npcs : List ℕ → World F → List ℕ
  all_npcs [] w = []
  all_npcs (e ∷ es) w =
      let rest = all_npcs es w in
      let r = w.rows e in
      if r.is_valid
        && r.is_agent
        && not (is_some r.player_tag)
        && not (is_dead r.health)
        && not (is_mindless r.is_sentient)
      then e ∷ rest
      else rest

  -- `get_or_emplace<CooldownComp>`
  abbrev pub ensure_cooldown : ℕ → World F → World F
  ensure_cooldown e w =
      put_row e (record (w.rows e) { cooldown = some (or_new_cooldown (w.rows e).cooldown) }) w

  abbrev pub cooldown_of : ℕ → World F → CooldownComp
  cooldown_of e w = or_new_cooldown (w.rows e).cooldown

  -- Neither in a dialogue nor in a fight, and in no group of this run.
  abbrev pub is_at_leisure : List ℕ → ℕ → World F → Bool
  is_at_leisure processed e w =
      let r = w.rows e in
      not (is_in e processed) && not (is_some r.busy) && not (is_some (target_of r.combat))

  -- Whether the agent may begin a dialogue.
  pub may_initiate : List ℕ → ℕ → World F → Bool × World F
  may_initiate processed e w =
      if not ((w.rows e).is_valid && is_at_leisure processed e w)
      then (false, w)
      else let ready = ensure_cooldown e w in
        let cooldown = cooldown_of e ready in
        (is_sociable w.tick cooldown && ltb cooldown.last_initiative_tick w.tick, ready)

  abbrev pub valid_location : World F → ℕ → Option (LocationComp F)
  valid_location w e = if (w.rows e).is_valid then some ((w.rows e).location) else none

module _ (fl : Float) where
  open fl use {F, lt, dec}

  -- An agent that sleeps or rests is not spoken to, one that prays seldom.
  pub is_focused : String → F → Bool
  is_focused activity roll =
      if contains_text activity "취침" || contains_text activity "휴식"
      then true
      else if contains_text activity "기도" || contains_text activity "명상"
      then lt roll (dec 8 1)
      else false

  -- GetLocationSocialModifier
  pub social_modifier : LocationType → F
  social_modifier unspecified = dec 1 0
  social_modifier pub_house = dec 18 1
  social_modifier market = dec 15 1
  social_modifier square = dec 12 1
  social_modifier church = dec 3 1
  social_modifier wilderness = dec 1 0
  social_modifier residential = dec 1 0
  social_modifier forge = dec 1 0
  social_modifier manor = dec 1 0
  social_modifier country = dec 1 0
  social_modifier city = dec 1 0
  social_modifier place = dec 1 0

  -- What is asked of a neighbour before the dice are thrown.
  abbrev pub is_open_to : List ℕ → ℕ → ℕ → World F → Bool
  is_open_to processed initiator n w =
      let r = w.rows n in
      not (n == initiator)
      && not (is_some r.player_tag)
      && is_at_leisure processed n w
      && not (is_dead r.health)
      && not (is_mindless r.is_sentient)
      && r.is_agent

  -- Whether the neighbour is a candidate.
  pub admit : List ℕ → ℕ → ℕ → World F → Bool × World F
  admit processed initiator n w =
      if not (is_open_to processed initiator n w)
      then (false, w)
      else let ready = ensure_cooldown n w in
        if not (is_sociable w.tick (cooldown_of n ready))
        then (false, ready)
        else let (roll, thrown) = throw_dice ready in
          let r = thrown.rows n in
          (
            not (is_focused r.activity roll)
                && same_text (thrown.rows initiator).location.location_name
                    r.location.location_name,
            thrown,
          )

  pub gather : List ℕ → ℕ → List ℕ → World F → List ℕ × World F
  gather processed initiator [] w = ([], w)
  gather processed initiator (n ∷ ns) w =
      let (is_admitted, asked) = admit processed initiator n w in
      let (others, after) = gather processed initiator ns asked in
      (if is_admitted then n ∷ others else others, after)

  -- The initiator, and the candidates around it.
  pub candidates_of : List ℕ → ℕ → World F → List ℕ × World F
  candidates_of processed initiator w =
      let loc = (w.rows initiator).location in
      let (others, after) =
        gather processed initiator
          (get_nearby_entities fl loc.x loc.z (dec 8 0) (valid_location w) w.places) w in
      (initiator ∷ others, after)
