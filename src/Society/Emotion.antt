-- ===== src/Society/Emotion.antt =====
-- SystemEmotionDecay: moods that fade, and the contagion of the agents of a zone. An emotion's
-- number is a byte.
use Prim.Native.String.{String}
use mundus_vivens_game_serve.Common.{
  ℕ, ◌-◌, ◌%◌, Bool, true, false, not, ◌&&◌, Option, none, some, List, [], ◌∷◌, ◌++◌, ◌==◌, ltb,
  length, get_elem?, if◌then◌else◌,
}
use mundus_vivens_game_serve.Common.Dict.{string_eq, lookup, insert}
use mundus_vivens_game_serve.Common.Float.{Float}
use mundus_vivens_game_serve.Common.Int.{pos}
use mundus_vivens_game_serve.Agents.{
  EmotionComp, EmotionCategory, EmotionRegistry, neutral, anger, hostility, fear,
}
use mundus_vivens_game_serve.Agents.Furniture.{is_some}
use mundus_vivens_game_serve.Agents.World.{World, put_row, throw_dice}

abbrev pub is_neutral : EmotionCategory → Bool
is_neutral neutral = true
is_neutral anger = false
is_neutral hostility = false
is_neutral fear = false

abbrev pub is_hostile : EmotionCategory → Bool
is_hostile neutral = false
is_hostile anger = false
is_hostile hostility = true
is_hostile fear = false

abbrev pub or_neutral : Option EmotionCategory → EmotionCategory
or_neutral none = neutral
or_neutral (some cat) = cat

-- The category of a number, which is neutral for a number that is not in the table.
abbrev pub category_of : ℕ → EmotionRegistry → EmotionCategory
category_of id reg = or_neutral (get_elem? reg.category_table id)

abbrev pub anxiety : String
anxiety = "불안"

abbrev pub alert : String
alert = "경계"

-- The number of a name; a new name is entered with this duration and category.
pub register_emotion : String → ℕ → EmotionCategory → EmotionRegistry → ℕ × EmotionRegistry
register_emotion name ticks category reg = elim (lookup name reg.name_to_id) [
  | some id ↦ (id, reg)
  | none ↦
      let id = length reg.decay_ticks_table % 256 in
      (
        id,
        record {
          name_to_id = insert name id reg.name_to_id;
          decay_ticks_table = reg.decay_ticks_table ++ (ticks ∷ []);
          category_table = reg.category_table ++ (category ∷ []);
        },
      )
]

-- One tick of fading: the base emotion comes back when the last tick is used up.
pub decay_emotion : EmotionComp → EmotionComp
decay_emotion emo =
    if ltb 0 emo.decay_ticks_remaining
    then (let left = emo.decay_ticks_remaining - 1 in
        if left == 0 && not (emo.current_emotion_id == emo.base_emotion_id)
        then record emo {
          current_emotion = emo.base_emotion;
          current_emotion_id = emo.base_emotion_id;
          decay_ticks_remaining = left;
        }
        else record emo { decay_ticks_remaining = left })
    else emo

abbrev pub infected_with : Bool → ℕ → ℕ → EmotionComp → EmotionComp
infected_with is_hostile anxiety_id alert_id emo = record emo {
  current_emotion = if is_hostile then alert else anxiety;
  current_emotion_id = if is_hostile then alert_id else anxiety_id;
  decay_ticks_remaining = 5;
}

-- Only an agent in its base emotion that is not anxious or alert already can be infected.
abbrev pub is_susceptible : ℕ → ℕ → EmotionComp → Bool
is_susceptible anxiety_id alert_id emo =
    emo.current_emotion_id == emo.base_emotion_id
    && not (emo.current_emotion_id == anxiety_id)
    && not (emo.current_emotion_id == alert_id)

module _ {F : Type 0} where
  -- The emotions other than neutral in the zone, when the system begins.
  pub zone_negative_emotions : ℕ → List ℕ → World F → List ℕ
  zone_negative_emotions zone [] w = []
  zone_negative_emotions zone (e ∷ es) w =
      let rest = zone_negative_emotions zone es w in
      let r = w.rows e in
      if r.is_valid
        && r.is_agent
        && r.location.zone_id == zone
        && not (is_neutral (category_of r.emotion.current_emotion_id w.emotion_registry))
      then r.emotion.current_emotion_id ∷ rest
      else rest

  -- The numbers of the two emotions that are caught, found once.
  pub cache_ids : World F → (ℕ × ℕ) × World F
  cache_ids w = elim w.contagion_ids [
    | some ids ↦ (ids, w)
    | none ↦
        let (anxiety_id, with_anxiety) = register_emotion anxiety 5 neutral w.emotion_registry in
        let (alert_id, with_alert) = register_emotion alert 5 neutral with_anxiety in
        (
          (anxiety_id, alert_id),
          record w { emotion_registry = with_alert; contagion_ids = some (anxiety_id, alert_id) },
        )
  ]

module _ (fl : Float) where
  open fl use {F, mul, lt, dec, of_ℤ}

  -- 15% for each negative emotion, 45% at most.
  abbrev pub infect_chance : List ℕ → F
  infect_chance negatives =
      let chance = mul (of_ℤ (pos (length negatives))) (dec 15 2) in
      if lt (dec 45 2) chance then dec 45 2 else chance

  abbrev pub put_emotion : ℕ → EmotionComp → World F → World F
  put_emotion e emo w = put_row e (record (w.rows e) { emotion = emo }) w

  -- The emotions around, which are one at least.
  pub catch_mood : ℕ → ℕ → List ℕ → World F → World F
  catch_mood e source rest w =
      let (ids, cached) = cache_ids w in
      let (anxiety_id, alert_id) = ids in
      let emo = (cached.rows e).emotion in
      let (roll, thrown) = throw_dice cached in
      if not (is_susceptible anxiety_id alert_id emo)
      then cached
      else if lt roll (infect_chance (source ∷ rest))
      then put_emotion e
          (infected_with (is_hostile (category_of source cached.emotion_registry)) anxiety_id
            alert_id emo)
          thrown
      else thrown

  pub infect : ℕ → List ℕ → World F → World F
  infect e [] w = w
  infect e (source ∷ rest) w = catch_mood e source rest w

  -- One agent that is not busy.
  pub feel : List ℕ → ℕ → World F → World F
  feel negatives e w = infect e negatives (put_emotion e (decay_emotion ((w.rows e).emotion)) w)

  pub feel_all : (ℕ → List ℕ) → List ℕ → World F → World F
  feel_all negatives [] w = w
  feel_all negatives (e ∷ es) w =
      let r = w.rows e in
      feel_all negatives es (
        if r.is_valid && r.is_agent && not (is_some r.busy)
        then feel (negatives r.location.zone_id) e w
        else w)

  -- `SystemEmotionDecay`, over the entities in the order of the view.
  pub system_emotion_decay : List ℕ → World F → World F
  system_emotion_decay es w = feel_all (λ zone. zone_negative_emotions zone es w) es w
