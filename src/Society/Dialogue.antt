-- ===== src/Society/Dialogue.antt =====
-- The reply to TriggerDialogueAsync, which is a task of the result queue: the moods and the jobs
-- that come of a dialogue, what bystanders overhear, and the release of those who took part. The
-- events for the clients are left out. The numbers of categories above 4 are not sent.
pub mod Released
mod Tests
use Prim.Native.String.{String, ◌++◌}
use mundus_vivens_game_serve.Common.{
  ℕ, zero, suc, ◌+◌, ◌-◌, Bool, true, false, not, ◌&&◌, ◌||◌, Option, none, some, List, [], ◌∷◌,
  ◌==◌, length, if◌then◌else◌,
}
use mundus_vivens_game_serve.Common.Dict.{nat_eq, lookup, insert}
use mundus_vivens_game_serve.Common.Float.{Float}
use mundus_vivens_game_serve.Common.Int.{pos}
use mundus_vivens_game_serve.Agents.{
  EmotionComp, EmotionCategory, neutral, anger, hostility, fear, CooldownComp, LocationComp,
}
use mundus_vivens_game_serve.Agents.JobDriver.{JobPayload, waiting}
use mundus_vivens_game_serve.Agents.Orders.{take_order}
use mundus_vivens_game_serve.Agents.World.{
  Row, World, put_row, send, inject_belief, or_new_cooldown,
}
use mundus_vivens_game_serve.Places.Position.{get_nearby_entities}
use mundus_vivens_game_serve.Players.{release}
use mundus_vivens_game_serve.Society.Emotion.{register_emotion}

pub record AgentEmotionUpdate : Type 0 where
  pub agent_id : ℕ
  pub new_emotion : String
  pub intensity : ℕ
  pub category : ℕ

-- DialogueResult, without what is only shown.
pub record DialogueResult (F : Type 0) : Type 0 where
  pub is_success : Bool
  pub dialogue_summary : String
  pub emotion_updates : List AgentEmotionUpdate
  pub next_jobs : List (ℕ × JobPayload F)
  pub keywords : List String

abbrev pub thinking : String
thinking = "생각 정리 중"

unfoldable pub is_in : ℕ → List ℕ → Bool
is_in e [] = false
is_in e (x ∷ xs) = x == e || is_in e xs

-- Low 3, high 10, and 6 otherwise.
pub ticks_of : ℕ → ℕ
ticks_of intensity = if intensity == 1 then 3 else if intensity == 3 then 10 else 6

pub category_named : ℕ → EmotionCategory
category_named zero = neutral
category_named (suc zero) = neutral
category_named (suc (suc zero)) = anger
category_named (suc (suc (suc zero))) = hostility
category_named (suc (suc (suc (suc n)))) = fear

pub join_keywords : List String → String
join_keywords [] = ""
join_keywords (k ∷ []) = k
join_keywords (k ∷ k' ∷ rest) = k ++ ", " ++ join_keywords (k' ∷ rest)

abbrev pub is_no_list : List String → Bool
is_no_list [] = true
is_no_list (k ∷ ks) = false

-- The cooldowns of one who took part: the others of the group are met again after two ticks.
pub meet : List ℕ → ℕ → CooldownComp → CooldownComp
meet [] until cooldown = cooldown
meet (id ∷ ids) until cooldown =
    meet ids until
      (record cooldown { cooldown_per_target = insert id until cooldown.cooldown_per_target })

module _ {F : Type 0} where
  pub all_valid : List ℕ → World F → Bool
  all_valid [] w = true
  all_valid (e ∷ es) w = (w.rows e).is_valid && all_valid es w

  pub update_emotion : AgentEmotionUpdate → World F → World F
  update_emotion update w = elim (lookup update.agent_id w.by_npc_id) [
    | none ↦ w
    | some e ↦
        let r = w.rows e in
        if not (r.is_valid && r.is_agent)
        then w
        else let ticks = ticks_of update.intensity in
          let (id, registry) =
            register_emotion update.new_emotion ticks (category_named update.category)
              w.emotion_registry in
          let emo : EmotionComp = record r.emotion {
            current_emotion = update.new_emotion;
            current_emotion_id = id;
            decay_ticks_remaining = ticks;
          } in
          put_row e (record r { emotion = emo }) (record w { emotion_registry = registry })
  ]

  pub update_emotions : List AgentEmotionUpdate → World F → World F
  update_emotions [] w = w
  update_emotions (update ∷ rest) w = update_emotions rest (update_emotion update w)

  -- The numbers of the others of the group.
  pub ids_of_others : ℕ → List ℕ → World F → List ℕ
  ids_of_others e [] w = []
  ids_of_others e (x ∷ xs) w =
      let rest = ids_of_others e xs w in if x == e then rest else (w.rows x).identity.npc_id ∷ rest

  -- One who took part.
  pub part : List ℕ → ℕ → ℕ → World F → World F
  part group tick e w =
      let r = w.rows e in
      let spent = or_new_cooldown r.cooldown in
      let cooldown = meet (ids_of_others e group w) (tick + 2) (record spent {
        social_energy = spent.social_energy - 10;
        cognitive_refractory_until = tick + 1;
      }) in
      if r.is_valid
      then put_row e (record r { cooldown = some cooldown; activity = thinking; busy = none }) w
      else w

  pub part_all : List ℕ → ℕ → List ℕ → World F → World F
  part_all group tick [] w = w
  part_all group tick (e ∷ es) w = part_all group tick es (part group tick e w)

  pub release_all : List ℕ → World F → World F
  release_all [] w = w
  release_all (e ∷ es) w = release_all es (release e w)

module _ (fl : Float) (cos : fl.F → fl.F) (sin : fl.F → fl.F) where
  open fl use {F, add, sub, mul, div, sqrt, le, dec, of_ℤ}

  pub take_job : ℕ → JobPayload F → World F → World F
  take_job npc_id order w = elim (lookup npc_id w.by_npc_id) [
    | none ↦ w
    | some e ↦ if (w.rows e).is_valid then take_order fl cos sin e order w else w
  ]

  pub take_jobs : List (ℕ × JobPayload F) → World F → World F
  take_jobs [] w = w
  take_jobs ((npc_id, order) ∷ rest) w = take_jobs rest (take_job npc_id order w)

  -- The sums of the coordinates of those that are valid, and their count.
  pub sum_up : List ℕ → (F × F × F) × ℕ → World F → (F × F × F) × ℕ
  sum_up [] sums w = sums
  sum_up (e ∷ es) ((x, y, z), count) w =
      let r = w.rows e in
      sum_up es
        (if r.is_valid
          then ((add x r.location.x, add y r.location.y, add z r.location.z), count + 1)
          else ((x, y, z), count))
        w

  -- The middle of the group.
  pub middle_of : List ℕ → World F → F × F × F
  middle_of group w =
      let ((x, y, z), count) = sum_up group ((dec 0 0, dec 0 0, dec 0 0), 0) w in
      if count == 0
      then (x, y, z)
      else (div x (of_ℤ (pos count)), div y (of_ℤ (pos count)), div z (of_ℤ (pos count)))

  abbrev talk_distance : F × F × F → LocationComp F → F
  talk_distance (x, y, z) loc =
      let dx = sub loc.x x in
      let dy = sub loc.y y in
      let dz = sub loc.z z in sqrt (add (add (mul dx dx) (mul dy dy)) (mul dz dz))

  -- What is heard at this distance: the whole, the keywords, or nothing.
  pub heard : F → DialogueResult F → Option String
  heard distance result =
      if le distance (dec 3 0)
      then some ("[엿들음] " ++ result.dialogue_summary)
      else if le distance (dec 8 0) && not (is_no_list result.keywords)
      then some ("[엿들음 - 단편적 키워드] 주제: " ++ join_keywords result.keywords)
      else none

  pub overhear : F × F × F → ℕ → DialogueResult F → List ℕ → ℕ → World F → World F
  overhear middle source_id result group e w =
      let r = w.rows e in
      if is_in e group || not (r.is_valid && r.is_agent)
      then w
      else elim (heard (talk_distance middle r.location) result) [
        | none ↦ w
        | some content ↦ send (inject_belief r.identity.npc_id source_id content source_id) w
      ]

  pub overhear_all : F × F × F → ℕ → DialogueResult F → List ℕ → List ℕ → World F → World F
  overhear_all middle source_id result group [] w = w
  overhear_all middle source_id result group (e ∷ es) w =
      overhear_all middle source_id result group es (overhear middle source_id result group e w)

  abbrev located : World F → ℕ → Option (LocationComp F)
  located w e = if (w.rows e).is_valid then some ((w.rows e).location) else none

  -- The dialogue is heard of by those around; the first of the group is the source.
  pub spread : DialogueResult F → List ℕ → World F → World F
  spread result [] w = w
  spread result (first ∷ rest) w =
      let middle = middle_of (first ∷ rest) w in
      let bystanders = get_nearby_entities fl middle.0 middle.2 (dec 8 0) (located w) w.places in
      overhear_all middle (w.rows first).identity.npc_id result (first ∷ rest) bystanders w

  -- The reply; `tick` is that of the request.
  pub answer_dialogue : Bool → DialogueResult F → List ℕ → ℕ → World F → World F
  answer_dialogue is_success result group tick w =
      if is_success && result.is_success && all_valid group w
      then (let felt = update_emotions result.emotion_updates w in
          part_all group tick group (spread result group (take_jobs result.next_jobs felt)))
      else release_all group w
