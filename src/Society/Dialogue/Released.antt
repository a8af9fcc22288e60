-- ===== src/Society/Dialogue/Released.antt =====
-- Who is busy after a reply to a dialogue.
use Prim.Native.String.{String}
use mundus_vivens_game_serve.Common.{
  ℕ, ◌≡◌, ◌∙◌, refl, inl, inr, Bool, ◌&&◌, ◌||◌, ◌==◌, List, [], ◌∷◌, if◌then◌else◌, arith, Option,
  none, Bool-cases, Option-cases,
}
use mundus_vivens_game_serve.Common.Dict.{nat_eq, lookup}
use mundus_vivens_game_serve.Common.Float.{Float}
use mundus_vivens_game_serve.Agents.{BusyTag}
use mundus_vivens_game_serve.Agents.JobDriver.{JobPayload, waiting}
use mundus_vivens_game_serve.Agents.Orders.{take_order, randomize_within_radius}
use mundus_vivens_game_serve.Agents.World.{World, Row, put_row}
use mundus_vivens_game_serve.Players.{release}
use mundus_vivens_game_serve.Society.Dialogue.{
  AgentEmotionUpdate, DialogueResult, thinking, is_in, update_emotion, update_emotions, part,
  part_all, release_all, all_valid, take_job, take_jobs, overhear, overhear_all, spread,
  answer_dialogue,
}

module _ {F : Type 0} where
  -- What the dialogue decides of a row.
  abbrev pub state_of : Row F → Bool × Option (BusyTag F) × String
  state_of r = (r.is_valid, r.busy, r.activity)

  abbrev IsQuiet : World F → World F → Type 0
  IsQuiet w v = (e : ℕ) → state_of (v.rows e) ≡ state_of (w.rows e)

  put_row-IsQuiet :
      (e : ℕ) (r : Row F) (w : World F)
      → state_of r ≡ state_of (w.rows e)
      → IsQuiet w (put_row e r w)
  put_row-IsQuiet e r w same a = ground (arith, same)

  update_emotion-IsQuiet :
      (update : AgentEmotionUpdate) (w : World F) → IsQuiet w (update_emotion update w)
  unfolding update_emotion
  update_emotion-IsQuiet update w a = elim (Option-cases (lookup update.agent_id w.by_npc_id)) [
    | inl unknown ↦ rw (update_emotion, unknown) refl
    | inr (e, known) ↦ rw (update_emotion, known) (ground arith)
  ]

  update_emotions-IsQuiet :
      (updates : List AgentEmotionUpdate) (w : World F) → IsQuiet w (update_emotions updates w)
  unfolding update_emotions
  update_emotions-IsQuiet [] w e = refl
  update_emotions-IsQuiet (update ∷ rest) w e =
      update_emotions-IsQuiet rest (update_emotion update w) e ∙ update_emotion-IsQuiet update w e

  -- Whether the reply counts: a success, and all that took part are still there.
  abbrev pub is_done : Bool → DialogueResult F → List ℕ → World F → Bool
  is_done is_success result group w = is_success && result.is_success && all_valid group w

  -- The state after the release with this activity.
  abbrev pub released_if : Bool → String → Row F → Bool × Option (BusyTag F) × String
  released_if b activity r = if b && r.is_valid then (r.is_valid, none, activity) else state_of r

  released_twice :
      (b c : Bool) (activity : String) (r r' : Row F)
      → state_of r' ≡ released_if b activity r
      → released_if c activity r' ≡ released_if (b || c) activity r
  released_twice b c activity r r' h = ground (arith, h)

  part_state :
      (group : List ℕ) (tick x e : ℕ) (w : World F)
      → state_of ((part group tick x w).rows e) ≡ released_if (x == e) thinking (w.rows e)
  unfolding part
  part_state group tick x e w = ground arith

  part_all_state :
      (group : List ℕ) (tick : ℕ) (es : List ℕ) (e : ℕ) (w : World F)
      → state_of ((part_all group tick es w).rows e) ≡ released_if (is_in e es) thinking (w.rows e)
  unfolding part_all is_in
  part_all_state group tick [] e w = refl
  part_all_state group tick (x ∷ es) e w =
      part_all_state group tick es e (part group tick x w)
      ∙ released_twice (x == e) (is_in e es) thinking (w.rows e) ((part group tick x w).rows e)
          (part_state group tick x e w)

  release_state :
      (x e : ℕ) (w : World F)
      → state_of ((release x w).rows e) ≡ released_if (x == e) waiting (w.rows e)
  unfolding release
  release_state x e w = ground arith

  release_all_state :
      (es : List ℕ) (e : ℕ) (w : World F)
      → state_of ((release_all es w).rows e) ≡ released_if (is_in e es) waiting (w.rows e)
  unfolding release_all is_in
  release_all_state [] e w = refl
  release_all_state (x ∷ es) e w =
      release_all_state es e (release x w)
      ∙ released_twice (x == e) (is_in e es) waiting (w.rows e) ((release x w).rows e)
          (release_state x e w)

  released_same :
      (b : Bool) (activity : String) (r r' : Row F)
      → state_of r' ≡ state_of r
      → released_if b activity r' ≡ released_if b activity r
  released_same b activity r r' h = ground (arith, h)

module _ (fl : Float) (cos : fl.F → fl.F) (sin : fl.F → fl.F) where
  open fl use {F}

  take_order-IsQuiet :
      (e : ℕ) (order : JobPayload F) (w : World F) → IsQuiet w (take_order fl cos sin e order w)
  unfolding take_order randomize_within_radius
  take_order-IsQuiet e order w a = ground arith

  take_job-IsQuiet :
      (npc_id : ℕ) (order : JobPayload F) (w : World F)
      → IsQuiet w (take_job fl cos sin npc_id order w)
  unfolding take_job
  take_job-IsQuiet npc_id order w a = elim (Option-cases (lookup npc_id w.by_npc_id)) [
    | inl unknown ↦ rw (take_job, unknown) refl
    | inr (e, known) ↦ elim (Bool-cases (w.rows e).is_valid) [
      | inl valid ↦ rw (take_job, known, valid) (take_order-IsQuiet e order w a)
      | inr gone ↦ rw (take_job, known, gone) refl
    ]
  ]

  take_jobs-IsQuiet :
      (orders : List (ℕ × JobPayload F)) (w : World F) → IsQuiet w (take_jobs fl cos sin orders w)
  unfolding take_jobs
  take_jobs-IsQuiet [] w a = refl
  take_jobs-IsQuiet ((npc_id, order) ∷ rest) w a =
      take_jobs-IsQuiet rest (take_job fl cos sin npc_id order w) a
      ∙ take_job-IsQuiet npc_id order w a

  overhear-IsQuiet :
      (middle : F × F × F) (source : ℕ) (result : DialogueResult F) (group : List ℕ) (e : ℕ)
      (w : World F)
      → IsQuiet w (overhear fl cos sin middle source result group e w)
  unfolding overhear
  overhear-IsQuiet middle source result group e w a = ground arith

  overhear_all-IsQuiet :
      (middle : F × F × F) (source : ℕ) (result : DialogueResult F) (group es : List ℕ)
      (w : World F)
      → IsQuiet w (overhear_all fl cos sin middle source result group es w)
  unfolding overhear_all
  overhear_all-IsQuiet middle source result group [] w a = refl
  overhear_all-IsQuiet middle source result group (e ∷ es) w a =
      overhear_all-IsQuiet middle source result group es
        (overhear fl cos sin middle source result group e w) a
      ∙ overhear-IsQuiet middle source result group e w a

  spread-IsQuiet :
      (result : DialogueResult F) (group : List ℕ) (w : World F)
      → IsQuiet w (spread fl cos sin result group w)
  unfolding spread
  spread-IsQuiet result [] w a = refl
  spread-IsQuiet result (first ∷ rest) w a = overhear_all-IsQuiet _ _ result (first ∷ rest) _ w a

  -- The reply to a dialogue, whatever it carries, ends it for each entity of the group that is
  -- still there: the entity is not busy, and is in thought after a dialogue that was held with all
  -- still there, or waits otherwise. Of the other entities neither the busy tag nor the activity
  -- changes, and no entity is created or destroyed.
  pub answer_dialogue-releases :
      (is_success : Bool) (result : DialogueResult F) (group : List ℕ) (tick e : ℕ) (w : World F)
      → state_of ((answer_dialogue fl cos sin is_success result group tick w).rows e)
        ≡ released_if
            (is_in e group)
            (if is_done is_success result group w then thinking else waiting)
            (w.rows e)
  unfolding answer_dialogue
  answer_dialogue-releases is_success result group tick e w =
      let felt = update_emotions result.emotion_updates w in
      let ordered = take_jobs fl cos sin result.next_jobs felt in
      let heard_of = spread fl cos sin result group ordered in
      let quiet =
        spread-IsQuiet result group ordered e
        ∙ take_jobs-IsQuiet result.next_jobs felt e
        ∙ update_emotions-IsQuiet result.emotion_updates w e in
      elim (Bool-cases (is_done is_success result group w)) [
        | inl done ↦
            rw (answer_dialogue, done)
              (part_all_state group tick group e heard_of
                ∙ released_same (is_in e group) thinking (w.rows e) (heard_of.rows e) quiet)
        | inr failed ↦ rw (answer_dialogue, failed) (release_all_state group e w)
      ]
