-- ===== src/Players/Index.antt =====
-- The two indices of the players, by session and by number: where their entries lead, and that the
-- replies and the clean-up keep them so.
pub mod Requests
pub mod Reach
use Prim.Native.String.{String}
use mundus_vivens_game_serve.Common.{
  ℕ, ◌≡◌, ◌≢◌, ◌⊎◌, ◌∙◌, sym, refl, ap, inl, inr, Bool, true, false, not, ◌&&◌, ◌||◌, ◌==◌, ==_iff,
  List, [], ◌∷◌, if◌then◌else◌, arith, Option, none, some, Bool-cases, Option-cases,
}
use mathlib.Core.Path.{subst}
use mundus_vivens_game_serve.Common.Dict.{
  beq_refl, beq_ne, nat_eq, lookup, lookup-insert, lookup-erase, insert, erase,
}
use mundus_vivens_game_serve.Common.Float.{Float}
use mundus_vivens_game_serve.Agents.{PlayerDialogueComp}
use mundus_vivens_game_serve.Agents.Furniture.{is_some}
use mundus_vivens_game_serve.Agents.World.{
  World, Row, Entities, Call, put_row, send, end_player_dialogue,
}
use mundus_vivens_game_serve.Players.{
  AgentIdMapper, fresh_busy, get_agent_numeric_id, release, released, release_partner, break_off,
  remove_player, lost_session, find_lost, remove_all_lost, cleanup_disconnected,
}
use mundus_vivens_game_serve.Players.Replies.{
  answer_start, answer_end, update_valid, busy_none, talking, leave_dialogue, in_dialogue_with,
}

module _ {F : Type 0} where
  -- The entries of the two maps lead to valid entities: to the player that has the session, and to
  -- the entity that has the number.
  pub record IsIndexed (w : World F) : Type 0 where
    pub sessions :
        (s e : ℕ)
        → lookup s w.by_session_index ≡ some e
        → ((w.rows e).is_valid ≡ true) × ((w.rows e).player_tag ≡ some s)
    pub numbers :
        (n e : ℕ)
        → lookup n w.by_npc_id ≡ some e
        → ((w.rows e).is_valid ≡ true) × ((w.rows e).identity.npc_id ≡ n)

  -- The row is as valid as before, of the same session and number.
  abbrev pub IsSameEntity : Row F → Row F → Type 0
  IsSameEntity r r' =
      (r.is_valid ≡ r'.is_valid)
      × (r.player_tag ≡ r'.player_tag)
      × (r.identity.npc_id ≡ r'.identity.npc_id)

  pub put_row-IsIndexed :
      (e : ℕ) (r : Row F) (w : World F)
      → IsSameEntity r (w.rows e)
      → IsIndexed w
      → IsIndexed (put_row e r w)
  put_row-IsIndexed e r w (valid, tag, id) h = record {
    sessions = λ s f at. ground (arith, h.sessions s f at);
    numbers = λ n f at. ground (arith, h.numbers n f at);
  }

  update_valid-IsIndexed :
      (e : ℕ) (f : Row F → Row F) (w : World F)
      → ((r : Row F) → IsSameEntity (f r) r)
      → IsIndexed w
      → IsIndexed (update_valid e f w)
  update_valid-IsIndexed e f w same h =
      let changed : Bool → World F = λ b. if b then put_row e (f (w.rows e)) w else w in
      elim (Bool-cases (w.rows e).is_valid) [
        | inl valid ↦
            subst IsIndexed (sym (ap changed valid))
              (put_row-IsIndexed e (f (w.rows e)) w (same (w.rows e)) h)
        | inr gone ↦ subst IsIndexed (sym (ap changed gone)) h
      ]

  release-IsIndexed : (e : ℕ) (w : World F) → IsIndexed w → IsIndexed (release e w)
  unfolding release
  release-IsIndexed e w h = update_valid-IsIndexed e released w (λ r. (refl, refl, refl)) h

  release_partner-IsIndexed :
      (npc : Option ℕ) (w : World F) → IsIndexed w → IsIndexed (release_partner npc w)
  release_partner-IsIndexed none w h = h
  release_partner-IsIndexed (some npc) w h = release-IsIndexed npc w h

  -- Two worlds with the same maps and the same entities.
  record IsSameWorld (w v : World F) : Type 0 where
    same_rows : (a : ℕ) → IsSameEntity (v.rows a) (w.rows a)
    same_sessions : v.by_session_index ≡ w.by_session_index
    same_numbers : v.by_npc_id ≡ w.by_npc_id

  release-IsSameWorld : (e : ℕ) (w : World F) → IsSameWorld w (release e w)
  unfolding release
  release-IsSameWorld e w = record {
    same_rows = λ a. ground arith;
    same_sessions = ground arith;
    same_numbers = ground arith;
  }

  break_off-IsSameWorld :
      (d : Option PlayerDialogueComp) (w : World F) → IsSameWorld w (break_off d w)
  unfolding break_off
  break_off-IsSameWorld none w = record {
    same_rows = λ a. (refl, refl, refl);
    same_sessions = refl;
    same_numbers = refl;
  }
  break_off-IsSameWorld (some pdc) w = elim (Option-cases pdc.npc_entity) [
    | inl nobody ↦
        rw (break_off, nobody)
          (record {
            same_rows = λ a. (refl, refl, refl);
            same_sessions = refl;
            same_numbers = refl;
          })
    | inr (npc, partner) ↦
        let ended = release-IsSameWorld npc (send (end_player_dialogue pdc.session_id) w) in
        rw (break_off, partner)
          (record {
            same_rows = ended.same_rows;
            same_sessions = ended.same_sessions;
            same_numbers = ended.same_numbers;
          })
  ]

  pub answer_start-IsIndexed :
      (b : Bool) (id npc player : ℕ) (w : World F)
      → IsIndexed w
      → IsIndexed (answer_start b id npc player w)
  unfolding answer_start
  answer_start-IsIndexed true id npc player w h =
      let told = update_valid npc talking w in
      update_valid-IsIndexed player (in_dialogue_with id npc) told (λ r. (refl, refl, refl))
        (update_valid-IsIndexed npc talking w (λ r. (refl, refl, refl)) h)
  answer_start-IsIndexed false id npc player w h =
      update_valid-IsIndexed player busy_none (release npc w) (λ r. (refl, refl, refl))
        (release-IsIndexed npc w h)

  pub answer_end-IsIndexed :
      (npc player : Option ℕ) (w : World F) → IsIndexed w → IsIndexed (answer_end npc player w)
  unfolding answer_end
  answer_end-IsIndexed npc none w h = release_partner-IsIndexed npc w h
  answer_end-IsIndexed npc (some player) w h =
      update_valid-IsIndexed player leave_dialogue (release_partner npc w) (λ r. (refl, refl, refl))
        (release_partner-IsIndexed npc w h)

module _ (fl : Float) (is_connected : ℕ → Bool) where
  open fl use {F}

  -- A player to take away has the session that is gone.
  abbrev IsLost : ℕ → ℕ → World F → Type 0
  IsLost e session w = (w.rows e).is_valid ≡ true → (w.rows e).player_tag ≡ some session

  remove_player-IsIndexed :
      (e session : ℕ) (w : World F)
      → IsLost e session w
      → IsIndexed w
      → IsIndexed (remove_player fl e session w)
  unfolding remove_player
  remove_player-IsIndexed e session w lost h =
      let ended = break_off (w.rows e).dialogue w in
      let same = break_off-IsSameWorld (w.rows e).dialogue w in
      record {
        sessions = λ s f at. ground (
          arith,
          h.sessions s f,
          same.same_rows f,
          same.same_sessions,
          lookup-erase session s ended.by_session_index,
          lost,
        );
        numbers = λ n f at. ground (
          arith,
          h.numbers n f,
          same.same_rows f,
          same.same_numbers,
          lookup-erase (w.rows e).identity.npc_id n ended.by_npc_id,
        );
      }

  remove_player-IsLost :
      (x t e session : ℕ) (w : World F)
      → IsLost e session w
      → IsLost e session (remove_player fl x t w)
  unfolding remove_player
  remove_player-IsLost x t e session w lost valid =
      let same = break_off-IsSameWorld (w.rows x).dialogue w in
      ground (arith, same.same_rows e, lost)

  abbrev AllLost : List (ℕ × ℕ) → World F → Type 0
  AllLost [] w = Unit
  AllLost ((e, session) ∷ rest) w = IsLost e session w × AllLost rest w

  remove_player-AllLost :
      (x t : ℕ) (ps : List (ℕ × ℕ)) (w : World F)
      → AllLost ps w
      → AllLost ps (remove_player fl x t w)
  remove_player-AllLost x t [] w h = tt
  remove_player-AllLost x t ((e, session) ∷ rest) w (h, hs) =
      (remove_player-IsLost x t e session w h, remove_player-AllLost x t rest w hs)

  remove_all_lost-IsIndexed :
      (ps : List (ℕ × ℕ)) (w : World F)
      → AllLost ps w
      → IsIndexed w
      → IsIndexed (remove_all_lost fl ps w)
  unfolding remove_all_lost
  remove_all_lost-IsIndexed [] w lost h = h
  remove_all_lost-IsIndexed ((e, session) ∷ rest) w (l, ls) h =
      remove_all_lost-IsIndexed rest (remove_player fl e session w)
        (remove_player-AllLost e session rest w ls) (remove_player-IsIndexed e session w l h)

  lost_session-IsLost :
      (e session : ℕ) (w : World F)
      → lost_session fl is_connected (w.rows e) ≡ some session
      → (w.rows e).player_tag ≡ some session
  lost_session-IsLost e session w h = elim (Option-cases (w.rows e).player_tag) [
    | inl no_player ↦ absurd (ground arith)
    | inr (s, tag) ↦ ground arith
  ]

  find_lost-AllLost : (es : List ℕ) (w : World F) → AllLost (find_lost fl is_connected es w) w
  unfolding find_lost
  find_lost-AllLost [] w = tt
  find_lost-AllLost (e ∷ es) w = elim (Option-cases (lost_session fl is_connected (w.rows e))) [
    | inl kept ↦ rw (lost_session, find_lost, kept) (find_lost-AllLost es w)
    | inr (session, gone) ↦
        rw (lost_session, find_lost, gone)
          ((λ valid. lost_session-IsLost e session w gone), find_lost-AllLost es w)
  ]

  pub cleanup-IsIndexed :
      (es : List ℕ) (w : World F)
      → IsIndexed w
      → IsIndexed (cleanup_disconnected fl is_connected es w)
  unfolding cleanup_disconnected
  cleanup-IsIndexed es w h =
      remove_all_lost-IsIndexed (find_lost fl is_connected es w) w (find_lost-AllLost es w) h
