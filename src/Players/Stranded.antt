-- ===== src/Players/Stranded.antt =====
-- A player whose session is lost before the planner has answered the wish for a dialogue.
use mundus_vivens_game_serve.Common.{
  Option-cases, ℕ, Option, ◌≡◌, ◌≢◌, ◌∙◌, sym, refl, ap, Bool, true, false, [], ◌∷◌, arith, none,
  some, inl, inr,
}
use mathlib.Core.Path.{subst}
use mundus_vivens_game_serve.Common.Dict.{nat_eq, lookup}
use mundus_vivens_game_serve.Common.Float.{Float}
use mundus_vivens_game_serve.Agents.{PlayerDialogueComp}
use mundus_vivens_game_serve.Agents.World.{World, Entities}
use mundus_vivens_game_serve.Players.{
  AgentIdMapper, fresh_busy, break_off, remove_player, find_lost, remove_all_lost,
  cleanup_disconnected,
}
use mundus_vivens_game_serve.Players.Commands.{may_talk, begin_dialogue, talk}
use mundus_vivens_game_serve.Players.Replies.{answer_start, partner_of}

module _ (fl : Float) (ecs : Entities fl.F) (mapper : AgentIdMapper) (is_connected : ℕ → Bool) where
  open fl use {F}

  -- A player of the session, in no dialogue, that may talk to the agent of the number.
  pub record MayBegin (session npc_id player npc : ℕ) (w : World F) : Type 0 where
    pub player_is : lookup session w.by_session_index ≡ some player
    pub npc_is : lookup npc_id w.by_npc_id ≡ some npc
    pub may : may_talk fl ecs mapper is_connected player npc w ≡ true
    pub distinct : player ≢ npc
    pub player_valid : (w.rows player).is_valid ≡ true
    pub npc_valid : (w.rows npc).is_valid ≡ true
    pub tag_is : (w.rows player).player_tag ≡ some session
    pub in_none : (w.rows player).dialogue ≡ none
    pub unheld :
        (a : ℕ) (d : PlayerDialogueComp) → (w.rows a).dialogue ≡ some d → d.npc_entity ≢ some npc

  abbrev IsWaiting : ℕ → ℕ → ℕ → World F → Type 0
  IsWaiting session player npc v =
      ((v.rows player).is_valid ≡ true)
      × ((v.rows player).player_tag ≡ some session)
      × ((v.rows player).dialogue ≡ none)
      × ((v.rows npc).is_valid ≡ true)
      × ((v.rows npc).busy ≡ fresh_busy fl)

  talked :
      (session npc_id player npc : ℕ) (w : World F)
      → MayBegin session npc_id player npc w
      → IsWaiting session player npc (talk fl ecs mapper is_connected session npc_id w).0
  unfolding talk begin_dialogue
  talked session npc_id player npc w m =
      rw (talk, m.player_is, m.npc_is, m.may)
        (ground (arith, m.distinct, m.player_valid, m.tag_is, m.in_none, m.npc_valid))

  taken_away :
      (session player npc : ℕ) (v : World F)
      → player ≢ npc
      → IsWaiting session player npc v
      → ((remove_player fl player session v).rows player).is_valid ≡ false
        × ((remove_player fl player session v).rows npc ≡ v.rows npc)
  unfolding remove_player break_off
  taken_away session player npc v ne w = ground (arith, w)

  -- No dialogue leads to the agent.
  abbrev pub IsUnheld : ℕ → World F → Type 0
  IsUnheld npc w =
      (a : ℕ) (d : PlayerDialogueComp) → (w.rows a).dialogue ≡ some d → d.npc_entity ≢ some npc

  -- No dialogue of a player is new.
  abbrev pub HasNoNewDialogue : World F → World F → Type 0
  HasNoNewDialogue w v =
      (a : ℕ) (d : PlayerDialogueComp) → (v.rows a).dialogue ≡ some d → (w.rows a).dialogue ≡ some d

  talk_opens_none :
      (session npc_id player npc : ℕ) (w : World F)
      → MayBegin session npc_id player npc w
      → HasNoNewDialogue w (talk fl ecs mapper is_connected session npc_id w).0
  unfolding talk begin_dialogue
  talk_opens_none session npc_id player npc w m a d =
      rw (talk, m.player_is, m.npc_is, m.may) (λ h. ground (arith, h))

  removal_opens_none :
      (session player npc : ℕ) (v : World F)
      → IsWaiting session player npc v
      → HasNoNewDialogue v (remove_player fl player session v)
  unfolding remove_player break_off
  removal_opens_none session player npc v w a d h = ground (arith, w, h)

  cleaned_up :
      (session player npc : ℕ) (v : World F)
      → is_connected session ≡ false
      → IsWaiting session player npc v
      → cleanup_disconnected fl is_connected (player ∷ []) v ≡ remove_player fl player session v
  unfolding cleanup_disconnected find_lost remove_all_lost
  cleaned_up session player npc v gone w = rw (find_lost, w.0, w.1, gone) refl

  too_late :
      (session_id npc player : ℕ) (u : World F)
      → (u.rows player).is_valid ≡ false
      → (u.rows npc).is_valid ≡ true
      → player ≢ npc
      → (((answer_start true session_id npc player u).rows npc).busy ≡ (u.rows npc).busy)
        × (((answer_start true session_id npc player u).rows player).is_valid ≡ false)
        × HasNoNewDialogue u (answer_start true session_id npc player u)
  unfolding answer_start
  too_late session_id npc player u gone valid ne =
      (ground arith, ground arith, λ a d h. ground arith)

  -- An agent to which no dialogue of a player leads is the partner of no player.
  unheld_partner :
      (npc : ℕ) (w : World F) (p : Option ℕ) → IsUnheld npc w → partner_of p w ≢ some npc
  unfolding partner_of
  unheld_partner npc w none h e = cc
  unheld_partner npc w (some p) h e = elim (Option-cases (w.rows p).dialogue) [
    | inl no_dialogue ↦ absurd (ground (arith, e, no_dialogue))
    | inr (d, has) ↦ h p d has (ground (arith, e, has))
  ]

  -- A player may begin a dialogue with an agent to which no dialogue of a player leads; it begins
  -- one, loses its session and is taken away before the planner answers; then the answer comes and
  -- is a success. The agent is left busy, the player is gone, and no dialogue of a player leads to
  -- the agent; so the agent is the partner of no player, whose end of a dialogue would release it.
  pub reply_strands :
      (session npc_id session_id player npc : ℕ) (w : World F)
      → MayBegin session npc_id player npc w
      → is_connected session ≡ false
      → let begun = (talk fl ecs mapper is_connected session npc_id w).0 in
        let left = cleanup_disconnected fl is_connected (player ∷ []) begun in
        let answered = answer_start true session_id npc player left in
        ((answered.rows npc).busy ≡ fresh_busy fl)
        × ((answered.rows player).is_valid ≡ false)
        × IsUnheld npc answered
        × ((p : Option ℕ) → partner_of p answered ≢ some npc)
  reply_strands session npc_id session_id player npc w m gone =
      let begun = (talk fl ecs mapper is_connected session npc_id w).0 in
      let waits = talked session npc_id player npc w m in
      let (lost, same) = taken_away session player npc begun m.distinct waits in
      let u = remove_player fl player session begun in
      let (busy, away, quiet) =
        too_late session_id npc player u lost (ap (λ r. r.is_valid) same ∙ waits.3) m.distinct in
      let answered = answer_start true session_id npc player u in
      let unheld : IsUnheld npc answered = λ a d h. m.unheld a d (
        talk_opens_none session npc_id player npc w m a d
          (removal_opens_none session player npc begun waits a d (quiet a d h))) in
      subst
        (λ v.
          (((answer_start true session_id npc player v).rows npc).busy ≡ fresh_busy fl)
          × (((answer_start true session_id npc player v).rows player).is_valid ≡ false)
          × IsUnheld npc (answer_start true session_id npc player v)
          × ((p : Option ℕ) → partner_of p (answer_start true session_id npc player v) ≢ some npc))
        (sym (cleaned_up session player npc begun gone waits))
        (
          busy ∙ ap (λ r. r.busy) same ∙ waits.4,
          away,
          unheld,
          λ p. unheld_partner npc answered p unheld,
        )
