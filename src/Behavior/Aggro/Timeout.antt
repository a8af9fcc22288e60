-- ===== src/Behavior/Aggro/Timeout.antt =====
-- ActionInhibitOrAttack tick by tick, with and without replies of the planner.
use mathlib.Core.Path.{subst}
use mundus_vivens_game_serve.Common.{
  sym, ℕ, zero, suc, ◌+◌, ◌≤◌, ◌<◌, ◌≡◌, ◌∙◌, refl, ap, true, false, [], ◌∷◌, ◌++◌, append-nil,
  append_assoc, replicate, arith, some,
}
use mundus_vivens_game_serve.Common.Float.{Float}
use mundus_vivens_game_serve.Common.Dict.{nat_eq}
use mundus_vivens_game_serve.Agents.{AggroComp}
use mundus_vivens_game_serve.Agents.Tree.{NodeStatus, failure, running}
use mundus_vivens_game_serve.Agents.World.{World, Call, threat_detected}
use mundus_vivens_game_serve.Behavior.Aggro.{
  inhibit_or_attack, inhibit, begin_inhibition, answer_threat, has_reason,
}

module _ (fl : Float) (e threat npc_id target_npc_id : ℕ) where
  open fl use {F}

  -- An agent with reason that faces the threat, with this aggro.
  pub record IsFacing (aggro : AggroComp) (w : World F) : Type 0 where
    pub aggro_is : (w.rows e).aggro ≡ some aggro
    pub threat_is : aggro.threat_entity ≡ some threat
    pub threat_valid : (w.rows threat).is_valid ≡ true
    pub agent_valid : (w.rows e).is_valid ≡ true
    pub agent_id : (w.rows e).identity.npc_id ≡ npc_id
    pub threat_id : (w.rows threat).identity.npc_id ≡ target_npc_id
    pub reason : has_reason ((w.rows e).is_sentient) ≡ true

  abbrev pub tick_aggro : World F → NodeStatus × World F
  tick_aggro = inhibit_or_attack fl e

  facing_inhibits :
      (aggro : AggroComp) (w : World F)
      → IsFacing aggro w
      → inhibit_or_attack fl e w ≡ inhibit e threat aggro w
  unfolding inhibit_or_attack
  facing_inhibits aggro w f =
      simp (inhibit_or_attack, f.aggro_is, f.threat_is, f.threat_valid, f.reason)

  abbrev waiting_for : ℕ → AggroComp → AggroComp
  waiting_for k aggro = record aggro { is_inhibited = true; inhibit_wait_ticks = k }

  -- One more tick of waiting.
  waits :
      (k : ℕ) (aggro : AggroComp) (w : World F)
      → k < 100
      → IsFacing (waiting_for k aggro) w
      → ((tick_aggro w).0 ≡ running)
        × IsFacing (waiting_for (k + 1) aggro) (tick_aggro w).1
        × ((tick_aggro w).1.calls ≡ w.calls)
  unfolding inhibit begin_inhibition
  waits k aggro w lt f = ground (arith, facing_inhibits (waiting_for k aggro) w f, f.aggro_is)

  abbrev request : AggroComp → Call F
  request aggro = threat_detected npc_id target_npc_id aggro.aggro_score

  -- The first tick asks the planner.
  asks :
      (aggro : AggroComp) (w : World F)
      → aggro.is_inhibited ≡ false
      → IsFacing aggro w
      → ((tick_aggro w).0 ≡ running)
        × IsFacing (waiting_for 1 aggro) (tick_aggro w).1
        × ((tick_aggro w).1.calls ≡ w.calls ++ (request aggro ∷ []))
  unfolding inhibit begin_inhibition
  asks aggro w free f =
      ground (arith, facing_inhibits aggro w f, f.aggro_is, f.agent_id, f.threat_id)

  gives_up :
      (aggro : AggroComp) (w : World F)
      → IsFacing (waiting_for 100 aggro) w
      → ((tick_aggro w).0 ≡ failure)
        × (((tick_aggro w).1.rows e).aggro
            ≡ some
                (record aggro { aggro_score = 0; is_inhibited = false; inhibit_wait_ticks = 101 }))
        × ((tick_aggro w).1.calls ≡ w.calls)
  unfolding inhibit begin_inhibition
  gives_up aggro w f = ground (arith, facing_inhibits (waiting_for 100 aggro) w f, f.aggro_is)

  -- Ticks without a reply.
  pub ticks : ℕ → World F → World F
  ticks zero w = w
  ticks (suc n) w = ticks n (tick_aggro w).1

  ticks-suc : (n : ℕ) (w : World F) → ticks (suc n) w ≡ ticks n (tick_aggro w).1
  unfolding ticks
  ticks-suc n w = refl

  waits_long :
      (n k : ℕ) (aggro : AggroComp) (w : World F)
      → n + k ≤ 100
      → IsFacing (waiting_for k aggro) w
      → IsFacing (waiting_for (n + k) aggro) (ticks n w) × ((ticks n w).calls ≡ w.calls)
  unfolding ticks
  waits_long zero k aggro w le f =
      (subst (λ m. IsFacing (waiting_for m aggro) w) (omega arith) f, refl)
  waits_long (suc n) k aggro w le f =
      let (r, f', calls) = waits k aggro w (omega arith) f in
      let (f'', calls') = waits_long n (k + 1) aggro (tick_aggro w).1 (omega arith) f' in
      (
        subst (λ m. IsFacing (waiting_for m aggro) (ticks n (tick_aggro w).1)) (omega arith) f'',
        calls' ∙ calls,
      )

  -- Without a reply, an agent with reason that faces a threat asks the planner once and still
  -- holds back after 100 ticks; the next tick fails, and leaves it calm and no longer inhibited.
  pub inhibition_times_out :
      (aggro : AggroComp) (w : World F)
      → aggro.is_inhibited ≡ false
      → IsFacing aggro w
      → let held = ticks 100 w in
        ((held.rows e).aggro
          ≡ some (record aggro { is_inhibited = true; inhibit_wait_ticks = 100 }))
        × (held.calls ≡ w.calls ++ (threat_detected npc_id target_npc_id aggro.aggro_score ∷ []))
        × ((tick_aggro held).0 ≡ failure)
        × (((tick_aggro held).1.rows e).aggro
            ≡ some
                (record aggro { aggro_score = 0; is_inhibited = false; inhibit_wait_ticks = 101 }))
        × ((tick_aggro held).1.calls ≡ held.calls)
  inhibition_times_out aggro w free f =
      let (r, first, asked) = asks aggro w free f in
      let (last, quiet) = waits_long 99 1 aggro (tick_aggro w).1 (omega arith) first in
      let same : ticks 99 (tick_aggro w).1 ≡ ticks 100 w = sym (ticks-suc 99 w) in
      let held = subst (λ v. IsFacing (waiting_for 100 aggro) v) same last in
      let (fails, calms, silent) = gives_up aggro (ticks 100 w) held in
      (held.aggro_is, ap (λ v. v.calls) (sym same) ∙ quiet ∙ asked, fails, calms, silent)

  -- A tick whose request fails at once.
  pub failed_rounds : ℕ → World F → World F
  failed_rounds zero w = w
  failed_rounds (suc n) w =
      failed_rounds n (answer_threat fl false 0 e target_npc_id (tick_aggro w).1)

  -- One such round: the request was sent, and the agent is ready to send it again.
  failed_round :
      (aggro : AggroComp) (w : World F)
      → aggro.is_inhibited ≡ false
      → IsFacing aggro w
      → IsFacing (record aggro { inhibit_wait_ticks = 1 }) (failed_rounds 1 w)
        × ((tick_aggro w).0 ≡ running)
        × ((failed_rounds 1 w).calls ≡ w.calls ++ (request aggro ∷ []))
  unfolding failed_rounds answer_threat
  failed_round aggro w free f =
      let (r, first, asked) = asks aggro w free f in ground (arith, first.aggro_is)

  -- While every request fails before the next tick, the agent never comes to its time-out: however
  -- many ticks pass, each of them has sent one more request, the next one is running too, and the
  -- agent's score is what it was.
  pub failures_never_time_out :
      (n : ℕ) (aggro : AggroComp) (w : World F)
      → aggro.is_inhibited ≡ false
      → IsFacing aggro w
      → ((failed_rounds n w).calls ≡ w.calls ++ replicate n (request aggro))
        × ((tick_aggro (failed_rounds n w)).0 ≡ running)
        × (k : ℕ) × (((failed_rounds n w).rows e).aggro
            ≡ some (record aggro { inhibit_wait_ticks = k }))
  unfolding failed_rounds
  failures_never_time_out zero aggro w free f =
      (sym (append-nil w.calls), (asks aggro w free f).0, aggro.inhibit_wait_ticks, f.aggro_is)
  failures_never_time_out (suc n) aggro w free f =
      let (f', runs, asked) = failed_round aggro w free f in
      let (calls, again, k, still) =
        failures_never_time_out n (record aggro { inhibit_wait_ticks = 1 }) (failed_rounds 1 w) free
          f' in
      (
        calls
            ∙ ap (λ cs. cs ++ replicate n (request aggro)) asked
            ∙ append_assoc w.calls (request aggro ∷ []) (replicate n (request aggro)),
        again,
        k,
        still,
      )
