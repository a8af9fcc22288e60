-- ===== src/Agents/Planning/Budget.antt =====
-- The budget of a tick.
use mathlib.Core.Path.{subst}
use mundus_vivens_game_serve.Common.{
  ℕ, zero, suc, ◌+◌, ◌≤◌, ◌≡◌, refl, inl, inr, List, [], ◌∷◌, leb, arith, Bool-cases,
}
use mundus_vivens_game_serve.Common.Float.{Float}
use mundus_vivens_game_serve.Grid.Find.{GridVector2}
use mundus_vivens_game_serve.Agents.Planning.{
  Navigator, Mover, is_moving, is_empty, look_up_target, fresh_path, plan_moving, plan_one,
  plan_all, system_pathfinding,
}

module _ (fl : Float) (nav : Navigator fl.F) where
  open fl use {F}
  open nav use {State, find_path}

  -- So many searches lead from one state to the other.
  pub data Searches : ℕ → State → State → Type 0 where
    no_search : {s : State} → Searches zero s s
    one_more :
        {n : ℕ} {s t : State} (x z x' z' : F)
        → Searches n (find_path x z x' z' s).1 t
        → Searches (suc n) s t

  module _ (spread : ℕ → GridVector2 F → GridVector2 F) (npc_speed : F) where
    -- What one agent may do to the count of searches and the state.
    pub record IsPlanned (count : ℕ) (st : State) (count' : ℕ) (st' : State) : Type 0 where
      pub made : ℕ
      pub counted : count' ≡ count + made
      pub allowed : count' ≤ 8
      pub before_rest : (n k : ℕ) (t : State) → k ≡ made + n → Searches n st' t → Searches k st t

    nothing-IsPlanned : (count : ℕ) (st : State) → count ≤ 8 → IsPlanned count st count st
    nothing-IsPlanned count st h = record {
      made = 0;
      counted = omega arith;
      allowed = h;
      before_rest =
          λ n k t e s. let same : n ≡ k = omega arith in subst (λ j. Searches j st t) same s;
    }

    plan_one-IsPlanned :
        (m : Mover F) (count : ℕ) (st : State)
        → count ≤ 8
        → (let (m', count', st') = plan_one fl nav spread npc_speed m count st in
            IsPlanned count st count' st')
    unfolding plan_one plan_moving
    plan_one-IsPlanned m0 count st h = elim (Bool-cases (is_moving m0.toil.state)) [
      | inr still ↦ rw still (nothing-IsPlanned count st h)
      | inl moves ↦
          let m = look_up_target fl nav spread npc_speed m0 in
          let at = m.location in
          let path = fresh_path fl nav spread npc_speed m in
          elim (Bool-cases (nav.is_path_blocked at.x at.z m.job.target_x m.job.target_z)) [
            | inr clear ↦ rw (moves, clear) (nothing-IsPlanned count st h)
            | inl blocked ↦ elim (Bool-cases (is_empty path.waypoints)) [
              | inr kept ↦ rw (moves, blocked, kept) (nothing-IsPlanned count st h)
              | inl none_left ↦ elim (Bool-cases (leb 8 count)) [
                | inl spent ↦ rw (moves, blocked, none_left, spent) (nothing-IsPlanned count st h)
                | inr room ↦
                    rw (moves, blocked, none_left, room)
                      (record {
                        made = 1;
                        counted = refl;
                        allowed = ground arith;
                        before_rest = λ n k t e s.
                            let next : suc n ≡ k = omega arith in
                            subst (λ j. Searches j st t) next
                              (one_more at.x at.z m.job.target_x m.job.target_z s);
                      })
              ]
            ]
          ]
    ]

    plan_all-Searches :
        (ms : List (Mover F)) (count : ℕ) (st : State)
        → count ≤ 8
        → (n : ℕ) × (n + count ≤ 8) × Searches n st (plan_all fl nav spread npc_speed ms count st).1
    unfolding plan_all
    plan_all-Searches [] count st h = (0, omega arith, no_search)
    plan_all-Searches (m ∷ ms) count st h =
        let planned = plan_one-IsPlanned m count st h in
        let (m', count', st') = plan_one fl nav spread npc_speed m count st in
        let (n, few, rest) = plan_all-Searches ms count' st' planned.allowed in
        (
          planned.made + n,
          omega (arith, planned.counted),
          planned.before_rest n (planned.made + n) _ refl rest,
        )

    -- However many agents are on the move, one run of SystemPathfinding makes at most eight
    -- searches, one after the other.
    pub system_pathfinding-Searches :
        (ms : List (Mover F)) (st : State)
        → (n : ℕ) × (n ≤ 8) × Searches n st (system_pathfinding fl nav spread npc_speed ms st).1
    unfolding system_pathfinding
    system_pathfinding-Searches ms st =
        let (n, few, searches) = plan_all-Searches ms 0 st (omega arith) in
        (n, omega arith, searches)
