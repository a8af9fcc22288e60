-- ===== src/Agents/Movement/Arrival.antt =====
-- The outcome of one call: going on, or arriving.
use mundus_vivens_game_serve.Common.{
  suc, List, [], ◌∷◌, ◌≤◌, ◌≡◌, refl, ap, ◌∙◌, ◌⊎◌, inl, inr, Bool, true, false, length, get_or,
  leb, arith, Bool-cases,
}
use mundus_vivens_game_serve.Common.Float.{Float}
use mundus_vivens_game_serve.Grid.Find.{GridVector2}
use mundus_vivens_game_serve.Places.{LocationRegistry}
use mundus_vivens_game_serve.Places.Position.Arrival.{update_entity_position-at}
use mundus_vivens_game_serve.Agents.{working}
use mundus_vivens_game_serve.Agents.Planning.{is_moving, is_empty}
use mundus_vivens_game_serve.Agents.Movement.{
  Traveller, or_same, distance, put, arrive, advance, seek, end_path, follow, move_one, at_rest,
  no_waypoint,
}

module _ (fl : Float) (is_path_blocked : fl.F → fl.F → fl.F → fl.F → Bool) where
  open fl use {F, lt, dec}

  abbrev to_go : Traveller F → F
  to_go t = distance fl is_path_blocked t.location.x t.location.z t.job.target_x t.job.target_z

  abbrev InRange : Traveller F → Type 0
  InRange t = t.path.current_waypoint_index ≤ length t.path.waypoints

  -- The two reasons to arrive: the target is near, or a path that is not partial is used up.
  abbrev pub MayArrive : Traveller F → Type 0
  MayArrive t =
      (lt (to_go t) (dec 1 0) ≡ true)
      ⊎ (lt (to_go t) (dec 8 1) ≡ true)
      ⊎ (t.path.is_partial ≡ false) × (length t.path.waypoints ≤ t.path.current_waypoint_index)

  pub data Outcome (t : Traveller F) (t' : Traveller F) : Type 0 where
    heads_on :
        t'.toil ≡ t.toil
        → t'.job ≡ t.job
        → length t.path.waypoints ≡ 0
        → t'.path ≡ t.path
        → Outcome t t'
    follows :
        t'.toil ≡ t.toil
        → t'.job ≡ t.job
        → t'.path.waypoints ≡ t.path.waypoints
        → t.path.current_waypoint_index ≤ t'.path.current_waypoint_index
        → t'.path.current_waypoint_index ≤ suc t.path.current_waypoint_index
        → InRange t'
        → Outcome t t'
    drops_path :
        t'.toil ≡ t.toil
        → t'.job ≡ t.job
        → t.path.is_partial ≡ true
        → length t.path.waypoints ≤ t.path.current_waypoint_index
        → lt (to_go t) (dec 1 0) ≡ false
        → length t'.path.waypoints ≡ 0
        → t'.path.current_waypoint_index ≡ 0
        → Outcome t t'
    arrives :
        MayArrive t
        → t'.toil.state ≡ working
        → t'.toil.duration_ticks ≡ 3
        → t'.velocity ≡ at_rest fl is_path_blocked
        → t'.path.current_waypoint_index ≡ 0
        → (t'.location.x ≡ t.job.target_x) × (t'.location.z ≡ t.job.target_z)
        → Outcome t t'

  put-at :
      (x z : F) (t : Traveller F) (places : LocationRegistry F)
      → ((put fl is_path_blocked x z t places).0.location.x ≡ x)
        × ((put fl is_path_blocked x z t places).0.location.z ≡ z)
  unfolding put
  put-at x z t places =
      let (c, eq, at_x, at_z) =
        update_entity_position-at fl t.entity x z (record t.location { x = x; z = z }) places in
      (
        ap (λ o. (or_same fl is_path_blocked (record t.location { x = x; z = z }) o).x) eq ∙ at_x,
        ap (λ o. (or_same fl is_path_blocked (record t.location { x = x; z = z }) o).z) eq ∙ at_z,
      )

  -- Where `arrive` leaves the agent.
  arrived_at :
      (t : Traveller F) (places : LocationRegistry F)
      → (let there =
            (put fl is_path_blocked t.job.target_x t.job.target_z
              (record t { location = record t.location { y = t.job.target_y } })
              places).0 in
          (there.location.x ≡ t.job.target_x) × (there.location.z ≡ t.job.target_z))
  arrived_at t places = put-at t.job.target_x t.job.target_z _ places

  empty-length : (ps : List (GridVector2 F)) → is_empty ps ≡ true → length ps ≡ 0
  empty-length [] h = refl
  empty-length (p ∷ ps) h = absurd (ground arith)

  seek-Outcome :
      (t : Traveller F) (places : LocationRegistry F)
      → length t.path.waypoints ≡ 0
      → Outcome t (seek fl is_path_blocked t places).0
  unfolding seek arrive advance put
  seek-Outcome t places h = elim (Bool-cases (lt (to_go t) (dec 8 1))) [
    | inl near ↦ rw near (arrives (inr (inl near)) refl refl refl refl (arrived_at t places))
    | inr far ↦ rw far (heads_on refl refl h refl)
  ]

  end_path-Outcome :
      (t : Traveller F) (places : LocationRegistry F)
      → length t.path.waypoints ≤ t.path.current_waypoint_index
      → Outcome t (end_path fl is_path_blocked t places).0
  unfolding end_path arrive put
  end_path-Outcome t places used = elim (Bool-cases (lt (to_go t) (dec 1 0))) [
    | inl near ↦ rw near (arrives (inl near) refl refl refl refl (arrived_at t places))
    | inr far ↦ elim (Bool-cases t.path.is_partial) [
      | inl part ↦ simp (far, part) (drops_path refl refl part used far refl refl)
      | inr whole ↦
          simp (far, whole)
            (arrives (inr (inr (whole, used))) refl refl refl refl (arrived_at t places))
    ]
  ]

  follow-Outcome :
      (target : GridVector2 F) (t : Traveller F) (places : LocationRegistry F)
      → suc t.path.current_waypoint_index ≤ length t.path.waypoints
      → Outcome t (follow fl is_path_blocked target t places).0
  unfolding follow advance put
  follow-Outcome target t places more =
      let dist = distance fl is_path_blocked t.location.x t.location.z target.x target.z in
      elim (Bool-cases (lt dist (dec 1 1))) [
        | inl there ↦ rw there (follows refl refl refl (omega arith) (omega arith) (omega arith))
        | inr ahead ↦ elim (Bool-cases (fl.le dist (fl.mul t.velocity.speed (dec 5 2)))) [
          | inl within ↦
              rw (ahead, within) (follows refl refl refl (omega arith) (omega arith) (omega arith))
          | inr beyond ↦
              rw (ahead, beyond) (follows refl refl refl (omega arith) (omega arith) (omega arith))
        ]
      ]

  -- One call of SystemMovement on an agent on the move, whatever its index of waypoints. It
  -- arrives only if the target is near or a path that is not partial is used up: it is then at the
  -- target, at work for three ticks, at rest, with its index at 0. Otherwise it stays on the move
  -- with its job: without waypoints its path is unchanged; with some left the index stays or grows
  -- by one and is in range; and a partial path that is used up short of the target is dropped.
  pub move_one-Outcome :
      (t : Traveller F) (places : LocationRegistry F)
      → is_moving t.toil.state ≡ true
      → Outcome t (move_one fl is_path_blocked t places).0
  unfolding move_one
  move_one-Outcome t places moves = elim (Bool-cases (is_empty t.path.waypoints)) [
    | inl none_left ↦
        rw (moves, none_left) (seek-Outcome t places (empty-length t.path.waypoints none_left))
    | inr some_left ↦
        elim (Bool-cases (leb (length t.path.waypoints) t.path.current_waypoint_index)) [
          | inl used ↦ rw (moves, some_left, used) (end_path-Outcome t places (ground arith))
          | inr more ↦
              rw (moves, some_left, more)
                (follow-Outcome
                  (get_or t.path.waypoints t.path.current_waypoint_index
                    (no_waypoint fl is_path_blocked))
                  t places (ground arith))
        ]
  ]
