-- ===== src/Behavior/Flee/Destination.antt =====
-- Where ActionFlee sends the agent.
use mundus_vivens_game_serve.Common.{
  ℕ, ◌≡◌, ◌⊎◌, refl, inl, inr, true, false, List, [], ◌∷◌, arith, Bool-cases, Option-cases,
}
use mundus_vivens_game_serve.Common.Dict.{beq_refl, nat_eq}
use mundus_vivens_game_serve.Common.Float.{Float}
use mundus_vivens_game_serve.Grid.{Field}
use mundus_vivens_game_serve.Agents.{LocationComp, moving}
use mundus_vivens_game_serve.Agents.Tree.{failure, running}
use mundus_vivens_game_serve.Agents.World.{World, Row, is_present}
use mundus_vivens_game_serve.Behavior.Combat.{target_of}
use mundus_vivens_game_serve.Behavior.Flee.{
  clamp_inside, is_open, turn_aside, flee_destination, flee, direction_from, needs_direction, ahead,
  angles, rotate,
}

-- The order of the two bounds, and of each to itself.
pub record Bounded (fl : Float) : Type 0 where
  pub low_low : fl.lt (fl.dec 5 0) (fl.dec 5 0) ≡ false
  pub high_high : fl.lt (fl.dec 1995 0) (fl.dec 1995 0) ≡ false
  pub high_low : fl.lt (fl.dec 1995 0) (fl.dec 5 0) ≡ false

module _ (fl : Float) (laws : Bounded fl) where
  open fl use {F, lt, dec}

  -- Within 5 and 1995.
  abbrev pub IsInside : F → Type 0
  IsInside v = (lt v (dec 5 0) ≡ false) × (lt (dec 1995 0) v ≡ false)

  clamp_inside-IsInside : (v : F) → IsInside (clamp_inside fl v)
  clamp_inside-IsInside v = ground (arith, laws.low_low, laws.high_high, laws.high_low)

module _ (fl : Float) (grid : Field) (cos sin : fl.F → fl.F) (laws : Bounded fl) where
  open fl use {F, lt, dec}

  -- An open tile within the bounds, or the agent's own position brought within them.
  abbrev pub IsRefuge : LocationComp F → F × F → Type 0
  IsRefuge loc (x, z) =
      IsInside fl laws x
      × IsInside fl laws z
      × ((is_open fl grid (x, z) ≡ true)
          ⊎ (x ≡ clamp_inside fl loc.x) × (z ≡ clamp_inside fl loc.z))

  ahead-IsInside :
      (loc : LocationComp F) (dir : F × F)
      → IsInside fl laws (ahead fl grid cos sin loc dir).0
        × IsInside fl laws (ahead fl grid cos sin loc dir).1
  ahead-IsInside loc (x, z) = (clamp_inside-IsInside fl laws _, clamp_inside-IsInside fl laws _)

  open-IsRefuge :
      (loc : LocationComp F) (dir : F × F)
      → is_open fl grid (ahead fl grid cos sin loc dir) ≡ true
      → IsRefuge loc (ahead fl grid cos sin loc dir)
  open-IsRefuge loc (x, z) h =
      (clamp_inside-IsInside fl laws _, clamp_inside-IsInside fl laws _, inl h)

  turn_aside-IsRefuge :
      (loc : LocationComp F) (dir : F × F) (turns : List F)
      → IsRefuge loc (turn_aside fl grid cos sin loc dir turns)
  unfolding turn_aside
  turn_aside-IsRefuge loc dir [] =
      (clamp_inside-IsInside fl laws loc.x, clamp_inside-IsInside fl laws loc.z, inr (refl, refl))
  turn_aside-IsRefuge loc dir (angle ∷ rest) =
      elim (Bool-cases
        (is_open fl grid (ahead fl grid cos sin loc (rotate fl grid cos sin angle dir)))) [
          | inl free ↦ rw free (open-IsRefuge loc (rotate fl grid cos sin angle dir) free)
          | inr shut ↦ rw shut (turn_aside-IsRefuge loc dir rest)
        ]

  flee_destination-IsRefuge :
      (loc : LocationComp F) (dir : F × F) → IsRefuge loc (flee_destination fl grid cos sin loc dir)
  unfolding flee_destination
  flee_destination-IsRefuge loc dir =
      elim (Bool-cases (is_open fl grid (ahead fl grid cos sin loc dir))) [
        | inl free ↦ rw free (open-IsRefuge loc dir free)
        | inr shut ↦ rw shut (turn_aside-IsRefuge loc dir (angles fl grid cos sin))
      ]

  abbrev target : Row F → F × F
  target r = (r.job.target_x, r.job.target_z)

  -- ActionFlee fails and changes nothing if the agent has no valid target, and then alone; with a
  -- valid target it is running, and either nothing changes, or the agent is on the move to a
  -- refuge, which is within 5 and 1995 in both coordinates, and a tile that can be walked on or
  -- the agent's own position brought within these bounds.
  pub flee-IsRefuge :
      (e : ℕ) (w : World F)
      → let (status, after) = flee fl grid cos sin e w in
        let is_valid = is_present (target_of (w.rows e).combat) w in
        ((is_valid ≡ false) × (status ≡ failure) × (after ≡ w))
        ⊎ ((is_valid ≡ true) × (status ≡ running) × (after ≡ w))
        ⊎ ((is_valid ≡ true)
            × (status ≡ running)
            × ((after.rows e).toil.state ≡ moving)
            × IsRefuge (w.rows e).location (target (after.rows e)))
  unfolding flee
  flee-IsRefuge e w = elim (Option-cases (target_of (w.rows e).combat)) [
    | inl nobody ↦ rw (flee, nobody) (inl (refl, refl, refl))
    | inr (t, has) ↦ elim (Bool-cases (w.rows t).is_valid) [
      | inr gone ↦ rw (flee, has, gone) (inl (refl, refl, refl))
      | inl valid ↦ elim (Bool-cases (needs_direction fl grid cos sin e w.tick (w.rows e))) [
        | inr settled ↦ rw (flee, has, valid, settled) (inr (inl (refl, refl, refl)))
        | inl turns ↦
            rw (flee, has, valid, turns, beq_refl e)
              (inr (
                inr (
                  refl,
                  refl,
                  refl,
                  flee_destination-IsRefuge (w.rows e).location
                      (direction_from fl grid cos sin (w.rows t).location (w.rows e).location w).0,
                )))
      ]
    ]
  ]
