-- ===== src/Society/Perception/Danger.antt =====
-- Who can be a threat, and what a threat is worth, told apart from the code of SystemPerception.
use Prim.Native.String.{String}
use text.Mathlib.TextEquality.{eq_iff}
use mundus_vivens_game_serve.Common.{
  ℕ, ◌≤◌, ◌<◌, ◌≡◌, ◌≢◌, ◌⊎◌, refl, inl, inr, Bool, true, false, not, ◌&&◌, List, ◌==◌, arith,
  Option, none, some, Bool-cases, Option-cases,
}
use mundus_vivens_game_serve.Common.Dict.{nat_eq, lookup}
use mundus_vivens_game_serve.Common.Int.{ℤ, pos, negsuc, ltb_ℤ}
use mundus_vivens_game_serve.Agents.{HealthComp, CooldownComp, RelationshipEntry, same_text}
use mundus_vivens_game_serve.Agents.World.{World}
use mundus_vivens_game_serve.Agents.Furniture.{is_some}
use mundus_vivens_game_serve.Behavior.Combat.{is_dead}
use mundus_vivens_game_serve.Society.Perception.{
  may_threaten, gain_of, are_factions, human, or_human, grudge_gain, is_exempt,
}

-- The two factions of a rule, whichever side is which.
abbrev pub AreFactions : String → String → String → String → Type 0
AreFactions a b faction n_faction =
    ((faction ≡ a) × (n_faction ≡ b)) ⊎ ((faction ≡ b) × (n_faction ≡ a))

-- A liking of -50 or less.
abbrev pub IsHated : ℤ → Type 0
IsHated liking = (m : ℕ) × (liking ≡ negsuc m) × (49 ≤ m)

both_left : (b c : Bool) → (b && c) ≡ true → b ≡ true
both_left b c h = ground arith

both_right : (b c : Bool) → (b && c) ≡ true → c ≡ true
both_right b c h = ground arith

are_factions-AreFactions :
    (a b faction n_faction : String)
    → are_factions a b faction n_faction ≡ true
    → AreFactions a b faction n_faction
are_factions-AreFactions a b faction n_faction h =
    elim (Bool-cases (same_text faction a && same_text n_faction b)) [
      | inl one ↦
          inl
            ((eq_iff faction a).0 (both_left _ _ one), (eq_iff n_faction b).0 (both_right _ _ one))
      | inr not_one ↦
          let two : (same_text faction b && same_text n_faction a) ≡ true = ground arith in
          inr
            ((eq_iff faction b).0 (both_left _ _ two), (eq_iff n_faction a).0 (both_right _ _ two))
    ]

ltb_ℤ-IsHated : (liking : ℤ) → ltb_ℤ liking (negsuc 48) ≡ true → IsHated liking
ltb_ℤ-IsHated (pos m) h = absurd (ground arith)
ltb_ℤ-IsHated (negsuc m) h = (m, refl, ground arith)

living_one :
    {F : Type 0}
    → (o : Option (HealthComp F)) → is_some o ≡ true
    → is_dead o ≡ false
    → (h : HealthComp F) × (o ≡ some h) × (h.is_dead ≡ false)
living_one none h k = cc
living_one (some health) h k = (health, refl, k)

free_of :
    (o : Option CooldownComp) (id tick : ℕ)
    → ((cd : CooldownComp) (until : ℕ)
        → o ≡ some cd
        → lookup id cd.cooldown_per_target ≡ some until
        → until ≤ tick)
    → is_exempt o id tick ≡ false
free_of none id tick h = refl
free_of (some cd) id tick h = elim (Option-cases (lookup id cd.cooldown_per_target)) [
  | inl free ↦ rw (is_exempt, free) refl
  | inr (until, found) ↦ rw (is_exempt, found) (ground (arith, h cd until refl found))
]

module _ {F : Type 0} (e : ℕ) (w : World F) where
  -- Another valid, living entity from which the entity is not exempt at this tick.
  pub record IsThreat (n : ℕ) : Type 0 where
    pub other : n ≢ e
    pub valid : (w.rows n).is_valid ≡ true
    pub living : (h : HealthComp F) × ((w.rows n).health ≡ some h) × (h.is_dead ≡ false)
    pub not_exempt :
        (cd : CooldownComp) (until : ℕ)
        → (w.rows e).cooldown ≡ some cd
        → lookup (w.rows n).identity.npc_id cd.cooldown_per_target ≡ some until
        → until ≤ w.tick

  -- Why the neighbour raises the aggro, and by how much a tick. One without a faction counts as
  -- human.
  pub data Worth (faction : String) (n : ℕ) : ℕ → Type 0 where
    wolf_and_human :
        AreFactions "Wolf" "Human" faction (or_human (w.rows n).faction) → Worth faction n 100
    goblin_and_human :
        AreFactions "Goblin" "Human" faction (or_human (w.rows n).faction) → Worth faction n 100
    bandit_and_human :
        AreFactions "Bandit" "Human" faction (or_human (w.rows n).faction) → Worth faction n 25
    grudge :
        (rels : List (ℕ × RelationshipEntry)) (entry : RelationshipEntry)
        → faction ≡ or_human (w.rows n).faction
        → (w.rows e).relationships ≡ some rels
        → lookup (w.rows n).identity.npc_id rels ≡ some entry
        → IsHated entry.liking
        → Worth faction n 5

  pub threatens-IsThreat : (n : ℕ) → may_threaten e n w ≡ true → IsThreat n
  unfolding may_threaten
  threatens-IsThreat n h = record {
    other = ground arith;
    valid = ground arith;
    living = living_one ((w.rows n).health) (ground arith) (ground arith);
    not_exempt = λ cd until has found. ground arith;
  }

  pub IsThreat-threatens : (n : ℕ) → IsThreat n → may_threaten e n w ≡ true
  unfolding may_threaten
  IsThreat-threatens n v =
      let (h, at, alive) = v.living in
      let free = free_of ((w.rows e).cooldown) (w.rows n).identity.npc_id w.tick v.not_exempt in
      let apart : not (n == e) ≡ true = ground (arith, v.other) in
      rw (may_threaten, apart, v.valid, at, alive, free)

  pub Worth-gain_of : (faction : String) (n k : ℕ) → Worth faction n k → gain_of faction e n w ≡ k
  unfolding gain_of
  Worth-gain_of faction n k (wolf_and_human (inl (f, g))) = rw (gain_of, f, g)
  Worth-gain_of faction n k (wolf_and_human (inr (f, g))) = rw (gain_of, f, g)
  Worth-gain_of faction n k (goblin_and_human (inl (f, g))) = rw (gain_of, f, g)
  Worth-gain_of faction n k (goblin_and_human (inr (f, g))) = rw (gain_of, f, g)
  Worth-gain_of faction n k (bandit_and_human (inl (f, g))) = rw (gain_of, f, g)
  Worth-gain_of faction n k (bandit_and_human (inr (f, g))) = rw (gain_of, f, g)
  Worth-gain_of faction n k (grudge rels entry own has found (m, liking, low)) =
      let same : same_text faction (or_human (w.rows n).faction) ≡ true =
        (eq_iff faction (or_human (w.rows n).faction)).1 own in
      let hated : ltb_ℤ entry.liking (negsuc 48) ≡ true = rw liking (ground arith) in
      rw (gain_of, same, has, grudge_gain, found, hated)

  grudge-Worth :
      (faction : String) (n : ℕ) (o : Option (List (ℕ × RelationshipEntry)))
      → faction ≡ or_human (w.rows n).faction
      → (w.rows e).relationships ≡ o
      → 0 < grudge_gain o (w.rows n).identity.npc_id
      → Worth faction n (grudge_gain o (w.rows n).identity.npc_id)
  grudge-Worth faction n none own has = λ v. absurd (omega (arith, v))
  grudge-Worth faction n (some rels) own has =
      elim (Option-cases (lookup (w.rows n).identity.npc_id rels)) [
        | inl strange ↦ rw (grudge_gain, strange) (λ v. absurd (omega (arith, v)))
        | inr (entry, found) ↦ elim (Bool-cases (ltb_ℤ entry.liking (negsuc 48))) [
          | inr mild ↦ rw (grudge_gain, found, mild) (λ v. absurd (omega (arith, v)))
          | inl hated ↦
              rw (grudge_gain, found, hated)
                (λ v. grudge rels entry own has found (ltb_ℤ-IsHated entry.liking hated))
        ]
      ]

  pub gain_of-Worth :
      (faction : String) (n : ℕ)
      → 0 < gain_of faction e n w
      → Worth faction n (gain_of faction e n w)
  unfolding gain_of
  gain_of-Worth faction n =
      let g = or_human (w.rows n).faction in
      elim (Bool-cases (same_text faction g)) [
        | inl same ↦ rw (gain_of, same) (grudge-Worth faction n _ ((eq_iff faction g).0 same) refl)
        | inr other ↦ elim (Bool-cases (are_factions "Wolf" human faction g)) [
          | inl wolf ↦
              rw (gain_of, other, wolf)
                (λ v. wolf_and_human (are_factions-AreFactions "Wolf" human faction g wolf))
          | inr no_wolf ↦ elim (Bool-cases (are_factions "Goblin" human faction g)) [
            | inl goblin ↦
                rw (gain_of, other, no_wolf, goblin)
                  (λ v. goblin_and_human (are_factions-AreFactions "Goblin" human faction g goblin))
            | inr no_goblin ↦ elim (Bool-cases (are_factions "Bandit" human faction g)) [
              | inl bandit ↦
                  rw (gain_of, other, no_wolf, no_goblin, bandit)
                    (λ v.
                      bandit_and_human (are_factions-AreFactions "Bandit" human faction g bandit))
              | inr no_bandit ↦
                  rw (gain_of, other, no_wolf, no_goblin, no_bandit)
                    (λ v. absurd (omega (arith, v)))
            ]
          ]
        ]
      ]
