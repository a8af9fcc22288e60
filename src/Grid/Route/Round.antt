-- ===== src/Grid/Route/Round.antt =====
-- The invariant of the search: every queued tile and the best one have a trail, and a queued cost
-- is a sum of at most as many moves as rounds were made.
use mundus_vivens_game_serve.Common.{
  ℕ, suc, ◌≤◌, ◌<◌, ◌≡◌, refl, ◌⊎◌, inl, inr, true, false, not, ◌&&◌, ◌||◌, Option, none, some,
  List, [], ◌∷◌, arith, Bool-cases, if◌then◌else◌,
}
use mundus_vivens_game_serve.Common.Float.{Float}
use mundus_vivens_game_serve.Common.Int.{pos, pos_part, ◌+ℤ◌}
use mundus_vivens_game_serve.Grid.{Cell, Field, InField, index, is_walkable}
use mundus_vivens_game_serve.Grid.Route.{
  Node, Scores, Move, Search, straight, diagonal, unreached, heuristic, relax, try_move, try_moves,
  pop_min, least_of,
}
use mundus_vivens_game_serve.Grid.Route.Laws.{
  IsSum, plus_straight, plus_diagonal, FloatLaws, max_moves,
}
use mundus_vivens_game_serve.Grid.Route.Trail.{
  at_n, Edge, Edge-InField, Trail, relaxed, relaxed-numbers, not_below-relaxed, Trail-relaxed,
  Trail-new,
}
use mundus_vivens_game_serve.Grid.Route.Moves.{IsKingMove, AllMoves, move-Edge}

abbrev pub AllNodes {ℓ} : {A : Type 0} → (A → Type ℓ) → List A → Type ℓ
AllNodes P [] = Unit
AllNodes P (n ∷ ns) = P n × AllNodes P ns

pub AllNodes-map {ℓ κ} :
    {A : Type 0} (P : A → Type ℓ) (Q : A → Type κ) (ns : List A)
    → ((n : A) → P n → Q n)
    → AllNodes P ns
    → AllNodes Q ns
AllNodes-map P Q [] f h = tt
AllNodes-map P Q (n ∷ ns) f h = (f n h.0, AllNodes-map P Q ns f h.1)

abbrev PoppedAll {ℓ} : {N : Type 0} → (N → Type ℓ) → Option (N × List N) → Type ℓ
PoppedAll P none = Unit
PoppedAll P (some (m, rest)) = P m × AllNodes P rest

least_of-PoppedAll {ℓ} :
    (fl : Float) (P : Node fl.F → Type ℓ) (n : Node fl.F) (ns : List (Node fl.F))
    (r : Option (Node fl.F × List (Node fl.F)))
    → P n
    → AllNodes P ns
    → PoppedAll P r
    → PoppedAll P (least_of fl n ns r)
unfolding least_of
least_of-PoppedAll fl P n ns none h hs hr = (h, tt)
least_of-PoppedAll fl P n ns (some (m, rest)) h hs hr = elim (Bool-cases (fl.lt m.f n.f)) [
  | inl e ↦ rw e (hr.0, (h, hr.1))
  | inr e ↦ rw e (h, hs)
]

pub pop_min-PoppedAll {ℓ} :
    (fl : Float) (P : Node fl.F → Type ℓ) (ns : List (Node fl.F))
    → AllNodes P ns
    → PoppedAll P (pop_min fl ns)
unfolding pop_min
pop_min-PoppedAll fl P [] h = tt
pop_min-PoppedAll fl P (n ∷ ns) h =
    least_of-PoppedAll fl P n ns (pop_min fl ns) h.0 h.1 (pop_min-PoppedAll fl P ns h.1)

module _ (fl : Float) (laws : FloatLaws fl) (grid : Field) (start : Cell)
    (inside : InField start) where
  open fl use {F, lt, add}
  open laws use {IsNumber, lt_irrefl, lt_trans, lt_of_not_lt}

  abbrev pub Way : Scores F → Cell → Type 0
  Way = Trail fl laws grid start inside

  pub record Queued (bound : ℕ) (sc : Scores F) (node : Node F) : Type 0 where
    pub moves_made : ℕ
    pub sum : IsSum fl moves_made node.g
    pub few : moves_made ≤ bound
    pub number : IsNumber node.g
    pub settled : lt node.g (sc.g_score (index node.cell)) ≡ false
    pub trail : Way sc node.cell

  pub record Inv (bound : ℕ) (best : Cell) (s : Search F) : Type 0 where
    pub numbers : (i : ℕ) → IsNumber (s.scores.g_score i)
    pub queue : AllNodes (Queued bound s.scores) s.open_set
    pub best_trail : Way s.scores best

  -- During a round: the node that is expanded has a cost of one move less.
  pub record Expanding (bound : ℕ) (best : Cell) (curr : Node F) (s : Search F) : Type 0 where
    pub inv : Inv (suc bound) best s
    pub current : Queued bound s.scores curr

  pub record Dearer (n : ℕ) (g tentative : F) : Type 0 where
    pub rises : lt g tentative ≡ true
    pub sum : IsSum fl (suc n) tentative
    pub number : IsNumber tentative

  dearer :
      (n : ℕ) (g cost : F)
      → (cost ≡ straight fl) ⊎ (cost ≡ diagonal fl)
      → IsSum fl n g
      → IsNumber g
      → n < max_moves
      → Dearer n g (add g cost)
  dearer n g cost (inl e) s k h = rw e (record {
    rises = laws.straight_grows n g s h;
    sum = plus_straight s;
    number = laws.add-IsNumber g 1 0 k;
  })
  dearer n g cost (inr e) s k h = rw e (record {
    rises = laws.diagonal_grows n g s h;
    sum = plus_diagonal s;
    number = laws.add-IsNumber g 141421356 8 k;
  })

  module _ (bound : ℕ) (best goal : Cell) (curr : Node F) (n : Cell) (tentative : F) (s : Search F)
      (edge : Edge grid curr.cell n) (x : Expanding bound best curr s)
      (more : Dearer x.current.moves_made curr.g tentative)
      (better : lt tentative (s.scores.g_score (index n)) ≡ true) where
    abbrev sc : Scores F
    sc = s.scores

    abbrev visited : List ℕ
    visited =
        if fl.le (unreached fl) (sc.g_score (index n))
        then index n ∷ sc.visited_nodes
        else sc.visited_nodes

    rises_here : lt (sc.g_score (index curr.cell)) tentative ≡ true
    rises_here =
        lt_of_not_lt _ _ _ (x.inv.numbers (index curr.cell)) x.current.number more.number
          x.current.settled more.rises

    abbrev after : Scores F
    after =
        relaxed fl laws grid start inside sc curr.cell n tentative visited x.inv.numbers more.number
          better

    keep_trail : {m : Cell} → Way sc m → Way after m
    keep_trail =
        Trail-relaxed fl laws grid start inside sc curr.cell n tentative visited x.inv.numbers
          more.number better edge rises_here x.current.trail

    keep_queued : (b : ℕ) (node : Node F) → Queued b sc node → Queued b after node
    keep_queued b node q = record {
      moves_made = q.moves_made;
      sum = q.sum;
      few = q.few;
      number = q.number;
      settled =
          not_below-relaxed fl laws grid start inside sc curr.cell n tentative visited x.inv.numbers
            more.number better (index node.cell) node.g q.number q.settled;
      trail = keep_trail q.trail;
    }

    pushed :
        Queued
          (suc bound)
          after
          (record { cell = n; g = tentative; f = add tentative (heuristic fl n goal) })
    pushed =
        let here =
          at_n fl laws grid start inside sc curr.cell n tentative visited x.inv.numbers more.number
            better (index n) refl in
        record {
          moves_made = suc x.current.moves_made;
          sum = more.sum;
          few = omega (arith, x.current.few);
          number = more.number;
          settled = rw here.0 (lt_irrefl tentative more.number);
          trail =
              Trail-new fl laws grid start inside sc curr.cell n tentative visited x.inv.numbers
                more.number better edge rises_here x.current.trail refl
                (Edge-InField grid curr.cell n edge);
        }

    recorded-Expanding : Expanding bound best curr (record {
      scores = after;
      open_set =
          record { cell = n; g = tentative; f = add tentative (heuristic fl n goal) } ∷ s.open_set;
    })
    recorded-Expanding = record {
      inv = record {
        numbers =
            relaxed-numbers fl laws grid start inside sc curr.cell n tentative visited x.inv.numbers
              more.number better;
        queue = (
          pushed,
          AllNodes-map (Queued (suc bound) sc) (Queued (suc bound) after) s.open_set
              (keep_queued (suc bound)) x.inv.queue,
        );
        best_trail = keep_trail x.inv.best_trail;
      };
      current = keep_queued bound curr x.current;
    }

  relax-Expanding :
      (bound : ℕ) (best goal : Cell) (curr : Node F) (n : Cell) (tentative : F) (s : Search F)
      (x : Expanding bound best curr s)
      → Edge grid curr.cell n
      → Dearer x.current.moves_made curr.g tentative
      → Expanding bound best curr (relax fl goal curr.cell tentative n s)
  unfolding relax
  relax-Expanding bound best goal curr n tentative s x edge more =
      elim (Bool-cases (lt tentative (s.scores.g_score (index n)))) [
        | inl e ↦ rw e (recorded-Expanding bound best goal curr n tentative s edge x more e)
        | inr e ↦ rw e x
      ]

  try_move-Expanding :
      (bound : ℕ) (best goal : Cell) (curr : Node F) (mv : Move F) (s : Search F)
      → bound < max_moves
      → IsKingMove fl mv
      → Expanding bound best curr s
      → Expanding bound best curr (try_move fl grid goal curr mv s)
  unfolding try_move
  try_move-Expanding bound best goal curr mv s few king x =
      let (cx, cz) = curr.cell in
      let nx = pos cx +ℤ mv.dx in
      let nz = pos cz +ℤ mv.dz in
      elim (Bool-cases (is_walkable grid nx nz)) [
        | inr e ↦ rw e x
        | inl e ↦
            elim (Bool-cases (
              mv.is_diagonal
              && (not (is_walkable grid nx (pos cz)) || not (is_walkable grid (pos cx) nz)))) [
                | inl cut ↦ rw (e, cut) x
                | inr clear ↦
                    rw (e, clear)
                      (relax-Expanding bound best goal curr (pos_part nx, pos_part nz)
                        (add curr.g mv.cost) s x (move-Edge fl grid cx cz mv king e clear)
                        (dearer x.current.moves_made curr.g mv.cost king.cost_is x.current.sum
                          x.current.number (omega (arith, x.current.few))))
              ]
      ]

  pub try_moves-Expanding :
      (bound : ℕ) (best goal : Cell) (curr : Node F) (mvs : List (Move F)) (s : Search F)
      → bound < max_moves
      → AllMoves fl mvs
      → Expanding bound best curr s
      → Expanding bound best curr (try_moves fl grid goal curr mvs s)
  unfolding try_moves
  try_moves-Expanding bound best goal curr [] s few all x = x
  try_moves-Expanding bound best goal curr (mv ∷ rest) s few all x =
      try_moves-Expanding bound best goal curr rest (try_move fl grid goal curr mv s) few all.1
        (try_move-Expanding bound best goal curr mv s few all.0 x)
