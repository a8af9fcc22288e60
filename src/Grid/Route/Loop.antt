-- ===== src/Grid/Route/Loop.antt =====
-- The loop, under the invariant of its rounds.
use mundus_vivens_game_serve.Common.{
  ℕ, zero, suc, ◌+◌, ◌≤◌, ◌<◌, ◌≡◌, inl, inr, Bool, true, false, List, arith, Bool-cases,
}
use mundus_vivens_game_serve.Common.Float.{Float}
use mundus_vivens_game_serve.Grid.{Cell, Field, InField, index}
use mundus_vivens_game_serve.Grid.Route.{
  Node, Scores, Search, Best, Outcome, eq_cell, heuristic, try_moves, moves, pop_min, better,
  search,
}
use mundus_vivens_game_serve.Grid.Route.Laws.{FloatLaws, max_moves}
use mundus_vivens_game_serve.Grid.Route.Moves.{Popped-cases, moves-AllMoves}
use mundus_vivens_game_serve.Grid.Route.Round.{
  AllNodes, AllNodes-map, pop_min-PoppedAll, Queued, Inv, Expanding, Way, try_moves-Expanding,
}

pub eq_cell→≡ : (c d : Cell) → eq_cell c d ≡ true → c ≡ d
eq_cell→≡ (x, z) (x', z') h =
    let ex : x ≡ x' = ground arith in let ez : z ≡ z' = ground arith in λ i. (ex i, ez i)

module _ (fl : Float) (laws : FloatLaws fl) (grid : Field) (start : Cell)
    (inside : InField start) where
  open fl use {F, lt}
  open laws use {IsNumber}

  -- What the loop returns: a tile with a trail, which is the goal if it was found.
  pub record Arrives (goal : Cell) (o : Outcome F) : Type 0 where
    pub numbers : (i : ℕ) → IsNumber (o.scores.g_score i)
    pub trail : Way fl laws grid start inside o.scores o.best
    pub reached : o.found ≡ true → o.best ≡ goal

  stop_here :
      (bound : ℕ) (goal : Cell) (b : Best F) (s : Search F) (capped : Bool)
      → Inv fl laws grid start inside bound b.cell s
      → Arrives goal (record { found = false; hit_cap = capped; best = b.cell; scores = s.scores })
  stop_here bound goal b s capped v = record {
    numbers = v.numbers;
    trail = v.best_trail;
    reached = λ e. cc;
  }

  better-trail :
      (sc : Scores F) (goal c : Cell) (b : Best F)
      → Way fl laws grid start inside sc c
      → Way fl laws grid start inside sc b.cell
      → Way fl laws grid start inside sc (better fl goal c b).cell
  unfolding better
  better-trail sc goal c b here before = elim (Bool-cases (lt (heuristic fl c goal) b.h)) [
    | inl e ↦ rw e here
    | inr e ↦ rw e before
  ]

  expanded-Inv :
      (bound : ℕ) (goal : Cell) (curr : Node F) (b : Best F) (s : Search F) (rest : List (Node F))
      → bound < max_moves
      → Inv fl laws grid start inside bound b.cell s
      → Queued fl laws grid start inside bound s.scores curr
      → AllNodes (Queued fl laws grid start inside bound s.scores) rest
      → Inv fl laws grid start inside
          (suc bound)
          (better fl goal curr.cell b).cell
          (try_moves fl grid goal curr (moves fl) (record s { open_set = rest }))
  expanded-Inv bound goal curr b s rest few v q qs =
      let wider : (node : Node F)
          → Queued fl laws grid start inside bound s.scores node
          → Queued fl laws grid start inside (suc bound) s.scores node =
        λ node k. record {
          moves_made = k.moves_made;
          sum = k.sum;
          few = omega (arith, k.few);
          number = k.number;
          settled = k.settled;
          trail = k.trail;
        } in
      let start_of : Expanding fl laws grid start inside bound b.cell curr
          (record s { open_set = rest }) =
        record {
          inv = record {
            numbers = v.numbers;
            queue =
                AllNodes-map (Queued fl laws grid start inside bound s.scores)
                  (Queued fl laws grid start inside (suc bound) s.scores) rest wider qs;
            best_trail = v.best_trail;
          };
          current = q;
        } in
      let x =
        try_moves-Expanding fl laws grid start inside bound b.cell goal curr (moves fl)
          (record s { open_set = rest }) few (moves-AllMoves fl) start_of in
      record {
        numbers = x.inv.numbers;
        queue = x.inv.queue;
        best_trail = better-trail _ goal curr.cell b x.current.trail x.inv.best_trail;
      }

  pub search-Arrives :
      (left bound : ℕ) (goal : Cell) (b : Best F) (s : Search F)
      → bound + left ≤ max_moves
      → Inv fl laws grid start inside bound b.cell s
      → Arrives goal (search fl left grid goal b s)
  unfolding search
  search-Arrives zero bound goal b s h v = elim (Popped-cases (pop_min fl s.open_set)) [
    | inl e ↦ rw (e, search) (stop_here bound goal b s false v)
    | inr (curr, rest, e) ↦ rw (e, search) (stop_here bound goal b s true v)
  ]
  search-Arrives (suc left) bound goal b s h v = elim (Popped-cases (pop_min fl s.open_set)) [
    | inl e ↦ rw (e, search) (stop_here bound goal b s false v)
    | inr (curr, rest, e) ↦
        let popped = rw e at (
          pop_min-PoppedAll fl (Queued fl laws grid start inside bound s.scores) s.open_set
            v.queue) in
        elim (Bool-cases (eq_cell curr.cell goal)) [
          | inl found ↦
              rw (e, search, found)
                (record {
                  numbers = v.numbers;
                  trail = popped.0.trail;
                  reached = λ _. eq_cell→≡ curr.cell goal found;
                })
          | inr going ↦ elim (Bool-cases (lt (s.scores.g_score (index curr.cell)) curr.g)) [
            | inl stale ↦
                rw (e, search, going, stale)
                  (search-Arrives left bound goal b (record s { open_set = rest }) (omega arith)
                    (record { numbers = v.numbers; queue = popped.1; best_trail = v.best_trail }))
            | inr fresh ↦
                rw (e, search, going, fresh)
                  (search-Arrives left (suc bound) goal (better fl goal curr.cell b)
                    (try_moves fl grid goal curr (moves fl) (record s { open_set = rest }))
                    (omega arith)
                    (expanded-Inv bound goal curr b s rest (omega arith) v popped.0 popped.1))
          ]
        ]
  ]
