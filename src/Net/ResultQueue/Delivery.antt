-- ===== src/Net/ResultQueue/Delivery.antt =====
-- How often the pushed tasks are run, and in which order.
use mundus_vivens_game_serve.Common.{
  ◌≡◌, refl, ◌∙◌, sym, ap, List, [], ◌∷◌, ◌++◌, append_assoc, append-nil, Option, none, some,
}
use mundus_vivens_game_serve.Net.ResultQueue.{
  Task, empty_queue, push, swap_buffers, clear_read_buffer, run_task, run_tasks, drain, State, Run,
  starts, pushes, swaps, dispatches, clears,
}

abbrev pub still_to_run : {W : Type 0} → Option (List (Task W)) → List (Task W)
still_to_run none = []
still_to_run (some rest) = rest

-- The game's state is the start's with a first part of the pushed tasks run on it, in order; the
-- rest of them is waiting: first those of the drain in progress, then the write buffer.
pub record IsDelivered {W : Type 0} (w : W) (pushed : List (Task W)) (s : State W) : Type 0 where
  pub finished : List (Task W)
  pub none_lost : finished ++ still_to_run s.left ++ s.queue.write_buffer ≡ pushed
  pub world_is : s.world ≡ run_tasks finished w
  pub read_empty : s.left ≡ none → s.queue.read_buffer ≡ []

run_tasks-append :
    {W : Type 0} (xs ys : List (Task W)) (w : W)
    → run_tasks (xs ++ ys) w ≡ run_tasks ys (run_tasks xs w)
unfolding run_tasks
run_tasks-append [] ys w = refl
run_tasks-append (x ∷ xs) ys w = run_tasks-append xs ys (run_task x w)

-- At every moment of every run of the threads, each task pushed so far has been run exactly once
-- in its turn or waits for that: no push is lost to a swap, none is run twice, and none overtakes
-- an earlier one.
pub Run-IsDelivered :
    {W : Type 0} {w : W} {pushed : List (Task W)} {s : State W}
    → Run w pushed s
    → IsDelivered w pushed s
unfolding empty_queue push swap_buffers clear_read_buffer run_tasks
Run-IsDelivered starts = record {
  finished = [];
  none_lost = refl;
  world_is = refl;
  read_empty = λ e. refl;
}
Run-IsDelivered (pushes {s} task r) =
    let d = Run-IsDelivered r in
    record {
      finished = d.finished;
      none_lost =
          sym (append_assoc (d.finished ++ still_to_run s.left) s.queue.write_buffer (task ∷ []))
          ∙ ap (λ p. p ++ task ∷ []) d.none_lost;
      world_is = d.world_is;
      read_empty = d.read_empty;
    }
Run-IsDelivered (swaps {s} r idle) =
    let d = Run-IsDelivered r in
    record {
      finished = d.finished;
      none_lost = rw (d.read_empty idle) (
          append-nil (d.finished ++ s.queue.write_buffer)
          ∙ ap (λ p. p ++ s.queue.write_buffer) (sym (append-nil d.finished))
          ∙ ap (λ o. d.finished ++ still_to_run o ++ s.queue.write_buffer) (sym idle)
          ∙ d.none_lost);
      world_is = d.world_is;
      read_empty = λ e. cc;
    }
Run-IsDelivered {w} (dispatches {s} task rest r busy) =
    let d = Run-IsDelivered r in
    record {
      finished = d.finished ++ task ∷ [];
      none_lost =
          ap (λ p. p ++ s.queue.write_buffer) (append_assoc d.finished (task ∷ []) rest)
          ∙ ap (λ o. d.finished ++ still_to_run o ++ s.queue.write_buffer) (sym busy)
          ∙ d.none_lost;
      world_is = ap (run_task task) d.world_is ∙ sym (run_tasks-append d.finished (task ∷ []) w);
      read_empty = λ e. cc;
    }
Run-IsDelivered (clears {s} r done) =
    let d = Run-IsDelivered r in
    record {
      finished = d.finished;
      none_lost =
          ap (λ o. d.finished ++ still_to_run o ++ s.queue.write_buffer) (sym done) ∙ d.none_lost;
      world_is = d.world_is;
      read_empty = λ e. refl;
    }

-- A whole `Drain` that starts from any such moment between two drains, and that no push
-- interrupts, leaves every task pushed so far run exactly once and in order, and the queue empty.
pub drain_runs_all :
    {W : Type 0} {w : W} {pushed : List (Task W)} {s : State W}
    → Run w pushed s
    → s.left ≡ none
    → ((drain s.queue s.world).1 ≡ run_tasks pushed w) × ((drain s.queue s.world).0 ≡ empty_queue)
unfolding drain empty_queue
drain_runs_all {w} {s} r idle =
    let d = Run-IsDelivered r in
    (
      ap (run_tasks s.queue.write_buffer) d.world_is
          ∙ sym (run_tasks-append d.finished s.queue.write_buffer w)
          ∙ ap (λ p. run_tasks (p ++ s.queue.write_buffer) w) (sym (append-nil d.finished))
          ∙ ap (λ o. run_tasks (d.finished ++ still_to_run o ++ s.queue.write_buffer) w) (sym idle)
          ∙ ap (λ p. run_tasks p w) d.none_lost,
      rw (d.read_empty idle),
    )
