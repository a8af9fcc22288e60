-- ===== src/Net/ResultQueue/Tests.antt =====
-- A push, a swap, and another push before the first task runs.
use mundus_vivens_game_serve.Common.{ℕ, ◌+◌, ◌*◌, ◌≡◌, refl, some, none, [], ◌∷◌}
use mundus_vivens_game_serve.Net.ResultQueue.{
  Task, ResultQueue, Run, starts, pushes, swaps, push, swap_buffers, run_tasks, drain, empty_queue,
}
use mundus_vivens_game_serve.Net.ResultQueue.Delivery.{IsDelivered, Run-IsDelivered, drain_runs_all}

abbrev double : Task ℕ
double = some (λ w. 2 * w)

abbrev add_one : Task ℕ
add_one = some (λ w. w + 1)

abbrev queued : ResultQueue ℕ
queued = push double empty_queue

one_pushed : Run {W = ℕ} 5 (double ∷ []) (record { queue = queued; left = none; world = 5 })
one_pushed = pushes double starts

interleaved : Run {W = ℕ} 5 (double ∷ add_one ∷ []) (record {
  queue = push add_one (swap_buffers queued);
  left = some (swap_buffers queued).read_buffer;
  world = 5;
})
interleaved = pushes add_one (swaps one_pushed refl)

Run-IsDelivered_example : IsDelivered {W = ℕ} 5 (double ∷ add_one ∷ []) (record {
  queue = push add_one (swap_buffers queued);
  left = some (swap_buffers queued).read_buffer;
  world = 5;
})
Run-IsDelivered_example = Run-IsDelivered interleaved

drain_runs_all_example :
    ((drain queued 5).1 ≡ run_tasks (double ∷ []) 5) × ((drain queued 5).0 ≡ empty_queue)
drain_runs_all_example = drain_runs_all one_pushed refl

drain_runs : (drain queued 5).1 ≡ 10
unfolding drain push empty_queue
drain_runs = refl
