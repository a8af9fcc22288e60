-- ===== src/Net/ResultQueue.antt =====
-- GrpcResultQueue.h: tasks pushed by background threads and run by the game loop. `Drain` swaps the
-- two buffers under the lock and then runs what it took, while other threads push on; so a push
-- may fall between any two tasks of a drain. `W` is what the tasks work on.
pub mod Delivery
mod Tests
use mundus_vivens_game_serve.Common.{◌≡◌, List, [], ◌∷◌, ◌++◌, Option, none, some}

-- A `std::function`, which may be empty.
abbrev pub Task : Type 0 → Type 0
Task W = Option (W → W)

pub record ResultQueue (W : Type 0) : Type 0 where
  pub write_buffer : List (Task W)
  pub read_buffer : List (Task W)

pub empty_queue : {W : Type 0} → ResultQueue W
empty_queue = record { write_buffer = []; read_buffer = [] }

pub push : {W : Type 0} → Task W → ResultQueue W → ResultQueue W
push task q = record q { write_buffer = q.write_buffer ++ task ∷ [] }

-- The part of `Drain` under the lock.
pub swap_buffers : {W : Type 0} → ResultQueue W → ResultQueue W
swap_buffers q = record { write_buffer = q.read_buffer; read_buffer = q.write_buffer }

pub clear_read_buffer : {W : Type 0} → ResultQueue W → ResultQueue W
clear_read_buffer q = record q { read_buffer = [] }

-- One round of the dispatch loop: `if (task) task(...)`.
pub run_task : {W : Type 0} → Task W → W → W
run_task none w = w
run_task (some task) w = task w

pub run_tasks : {W : Type 0} → List (Task W) → W → W
unfolding run_task
run_tasks [] w = w
run_tasks (task ∷ rest) w = run_tasks rest (run_task task w)

-- A drain that no push interrupts.
pub drain : {W : Type 0} → ResultQueue W → W → ResultQueue W × W
unfolding swap_buffers clear_read_buffer run_tasks
drain q w =
    let swapped = swap_buffers q in (clear_read_buffer swapped, run_tasks swapped.read_buffer w)

-- The queue, the tasks that a drain in progress has still to run (`none` outside `Drain`), and
-- the game's state.
pub record State (W : Type 0) : Type 0 where
  pub queue : ResultQueue W
  pub left : Option (List (Task W))
  pub world : W

-- The steps of the threads, with the tasks pushed so far.
pub data Run {W : Type 0} (w : W) : List (Task W) → State W → Type 0 where
  starts : Run w [] (record { queue = empty_queue; left = none; world = w })
  pushes :
      {pushed : List (Task W)} {s : State W} (task : Task W)
      → Run w pushed s
      → Run w (pushed ++ task ∷ []) (record s { queue = push task s.queue })
  swaps :
      {pushed : List (Task W)} {s : State W}
      → Run w pushed s
      → s.left ≡ none
      → Run w pushed (record s {
        queue = swap_buffers s.queue;
        left = some (swap_buffers s.queue).read_buffer;
      })
  dispatches :
      {pushed : List (Task W)} {s : State W} (task : Task W) (rest : List (Task W))
      → Run w pushed s
      → s.left ≡ some (task ∷ rest)
      → Run w pushed (record s { left = some rest; world = run_task task s.world })
  clears :
      {pushed : List (Task W)} {s : State W}
      → Run w pushed s
      → s.left ≡ some []
      → Run w pushed (record s { queue = clear_read_buffer s.queue; left = none })
