-- ===== src/ThreadPool.antt =====
-- snail/common/thread_pool.cpp: each critical section is a step.
pub mod Laws
pub mod Examples
use snail_server.Common.{ℕ, ◌+◌, Bool, true, false, ◌&&◌, List, [], ◌∷◌, ◌++◌, if◌then◌else◌, ltb}

-- `started` are the tasks that workers have taken, in order; a worker is one that was spawned.
pub record ThreadPool : Type 0 where
  pub task_queue : List ℕ
  pub workers : ℕ
  pub max_size : ℕ
  pub stopped : Bool
  pub started : List ℕ

abbrev pub new_pool : ℕ → ThreadPool
new_pool max_size = record {
  task_queue = [];
  workers = 0;
  max_size = max_size;
  stopped = false;
  started = [];
}

-- The first critical section of `submit`.
unfoldable pub push_task : ℕ → ThreadPool → ThreadPool
push_task task p = if p.stopped then p else record p { task_queue = p.task_queue ++ task ∷ [] }

abbrev pub is_empty : List ℕ → Bool
is_empty [] = true
is_empty (t ∷ ts) = false

-- The second part of `submit`, which is not reached when the pool is stopped before the first.
unfoldable pub spawn_for : ThreadPool → ThreadPool
spawn_for p =
    if ltb p.workers p.max_size
    then (if is_empty p.task_queue then p else record p { workers = p.workers + 1 })
    else p

unfoldable pub submit : ℕ → ThreadPool → ThreadPool
submit task p = if p.stopped then p else spawn_for (push_task task p)

abbrev pub take_from : ThreadPool → List ℕ → ThreadPool
take_from p [] = p
take_from p (task ∷ tasks) = record p { task_queue = tasks; started = p.started ++ task ∷ [] }

-- The critical section of a worker: it waits, that is, does nothing, while the queue is empty.
unfoldable pub take_task : ThreadPool → ThreadPool
take_task p = take_from p p.task_queue

-- Whether a worker that wakes up returns.
abbrev pub worker_returns : ThreadPool → Bool
worker_returns p = p.stopped && is_empty p.task_queue

-- The critical section of `stop`.
unfoldable pub stop : ThreadPool → ThreadPool
stop p = record p { stopped = true; max_size = 0 }

-- The threads that submit are one at a time, as the dispatcher of the scheduler is; between their two
-- critical sections workers may take tasks.
pub data PoolEvent : Type 0 where
  pushes : ℕ → PoolEvent
  spawns : PoolEvent
  takes : PoolEvent
  stops : PoolEvent

unfoldable pub pool_step : PoolEvent → ThreadPool → ThreadPool
pool_step (pushes task) p = push_task task p
pool_step spawns p = spawn_for p
pool_step takes p = take_task p
pool_step stops p = stop p

unfoldable pub pool_run : List PoolEvent → ThreadPool → ThreadPool
pool_run [] p = p
pool_run (e ∷ es) p = pool_run es (pool_step e p)
