-- ===== src/Concurrency/ThreadPool.antt =====
-- single_thread_pool.c: the queue of tasks between add_task and the worker threads.
-- Each function works on the queue under the mutex, so that it is one step; a wait for a condition is
-- a step that is not possible yet. `MASK_QUEUE_SIZE`, at which add_task wraps and which no file of the
-- repository defines, is an argument.
pub mod Fifo
mod Tests
use os_exploring.Common.{
  ℕ, ◌+◌, ◌-◌, ◌%◌, Bool, true, false, not, ◌&&◌, Option, none, some, List, [], ◌∷◌, ◌++◌, ◌==◌,
  if◌then◌else◌, update,
}

abbrev pub max_queue_size : ℕ
max_queue_size = 100

-- A function and its argument, by name.
pub record Task : Type 0 where
  pub function : ℕ
  pub arg : ℕ

pub record ThreadPool : Type 0 where
  pub task_queue : ℕ → Task
  pub queue_size : ℕ
  pub front : ℕ
  pub rear : ℕ
  pub shutdown : Bool

-- malloc leaves `raw` in the queue.
unfoldable pub create_thread_pool : (ℕ → Task) → ThreadPool
create_thread_pool raw = record {
  task_queue = raw;
  queue_size = 0;
  front = 0;
  rear = 0;
  shutdown = false;
}

-- `none`: the queue is full, and the caller waits.
unfoldable pub add_task : ℕ → ThreadPool → Task → Option ThreadPool
add_task mask_queue_size pool task =
    if pool.queue_size == max_queue_size
    then none
    else some (record pool {
      task_queue = update pool.task_queue pool.rear task;
      rear = (pool.rear + 1) % mask_queue_size;
      queue_size = pool.queue_size + 1;
    })

-- What one round of `worker_thread` does: it waits, it exits, or it runs a task.
pub data Round : Type 0 where
  waits exits : Round
  runs : Task → ThreadPool → Round

unfoldable pub worker_round : ThreadPool → Round
worker_round pool =
    if pool.queue_size == 0 && not pool.shutdown
    then waits
    else if pool.shutdown
    then exits
    else runs (pool.task_queue pool.front) (record pool {
      front = (pool.front + 1) % max_queue_size;
      queue_size = pool.queue_size - 1;
    })

-- The flag that destroy_thread_pool sets before it waits for the workers.
unfoldable pub shut_down : ThreadPool → ThreadPool
shut_down pool = record pool { shutdown = true }
