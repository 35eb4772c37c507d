-- ===== src/Concurrency/Workers.antt =====
-- working_template.c: threads that double the items of one array, each in a slice of its own.
-- `data[i] *= 2` is a load and a store, and other threads may step between the two. No mutex is
-- taken. `none` is a thread that has returned.
mod Slices
pub mod Doubling
mod Tests
use os_exploring.Common.{
  ℕ, ◌+◌, ◌-◌, ◌*◌, ◌/◌, ◌<◌, ◌≡◌, Option, none, some, ltb, ◌==◌, if◌then◌else◌, update,
}

abbrev pub num_items : ℕ
num_items = 1000

unfoldable pub items_per_thread : ℕ → ℕ
items_per_thread num_threads = num_items / num_threads

unfoldable pub start_index : ℕ → ℕ → ℕ
start_index num_threads i = i * items_per_thread num_threads

unfoldable pub end_index : ℕ → ℕ → ℕ
end_index num_threads i =
    if i == num_threads - 1 then num_items else (i + 1) * items_per_thread num_threads

-- A thread before the test of item `i`, or with the value it has loaded from it.
pub data Worker : Type 0 where
  at_item : ℕ → Worker
  has_item : ℕ → ℕ → Worker

pub record SharedWork : Type 0 where
  pub shared_data : ℕ → ℕ
  pub workers : ℕ → Worker

-- thread_initialize, and the work units of thread_process_data.
unfoldable pub thread_initialize : ℕ → SharedWork
thread_initialize num_threads = record {
  shared_data = λ i. i;
  workers = λ t. at_item (start_index num_threads t);
}

unfoldable pub thread_worker : ℕ → Worker → ℕ → SharedWork → Option SharedWork
thread_worker num_threads (at_item i) t s =
    if ltb i (end_index num_threads t)
    then some (record s { workers = update s.workers t (has_item i (s.shared_data i)) })
    else none
thread_worker num_threads (has_item i v) t s = some (record s {
  shared_data = update s.shared_data i (v * 2);
  workers = update s.workers t (at_item (i + 1));
})

-- One step of one of the threads.
pub data WorkStep (num_threads : ℕ) (s u : SharedWork) : Type 0 where
  step :
      (t : ℕ)
      → t < num_threads
      → thread_worker num_threads (s.workers t) t s ≡ some u
      → WorkStep num_threads s u

pub data Worked (num_threads : ℕ) (s : SharedWork) : SharedWork → Type 0 where
  here : Worked num_threads s s
  next :
      {u v : SharedWork}
      → Worked num_threads s u
      → WorkStep num_threads u v
      → Worked num_threads s v
