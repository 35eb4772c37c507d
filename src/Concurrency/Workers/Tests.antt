-- ===== src/Concurrency/Workers/Tests.antt =====
-- Three threads, of 333, 333 and 334 items.
use os_exploring.Common.{ℕ, ◌*◌, ◌<◌, ◌≡◌, refl, arith, ◌⊎◌, some, update}
use os_exploring.Concurrency.Workers.Doubling.{Worked-doubled}
use os_exploring.Concurrency.Workers.{
  num_items, items_per_thread, start_index, end_index, has_item, SharedWork, thread_initialize,
  thread_worker, step, Worked, here, next,
}

abbrev slices : SharedWork
unfolding thread_initialize
slices = thread_initialize 3

last_slice : end_index 3 2 ≡ 1000
unfolding end_index
last_slice = refl

-- The second thread has loaded its first item.
abbrev one_loaded : SharedWork
unfolding slices thread_initialize
one_loaded = record slices { workers = update slices.workers 1 (has_item 333 333) }

loads : Worked 3 slices one_loaded
unfolding slices one_loaded thread_initialize thread_worker start_index end_index items_per_thread
loads = next here (step 1 (omega arith) refl)

Worked-doubled_example :
    ((k : ℕ) → k < num_items → (one_loaded.shared_data k ≡ k) ⊎ (one_loaded.shared_data k ≡ k * 2))
    × (((k : ℕ) → k < num_items → one_loaded.shared_data k ≡ k * 2)
        ⊎ ((t : ℕ) × (t < 3)
            × ((u : SharedWork) × (thread_worker 3 (one_loaded.workers t) t one_loaded ≡ some u))))
unfolding slices
Worked-doubled_example = Worked-doubled 3 (omega arith) loads
