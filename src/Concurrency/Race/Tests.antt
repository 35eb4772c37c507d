-- ===== src/Concurrency/Race/Tests.antt =====
-- Two threads of one round.
use os_exploring.Common.{◌≡◌, refl, ◌⊎◌, ℕ, ◌*◌, ◌≤◌, ◌<◌, true, false, none, some, arith, update}
use os_exploring.Concurrency.Race.{
  before, looping, loaded, Counting, start_threads, load_counter, store_counter,
  increment_without_mutex, increment_with_mutex, step, Counted, here, next,
}
use os_exploring.Concurrency.Race.Stores.{all_stores}
use os_exploring.Concurrency.Race.Unlocked.{Counted-AtMost}
use os_exploring.Concurrency.Race.Outcome.{Counted-exact}

abbrev at_start : Counting
unfolding start_threads
at_start = start_threads

-- Both threads have read 0, and both have stored 1.
abbrev lost : Counting
lost = record {
  shared_counter = 1;
  mutex = false;
  threads =
      update
        (update
          (update
            (update (update (update (λ _. before) 0 (looping 0)) 1 (looping 0)) 0 (loaded 0 0)) 1
            (loaded 0 0))
          0 (looping 1))
        1 (looping 1);
}

loses : Counted (increment_without_mutex 1) 2 at_start lost
unfolding at_start start_threads increment_without_mutex load_counter store_counter
loses =
    next
      (next
        (next
          (next (next (next here (step 0 (omega arith) refl)) (step 1 (omega arith) refl))
            (step 0 (omega arith) refl))
          (step 1 (omega arith) refl))
        (step 0 (omega arith) refl))
      (step 1 (omega arith) refl)

Counted-AtMost_run : (1 ≤ all_stores 2 1 lost.threads) × (1 ≤ 2 * 1)
unfolding at_start
Counted-AtMost_run = Counted-AtMost 2 1 loses

-- The first thread has the mutex and has read 0.
abbrev inside_first : Counting
inside_first = record {
  shared_counter = 0;
  mutex = true;
  threads = update (update (λ _. before) 0 (looping 0)) 0 (loaded 0 0);
}

enters : Counted (increment_with_mutex 1) 2 at_start inside_first
unfolding at_start start_threads increment_with_mutex load_counter
enters = next (next here (step 0 (omega arith) refl)) (step 0 (omega arith) refl)

second_blocks : increment_with_mutex 1 before 1 inside_first ≡ none
unfolding increment_with_mutex
second_blocks = refl

Counted-exact_example :
    (0 ≡ all_stores 2 1 inside_first.threads)
    × ((0 ≡ 2 * 1)
        ⊎ ((t : ℕ) × (t < 2)
            × ((u : Counting) × (increment_with_mutex 1 (inside_first.threads t) t inside_first
                  ≡ some u))))
unfolding at_start
Counted-exact_example = Counted-exact 2 1 enters
