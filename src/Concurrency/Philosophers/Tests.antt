-- ===== src/Concurrency/Philosophers/Tests.antt =====
-- The first philosopher eats.
use os_exploring.Common.{◌≡◌, refl, ℕ, ◌<◌, true, false, none, some, arith, update}
use os_exploring.Concurrency.Philosophers.{
  thinking, has_first, eating, Table, first_fork, second_fork, left, right, num_philosophers,
  set_table, take_fork, activity_step, philosopher_activity, step, Dinner, here, next,
}
use os_exploring.Concurrency.Philosophers.Safety.{IsExclusive, Dinner-IsExclusive, Dinner-progress}

abbrev empty_table : Table
unfolding set_table
empty_table = set_table

-- Philosopher 0 holds the forks 4 and 1.
abbrev one_eats : Table
one_eats = record {
  forks = update (update (λ _. false) 4 true) 1 true;
  philosophers = update (update (λ _. thinking) 0 has_first) 0 eating;
}

eats : Dinner empty_table one_eats
unfolding empty_table set_table philosopher_activity activity_step take_fork first_fork second_fork
    left right
eats = next (next here (step 0 (omega arith) refl)) (step 0 (omega arith) refl)

-- Philosopher 3 starts with the fork 4 too.
three_waits : philosopher_activity 3 one_eats ≡ none
unfolding philosopher_activity activity_step take_fork first_fork left right
three_waits = refl

Dinner-IsExclusive_example : IsExclusive one_eats
unfolding empty_table
Dinner-IsExclusive_example = Dinner-IsExclusive eats

Dinner-progress_example :
    (i : ℕ) × (i < num_philosophers) × ((t : Table) × (philosopher_activity i one_eats ≡ some t))
unfolding empty_table
Dinner-progress_example = Dinner-progress eats
