-- ===== src/Concurrency/Philosophers.antt =====
-- demo_deadlock.c: five philosophers at a table, a fork each.
-- A philosopher is where it stands in philosopher_activity, and a step is one call of a mutex; `none`
-- is a call that blocks.
pub mod Forks
pub mod Safety
mod Tests
use os_exploring.Common.{
  ◌≡◌, ℕ, ◌+◌, ◌-◌, ◌%◌, ◌<◌, Bool, true, false, Option, none, some, ◌==◌, if◌then◌else◌, update,
}

abbrev pub num_philosophers : ℕ
num_philosophers = 5

unfoldable pub left : ℕ → ℕ
left x = (x + num_philosophers - 1) % num_philosophers

unfoldable pub right : ℕ → ℕ
right x = (x + 1) % num_philosophers

unfoldable pub first_fork : ℕ → ℕ
first_fork philosopher_id =
    if philosopher_id % 2 == 0 then left philosopher_id else right philosopher_id

unfoldable pub second_fork : ℕ → ℕ
second_fork philosopher_id =
    if philosopher_id % 2 == 0 then right philosopher_id else left philosopher_id

-- Before the first lock, between the two locks, and before each of the unlocks.
pub data Activity : Type 0 where
  thinking has_first eating has_second : Activity

pub record Table : Type 0 where
  pub forks : ℕ → Bool
  pub philosophers : ℕ → Activity

unfoldable pub set_table : Table
set_table = record { forks = λ _. false; philosophers = λ _. thinking }

-- pthread_mutex_lock: it blocks while the mutex is locked.
unfoldable pub take_fork : ℕ → Activity → ℕ → Table → Option Table
take_fork fork then_at i s =
    if s.forks fork
    then none
    else some (record s {
      forks = update s.forks fork true;
      philosophers = update s.philosophers i then_at;
    })

-- pthread_mutex_unlock
unfoldable pub put_fork : ℕ → Activity → ℕ → Table → Option Table
put_fork fork then_at i s =
    some (record s {
      forks = update s.forks fork false;
      philosophers = update s.philosophers i then_at;
    })

unfoldable pub activity_step : Activity → ℕ → Table → Option Table
activity_step thinking i s = take_fork (first_fork i) has_first i s
activity_step has_first i s = take_fork (second_fork i) eating i s
activity_step eating i s = put_fork (first_fork i) has_second i s
activity_step has_second i s = put_fork (second_fork i) thinking i s

unfoldable pub philosopher_activity : ℕ → Table → Option Table
unfolding activity_step
philosopher_activity i s = activity_step (s.philosophers i) i s

-- One call of one of the philosophers.
pub data TableStep (s t : Table) : Type 0 where
  step : (i : ℕ) → i < num_philosophers → philosopher_activity i s ≡ some t → TableStep s t

-- The tables that a schedule of the philosophers leads to.
pub data Dinner (s : Table) : Table → Type 0 where
  here : Dinner s s
  next : {t u : Table} → Dinner s t → TableStep t u → Dinner s u
