-- ===== src/Concurrency/Race.antt =====
-- demo_race_condition.c: threads that add to one counter, with and without a mutex.
-- `shared_counter++` is a load and a store, and other threads may step between the two. A step is a
-- load, a store, the test that ends the loop, or a call of the mutex; `none` is a call that blocks, or a
-- thread that has returned. The counter is a number: two threads of 10^6 rounds stay within an int.
mod Stores
mod Locked
pub mod Outcome
pub mod Unlocked
mod Tests
use os_exploring.Common.{
  ◌≡◌, ℕ, ◌+◌, ◌<◌, Bool, true, false, Option, none, some, ltb, if◌then◌else◌, update,
}

-- `looping i` stands at the test of round `i`, `loaded i v` has read `v` in it.
pub data Progress : Type 0 where
  before : Progress
  looping : ℕ → Progress
  loaded : ℕ → ℕ → Progress
  returned : Progress

pub record Counting : Type 0 where
  pub shared_counter : ℕ
  pub mutex : Bool
  pub threads : ℕ → Progress

unfoldable pub start_threads : Counting
start_threads = record { shared_counter = 0; mutex = false; threads = λ _. before }

unfoldable pub load_counter : ℕ → ℕ → Counting → Option Counting
load_counter i t s = some (record s { threads = update s.threads t (loaded i s.shared_counter) })

unfoldable pub store_counter : ℕ → ℕ → ℕ → Counting → Option Counting
store_counter i v t s =
    some (record s { shared_counter = v + 1; threads = update s.threads t (looping (i + 1)) })

unfoldable pub increment_without_mutex : ℕ → Progress → ℕ → Counting → Option Counting
increment_without_mutex count before t s =
    some (record s { threads = update s.threads t (looping 0) })
increment_without_mutex count (looping i) t s =
    if ltb i count
    then load_counter i t s
    else some (record s { threads = update s.threads t returned })
increment_without_mutex count (loaded i v) t s = store_counter i v t s
increment_without_mutex count returned t s = none

unfoldable pub increment_with_mutex : ℕ → Progress → ℕ → Counting → Option Counting
increment_with_mutex count before t s =
    if s.mutex
    then none
    else some (record s { mutex = true; threads = update s.threads t (looping 0) })
increment_with_mutex count (looping i) t s =
    if ltb i count
    then load_counter i t s
    else some (record s { mutex = false; threads = update s.threads t returned })
increment_with_mutex count (loaded i v) t s = store_counter i v t s
increment_with_mutex count returned t s = none

-- One step of one of `n` threads that run `body`.
pub data CountStep (body : Progress → ℕ → Counting → Option Counting) (n : ℕ) (s u : Counting)
    : Type 0 where
  step : (t : ℕ) → t < n → body (s.threads t) t s ≡ some u → CountStep body n s u

pub data Counted (body : Progress → ℕ → Counting → Option Counting) (n : ℕ) (s : Counting)
    : Counting → Type 0 where
  here : Counted body n s s
  next : {u v : Counting} → Counted body n s u → CountStep body n u v → Counted body n s v
