-- ===== src/Concurrency/Race/Stores.antt =====
-- How many rounds of the loop the threads have finished.
use os_exploring.Common.{
  ◌≡◌, ap, sym, ℕ, ◌+◌, ◌<◌, arith, update, update_self, update_ne, sum_range, sum_range-replace,
}
use os_exploring.Concurrency.Race.{Progress, before, looping, loaded, returned}

-- The stores a thread has done.
abbrev pub stores : ℕ → Progress → ℕ
stores count before = 0
stores count (looping i) = i
stores count (loaded i v) = i
stores count returned = count

abbrev pub all_stores : ℕ → ℕ → (ℕ → Progress) → ℕ
all_stores n count threads = sum_range n (λ t. stores count (threads t))

pub all_stores-update :
    (n count : ℕ) (threads : ℕ → Progress) (t : ℕ) (old new : Progress)
    → t < n
    → threads t ≡ old
    → all_stores n count (update threads t new) + stores count old
      ≡ all_stores n count threads + stores count new
all_stores-update n count threads t old new below at =
    let change =
      sum_range-replace n (λ k. stores count (update threads t new k))
        (λ k. stores count (threads k)) t below
        (λ k differ. ap (stores count) (update_ne threads t k new (λ e. differ (sym e)))) in
    let there : stores count (update threads t new t) ≡ stores count new =
      ap (stores count) (update_self threads t new) in
    let gone : stores count (threads t) ≡ stores count old = ap (stores count) at in
    omega (arith, change, there, gone)
