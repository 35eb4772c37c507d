-- ===== src/Concurrency/BoundedBuffer/Books.antt =====
-- How many threads stand where, and what a step does to the numbers.
use os_exploring.Common.{
  ℕ, ◌+◌, ◌<◌, ◌≡◌, Bool, true, false, arith, update, count_range, count_range-replace, one_if,
  update_ne, ap, sym,
}
use os_exploring.Concurrency.BoundedBuffer.{
  Phase, may_put, putting, wrote, filled, may_take, taking, took, emptied, SharedBuffer,
  buffer_size,
}

-- A slot is taken and nothing is written into it yet.
abbrev pub will_put : Phase → Bool
will_put (may_put x) = true
will_put (putting x) = true
will_put _ = false

-- An item is written and not posted yet.
abbrev pub has_put : Phase → Bool
has_put wrote = true
has_put filled = true
has_put _ = false

abbrev pub will_take : Phase → Bool
will_take may_take = true
will_take taking = true
will_take _ = false

abbrev pub has_taken : Phase → Bool
has_taken (took x) = true
has_taken (emptied x) = true
has_taken _ = false

-- The thread holds the mutex.
abbrev pub holds : Phase → Bool
holds (putting x) = true
holds wrote = true
holds taking = true
holds (took x) = true
holds _ = false

abbrev pub count_threads : ℕ → (Phase → Bool) → (ℕ → Phase) → ℕ
count_threads n test threads = count_range n (λ k. test (threads k))

pub count_threads-update :
    (n : ℕ) (test : Phase → Bool) (threads : ℕ → Phase) (i : ℕ) (p : Phase)
    → i < n
    → count_threads n test (update threads i p) + one_if (test (threads i))
      ≡ count_threads n test threads + one_if (test p)
count_threads-update n test threads i p below =
    let change =
      count_range-replace n (λ k. test (update threads i p k)) (λ k. test (threads k)) i below
        (λ k differ. ap test (update_ne threads i k p (λ e. differ (sym e)))) in
    ground (arith, change)

-- The balance of the slots, of the items and of the mutex.
pub record IsBalanced (n : ℕ) (s : SharedBuffer) : Type 0 where
  pub slots :
      s.empty_slots
        + count_threads n will_put s.threads
        + s.count
        + count_threads n has_taken s.threads
      ≡ buffer_size
  pub stored :
      s.filled_slots + count_threads n has_put s.threads + count_threads n will_take s.threads
      ≡ s.count
  pub mutex : count_threads n holds s.threads ≡ one_if s.locked
