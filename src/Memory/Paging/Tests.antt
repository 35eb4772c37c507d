-- ===== src/Memory/Paging/Tests.antt =====
-- Runs of Paging_Mechanism.c on the pages of d20_Page_Replacement_Algorithms, and its theorems on
-- three frames.
use os_exploring.Common.{
  ℕ, ◌≤◌, ◌<◌, ◌+◌, ◌≡◌, refl, List, [], ◌∷◌, map, arith, ℤ, pos, update, ◌≤ℤ◌,
}
use os_exploring.Memory.Paging.{
  FifoQueue, find_page, fifo_step, fifo_page_replacement, LruState, lru_step, lru_page_replacement,
  next_use, find_farthest, optimal_page_replacement,
}
use os_exploring.Memory.Paging.Fifo.{IsValid, Holds, fifo_step_lem, fifo_page_replacement_lem}
use os_exploring.Memory.Paging.Lru.{lru_step_evicts}
use os_exploring.Memory.Paging.Optimal.{find_farthest_lem}

abbrev pages : List ℤ
pages = map pos (7 ∷ 0 ∷ 1 ∷ 2 ∷ 0 ∷ 3 ∷ 0 ∷ 4 ∷ 2 ∷ 3 ∷ 0 ∷ 3 ∷ 2 ∷ [])

abbrev junk : ℕ → ℤ
junk _ = pos 99

fifo_faults : (fifo_page_replacement junk pages 3).1 ≡ 10
unfolding fifo_page_replacement
fifo_faults = refl

lru_faults : (lru_page_replacement pages 3).page_faults ≡ 9
unfolding lru_page_replacement
lru_faults = refl

optimal_faults : (optimal_page_replacement pages 3).page_faults ≡ 7
unfolding optimal_page_replacement
optimal_faults = refl

abbrev full : FifoQueue
full = record { frames = update (λ _. pos 5) 1 (pos 6); capacity = 2; size = 2; head = 1 }

full-IsValid : IsValid full
full-IsValid = record {
  room = omega arith;
  head_in = omega arith;
  distinct = λ i j il jl e. ground arith;
}

fifo_step_run :
    IsValid (fifo_step (full, 4) (pos 8)).0
    × ((fifo_step (full, 4) (pos 8)).0.capacity ≡ 2)
    × Holds (fifo_step (full, 4) (pos 8)).0 (pos 8)
    × ((fifo_step (full, 4) (pos 8)).1 ≡ 5)
unfolding find_page
fifo_step_run = fifo_step_lem full 4 (pos 8) full-IsValid

fifo_page_replacement_run :
    IsValid (fifo_page_replacement junk pages 3).0 × ((fifo_page_replacement junk pages 3).1 ≤ 13)
fifo_page_replacement_run = fifo_page_replacement_lem junk pages 3 (omega arith)

abbrev used : LruState
used = record {
  frames = λ i. record { page = pos i; last_used = pos (i + 3) };
  curr_size = 3;
  page_faults = 3;
}

lru_step_evicts_run :
    (victim : ℕ) × (victim < 3)
    × ((used.frames victim).last_used ≤ℤ pos 5)
    × ((lru_step 3 9 (pos 8) used).frames
        ≡ update used.frames victim (record { page = pos 8; last_used = pos 9 }))
    × ((lru_step 3 9 (pos 8) used).page_faults ≡ 4)
lru_step_evicts_run =
    lru_step_evicts 3 9 2 (pos 8) used (omega arith) refl (λ k lt. omega arith)
      (λ k lt e. ground arith)

find_farthest_run :
    (find_farthest pages pos 3 < 3)
    × (next_use (pos 1) pages ≤ next_use (pos (find_farthest pages pos 3)) pages)
find_farthest_run = find_farthest_lem pages pos 3 1 (omega arith)
