-- ===== src/Memory/Paging.antt =====
-- d19_Paging_Mechanism/Paging_Mechanism.c: page replacement by age, by last use and by next use.
-- `frames` is a function from indices; each run returns its number of page faults and its frames.
pub mod Fifo
pub mod Lru
pub mod Optimal
mod Tests
use os_exploring.Common.{
  ℕ, zero, suc, ◌+◌, ◌%◌, Bool, true, false, Option, none, some, List, [], ◌∷◌, ltb, ◌==◌, ℤ, pos,
  negsuc, ltb_ℤ, int_max, eqb_ℤ, if◌then◌else◌, update, for_range, find_range,
}

pub record FifoQueue : Type 0 where
  pub frames : ℕ → ℤ
  pub capacity : ℕ
  pub size : ℕ
  pub head : ℕ

-- What `malloc` returns in `frames` is the argument.
unfoldable pub init_fifo_queue : (ℕ → ℤ) → ℕ → FifoQueue
init_fifo_queue garbage capacity = record {
  frames = garbage;
  capacity = capacity;
  size = 0;
  head = 0;
}

-- `isPagePresent`: the index at which the loop returns.
unfoldable pub find_page : FifoQueue → ℤ → Option ℕ
unfolding find_range
find_page q page = find_range q.size 0 (λ i. eqb_ℤ (q.frames i) page)

-- The body of the loop of `FIFOPageReplacement`.
unfoldable pub fifo_step : FifoQueue × ℕ → ℤ → FifoQueue × ℕ
unfolding find_page
fifo_step (q, faults) page = elim (find_page q page) [
  | some i ↦ (q, faults)
  | none ↦ (
    if ltb q.size q.capacity
        then record q { frames = update q.frames q.size page; size = q.size + 1 }
        else record q { frames = update q.frames q.head page; head = (q.head + 1) % q.capacity },
    faults + 1,
  )
]

unfoldable pub fifo_loop : FifoQueue × ℕ → List ℤ → FifoQueue × ℕ
unfolding fifo_step
fifo_loop s [] = s
fifo_loop s (page ∷ pages) = fifo_loop (fifo_step s page) pages

unfoldable pub fifo_page_replacement : (ℕ → ℤ) → List ℤ → ℕ → FifoQueue × ℕ
unfolding fifo_loop init_fifo_queue
fifo_page_replacement garbage pages capacity = fifo_loop (init_fifo_queue garbage capacity, 0) pages

pub record PageFrame : Type 0 where
  pub page : ℤ
  pub last_used : ℤ

-- The locals of `LRUPageReplacement`.
pub record LruState : Type 0 where
  pub frames : ℕ → PageFrame
  pub curr_size : ℕ
  pub page_faults : ℕ

-- The scan for the least recently used frame: `min_last_used` and `lru_idx`.
unfoldable pub lru_scan : (ℕ → PageFrame) → ℕ → ℤ × ℕ
unfolding for_range
lru_scan frames capacity =
    for_range capacity 0
      (λ j s. if ltb_ℤ (frames j).last_used s.0 then ((frames j).last_used, j) else s) (int_max, 0)

unfoldable pub lru_step : ℕ → ℕ → ℤ → LruState → LruState
unfolding lru_scan find_range
lru_step capacity i page s =
    let used : PageFrame = record { page = page; last_used = pos i } in
    elim (find_range s.curr_size 0 (λ j. eqb_ℤ (s.frames j).page page)) [
      | some j ↦ record s { frames = update s.frames j (record (s.frames j) { last_used = pos i }) }
      | none ↦
          if ltb s.curr_size capacity
          then record {
            frames = update s.frames s.curr_size used;
            curr_size = s.curr_size + 1;
            page_faults = s.page_faults + 1;
          }
          else record s {
            frames = update s.frames (lru_scan s.frames capacity).1 used;
            page_faults = s.page_faults + 1;
          }
    ]

unfoldable pub lru_loop : ℕ → ℕ → List ℤ → LruState → LruState
unfolding lru_step
lru_loop capacity i [] s = s
lru_loop capacity i (page ∷ pages) s = lru_loop capacity (i + 1) pages (lru_step capacity i page s)

unfoldable pub lru_page_replacement : List ℤ → ℕ → LruState
unfolding lru_loop
lru_page_replacement pages capacity = lru_loop capacity 0 pages (record {
  frames = λ _. record { page = negsuc 0; last_used = negsuc 0 };
  curr_size = 0;
  page_faults = 0;
})

-- The inner loop of `findFarthest`: the first use of a page in what is left, or how much is left.
unfoldable pub next_use : ℤ → List ℤ → ℕ
next_use page [] = 0
next_use page (p ∷ pages) = let later = next_use page pages + 1 in if eqb_ℤ page p then 0 else later

abbrev pub length_ℤ : List ℤ → ℕ
length_ℤ [] = 0
length_ℤ (p ∷ pages) = suc (length_ℤ pages)

-- `j > farthest`, where `none` stands for -1.
abbrev pub is_farther : ℕ → Option ℕ → Bool
is_farther j none = true
is_farther j (some farthest) = ltb farthest j

-- The outer loop over the frames from `i` on, `left` of them; positions count from `curr_idx`.
unfoldable pub farthest_from : ℕ → ℕ → List ℤ → (ℕ → ℤ) → Option ℕ → ℕ → ℕ
unfolding next_use
farthest_from zero i rest frames farthest farthest_idx = farthest_idx
farthest_from (suc left) i rest frames farthest farthest_idx =
    let j = next_use (frames i) rest in
    let further =
      farthest_from left (i + 1) rest frames (if is_farther j farthest then some j else farthest)
        (if is_farther j farthest then i else farthest_idx) in
    if j == length_ℤ rest then i else further

-- `farthest_idx` starts at -1, which the last line turns into 0.
unfoldable pub find_farthest : List ℤ → (ℕ → ℤ) → ℕ → ℕ
unfolding farthest_from
find_farthest rest frames capacity = farthest_from capacity 0 rest frames none 0

pub record OptimalState : Type 0 where
  pub frames : ℕ → ℤ
  pub curr_size : ℕ
  pub page_faults : ℕ

-- The body of the loop of `optimalPageReplacement`; `rest` are the pages after this one.
unfoldable pub optimal_step : ℕ → ℤ → List ℤ → OptimalState → OptimalState
unfolding find_farthest find_range
optimal_step capacity page rest s = elim (find_range s.curr_size 0 (λ j. eqb_ℤ (s.frames j) page)) [
  | some j ↦ s
  | none ↦
      if ltb s.curr_size capacity
      then record {
        frames = update s.frames s.curr_size page;
        curr_size = s.curr_size + 1;
        page_faults = s.page_faults + 1;
      }
      else record s {
        frames = update s.frames (find_farthest rest s.frames capacity) page;
        page_faults = s.page_faults + 1;
      }
]

unfoldable pub optimal_loop : ℕ → List ℤ → OptimalState → OptimalState
unfolding optimal_step
optimal_loop capacity [] s = s
optimal_loop capacity (page ∷ rest) s =
    optimal_loop capacity rest (optimal_step capacity page rest s)

unfoldable pub optimal_page_replacement : List ℤ → ℕ → OptimalState
unfolding optimal_loop
optimal_page_replacement pages capacity =
    optimal_loop capacity pages (record { frames = λ _. negsuc 0; curr_size = 0; page_faults = 0 })
