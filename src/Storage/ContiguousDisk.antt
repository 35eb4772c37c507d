-- ===== src/Storage/ContiguousDisk.antt =====
-- contiguous_allocation.c: the first run of free blocks that is long enough.
-- A block is free if its cell is 0. The counters of the source are `int`s that stay in range.
pub mod Runs
pub mod Marks
pub mod Allocate
mod Tests
use os_exploring.Common.{
  ℕ, zero, suc, ◌+◌, ◌-◌, Bool, Option, none, some, ◌==◌, if◌then◌else◌, update, for_range,
}

pub record ContiguousAllocator : Type 0 where
  pub disk_blocks : ℕ → ℕ
  pub total_blocks : ℕ
  pub free_blocks : ℕ

-- `malloc` and `calloc` succeed or not as the argument says.
unfoldable pub init_contiguous_allocator : Bool → ℕ → Option ContiguousAllocator
init_contiguous_allocator memory total_blocks =
    if memory
    then some
        (record { disk_blocks = λ _. 0; total_blocks = total_blocks; free_blocks = total_blocks })
    else none

-- The loop over the blocks from `i` on, `left` of them: the block at which a run of `needed` starts.
unfoldable pub find_run : ℕ → ℕ → ℕ → ℕ → (ℕ → ℕ) → ℕ → Option ℕ
find_run zero i curr_count start_block disk needed = none
find_run (suc left) i curr_count start_block disk needed =
    let start' = if curr_count == 0 then i else start_block in
    let longer = find_run left (i + 1) (curr_count + 1) start' disk needed in
    let afresh = find_run left (i + 1) 0 start_block disk needed in
    if disk i == 0 then (if curr_count + 1 == needed then some start' else longer) else afresh

-- for (j = start; j < start + needed; j++) disk[j] = 1
unfoldable pub mark_run : ℕ → ℕ → (ℕ → ℕ) → ℕ → ℕ
unfolding for_range
mark_run needed start = for_range needed start (λ j disk. update disk j 1)

-- `none` is -1.
unfoldable pub allocate_contiguous : ContiguousAllocator → ℕ → Option ℕ × ContiguousAllocator
unfolding find_run mark_run
allocate_contiguous a needed = elim (find_run a.total_blocks 0 0 0 a.disk_blocks needed) [
  | none ↦ (none, a)
  | some start ↦ (
    some start,
    record a {
      disk_blocks = mark_run needed start a.disk_blocks;
      free_blocks = a.free_blocks - needed;
    },
  )
]
