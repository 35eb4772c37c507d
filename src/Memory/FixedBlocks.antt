-- ===== src/Memory/FixedBlocks.antt =====
-- Memory_Allocators.c: the allocator of blocks of one size, with a flag for each block.
-- An address is a number below 2 ^ 64, where size_t wraps; a NULL pointer is `none`.
pub mod Counting
mod Tests
use os_exploring.Common.{
  ℕ, ◌+◌, ◌-◌, ◌*◌, ◌/◌, ◌%◌, ◌^◌, Bool, true, false, not, ◌&&◌, Option, none, some, ltb, ◌==◌,
  if◌then◌else◌, update, find_range,
}

pub record FixedAllocator : Type 0 where
  pub memory : ℕ
  pub is_allocated : ℕ → Bool
  pub block_size : ℕ
  pub num_blocks : ℕ
  pub free_blocks : ℕ

abbrev pub fixed_block_size : ℕ
fixed_block_size = 256

abbrev pub num_blocks_max : ℕ
num_blocks_max = 64

-- `memory` is what malloc returns for the blocks; none of the results is tested.
unfoldable pub init_fixed_allocator : ℕ → FixedAllocator
init_fixed_allocator memory = record {
  memory = memory;
  is_allocated = λ _. false;
  block_size = fixed_block_size;
  num_blocks = num_blocks_max;
  free_blocks = num_blocks_max;
}

-- The block that the loop finds is handed out.
abbrev pub hand_out : FixedAllocator → Option ℕ → Option ℕ × FixedAllocator
hand_out a none = (none, a)
hand_out a (some i) = (
  some (a.memory + i * a.block_size),
  record a { is_allocated = update a.is_allocated i true; free_blocks = a.free_blocks - 1 },
)

unfoldable pub allocate_fixed_block : FixedAllocator → Option ℕ × FixedAllocator
unfolding find_range
allocate_fixed_block a =
    let found = hand_out a (find_range a.num_blocks 0 (λ i. not (a.is_allocated i))) in
    if a.free_blocks == 0 then (none, a) else found

-- (ptr - memory) / block_size, as a size_t.
abbrev pub block_index : FixedAllocator → ℕ → ℕ
block_index a ptr = (ptr + 2 ^ 64 - a.memory) % 2 ^ 64 / a.block_size

unfoldable pub free_fixed_block : FixedAllocator → Option ℕ → FixedAllocator
free_fixed_block a none = a
free_fixed_block a (some ptr) =
    let idx = block_index a ptr in
    if ltb idx a.num_blocks && a.is_allocated idx
    then record a {
      is_allocated = update a.is_allocated idx false;
      free_blocks = a.free_blocks + 1;
    }
    else a

pub record AllocatorStats : Type 0 where
  pub allocations : ℕ
  pub failed_allocations : ℕ
  pub total_allocated : ℕ
  pub peak_usage : ℕ

-- The counters that `updateStats` writes; size_t wraps.
unfoldable pub update_stats : AllocatorStats → ℕ → Bool → AllocatorStats
update_stats stats size true =
    let total = (stats.total_allocated + size) % 2 ^ 64 in
    record stats {
      allocations = (stats.allocations + 1) % 2 ^ 64;
      total_allocated = total;
      peak_usage = if ltb stats.peak_usage total then total else stats.peak_usage;
    }
update_stats stats size false = record stats {
  failed_allocations = (stats.failed_allocations + 1) % 2 ^ 64;
}
