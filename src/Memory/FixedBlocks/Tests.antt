-- ===== src/Memory/FixedBlocks/Tests.antt =====
-- An allocator of two blocks, the first of them handed out.
use os_exploring.Common.{
  ℕ, ◌+◌, ◌*◌, ◌≤◌, ◌≡◌, refl, ◌⊎◌, true, false, none, some, arith, update, count_range, find_range,
}
use os_exploring.Memory.FixedBlocks.{
  FixedAllocator, allocate_fixed_block, free_fixed_block, update_stats,
}
use os_exploring.Memory.FixedBlocks.Counting.{
  IsCounted, allocate_fixed_block_lem, free_fixed_block-allocate_fixed_block,
  free_fixed_block_twice,
}

abbrev half_full : FixedAllocator
half_full = record {
  memory = 4096;
  is_allocated = update (λ _. false) 0 true;
  block_size = 256;
  num_blocks = 2;
  free_blocks = 1;
}

half_full-IsCounted : IsCounted half_full
unfolding count_range
half_full-IsCounted = record { sized = omega arith; fits = omega arith; counted = refl }

second_block : (allocate_fixed_block half_full).0 ≡ some 4352
unfolding allocate_fixed_block find_range
second_block = refl

-- A pointer into the block frees it, as its first address does.
inner_pointer : (free_fixed_block half_full (some 4100)).free_blocks ≡ 2
unfolding free_fixed_block
inner_pointer = refl

peak_stays :
    (update_stats
      (record { allocations = 0; failed_allocations = 0; total_allocated = 0; peak_usage = 64 })
      32
      true).peak_usage
    ≡ 64
unfolding update_stats
peak_stays = refl

allocate_fixed_block_run :
    ((half_full.free_blocks ≡ 0) × (allocate_fixed_block half_full ≡ (none, half_full)))
    ⊎ ((i : ℕ) × (half_full.is_allocated i ≡ false)
        × ((allocate_fixed_block half_full).0 ≡ some (4096 + i * 256))
        × (4096 + i * 256 + 256 ≤ 4096 + 2 * 256)
        × IsCounted (allocate_fixed_block half_full).1)
allocate_fixed_block_run = allocate_fixed_block_lem half_full half_full-IsCounted

free_fixed_block-allocate_fixed_block_run :
    free_fixed_block (allocate_fixed_block half_full).1 (some 4352) ≡ half_full
free_fixed_block-allocate_fixed_block_run =
    free_fixed_block-allocate_fixed_block half_full 4352 half_full-IsCounted second_block

free_fixed_block_twice_run :
    free_fixed_block (free_fixed_block half_full (some 4096)) (some 4096)
    ≡ free_fixed_block half_full (some 4096)
free_fixed_block_twice_run = free_fixed_block_twice half_full (some 4096)
