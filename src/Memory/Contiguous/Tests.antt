-- ===== src/Memory/Contiguous/Tests.antt =====
-- Runs of Memory_Allocation_Algo.c and Memory_Compaction.c, and their theorems at small memories.
use os_exploring.Common.{ℕ, ◌≤◌, ◌<◌, ◌≡◌, refl, Bool, true, false, [], ◌∷◌, arith, some, none, map}
use os_exploring.Memory.Contiguous.{
  MemoryBlock, MemoryManager, init_memory_manager, alloc_memory, best_fit, worst_fit,
  compact_memory,
}
use os_exploring.Memory.Contiguous.Fit.{Fits, size_at, best_fit_smallest, worst_fit_exact}
use os_exploring.Memory.Contiguous.Compaction.{used_bytes, IsMerged, compact_memory_lem}
use os_exploring.Memory.Contiguous.Tiling.{
  free_bytes, IsValid, alloc_memory-IsValid, init_memory_manager-IsValid, alloc_memory_null,
}

abbrev block : ℕ → ℕ → Bool → MemoryBlock
block size start used = record { size = size; start_address = start; is_allocated = used }

abbrev holes : MemoryManager
holes = record {
  blocks =
      block 300 0 false
      ∷ block 100 300 true
      ∷ block 200 400 false
      ∷ block 100 600 true
      ∷ block 324 700 false
      ∷ [];
  total_size = 1024;
  free_size = 824;
  allocated_strategy = 2;
}

best_of_holes : best_fit holes 150 ≡ some 2
unfolding best_fit
best_of_holes = refl

worst_of_holes : worst_fit holes 150 ≡ some 4
unfolding worst_fit
worst_of_holes = refl

allocated_addresses :
    map (λ (b : MemoryBlock). b.start_address) (alloc_memory holes 100).1.blocks
    ≡ 0 ∷ 300 ∷ 400 ∷ 500 ∷ 600 ∷ 700 ∷ []
unfolding alloc_memory
allocated_addresses = refl

-- The blocks in use move down, the free ones keep their address: they now overlap.
compacted :
    (compact_memory holes).blocks
    ≡ block 300 0 false
      ∷ block 100 0 true
      ∷ block 200 400 false
      ∷ block 100 100 true
      ∷ block 324 700 false
      ∷ []
unfolding compact_memory
compacted = refl

best_fit_smallest_run : Fits 150 2 holes.blocks × (200 ≤ 324)
best_fit_smallest_run = best_fit_smallest holes 150 2 4 best_of_holes (refl, omega arith)

compact_memory_run :
    (free_bytes (compact_memory holes).blocks ≡ 824)
    × (used_bytes (compact_memory holes).blocks ≡ 200)
    × IsMerged (compact_memory holes).blocks
compact_memory_run = compact_memory_lem holes

alloc_memory-IsValid_example : IsValid (alloc_memory (init_memory_manager 1024 3) 128).1
alloc_memory-IsValid_example =
    alloc_memory-IsValid (init_memory_manager 1024 3) 128 (init_memory_manager-IsValid 1024 3)

alloc_memory_null_run :
    ((alloc_memory (init_memory_manager 1024 2) 128).0 ≡ 0)
    × ((alloc_memory (init_memory_manager 1024 2) 128).1.free_size < 1024)
alloc_memory_null_run = alloc_memory_null 1024 2 128 (omega arith) (omega arith)

worst_fit_exact_run : worst_fit (init_memory_manager 128 3) 128 ≡ none
unfolding init_memory_manager
worst_fit_exact_run = worst_fit_exact (init_memory_manager 128 3) 128 (one_block)
  where
    one_block :
        (k : ℕ)
        → Fits 128 k (init_memory_manager 128 3).blocks
        → size_at (init_memory_manager 128 3).blocks k ≡ 128
    one_block ℕ.zero f = refl
    one_block (ℕ.suc k) f = absurd f
