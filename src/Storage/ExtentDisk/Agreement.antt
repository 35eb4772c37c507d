-- ===== src/Storage/ExtentDisk/Agreement.antt =====
-- The allocation of an extent beside the contiguous allocation, and the blocks that are not cleared.
use os_exploring.Common.{
  ℕ, ◌<◌, ◌≡◌, ◌≢◌, refl, inl, inr, Bool, true, Option, none, some, arith, Option-cases,
}
use os_exploring.Storage.ContiguousDisk.{ContiguousAllocator, find_run, allocate_contiguous}
use os_exploring.Storage.ContiguousDisk.Runs.{find_run_lem}
use os_exploring.Storage.ExtentDisk.{
  no_file, Extent, null_extent, extent, ExtentAllocator, init_extent_allocator, allocate_extent,
}

-- The part of the state that the contiguous allocator has too.
abbrev pub disk_of : ExtentAllocator → ContiguousAllocator
disk_of a = record {
  disk_blocks = a.disk_blocks;
  total_blocks = a.total_blocks;
  free_blocks = a.free_blocks;
}

-- The extent for a start that was found, or NULL.
abbrev pub extent_at : Option ℕ → ℕ → Extent
extent_at none n = null_extent
extent_at (some start) n = extent start n null_extent

-- If malloc has a node, allocating an extent does to the blocks what the contiguous allocation does,
-- and returns one extent with the start that it returns, or NULL where it fails.
pub allocate_extent-eq-allocate_contiguous :
    (a : ExtentAllocator) (n : ℕ)
    → ((allocate_extent true a n).0 ≡ extent_at (allocate_contiguous (disk_of a) n).0 n)
      × (disk_of (allocate_extent true a n).1 ≡ (allocate_contiguous (disk_of a) n).1)
unfolding allocate_extent allocate_contiguous
allocate_extent-eq-allocate_contiguous a n =
    elim (Option-cases (find_run a.total_blocks 0 0 0 a.disk_blocks n)) [
      | inl nothing ↦ rw (nothing, allocate_extent, allocate_contiguous) (refl, refl)
      | inr (s, found) ↦ rw (found, allocate_extent, allocate_contiguous) (refl, refl)
    ]

-- If malloc hands out blocks whose cells are not 0, no extent of one or more blocks can be allocated
-- on the new disk, though the counter says that all blocks are free.
pub allocate_extent-init_extent_allocator :
    (raw : ℕ → ℕ) (total max_files n : ℕ) (memory : Bool) (a : ExtentAllocator)
    → ((k : ℕ) → k < total → raw k ≢ 0)
    → 0 < n
    → init_extent_allocator true raw total max_files ≡ some a
    → (a.free_blocks ≡ total) × ((allocate_extent memory a n).0 ≡ null_extent)
unfolding allocate_extent init_extent_allocator
allocate_extent-init_extent_allocator raw total max_files n memory a dirty positive e =
    let b : ExtentAllocator = record {
      disk_blocks = raw;
      total_blocks = total;
      free_blocks = total;
      files = λ _. no_file;
      max_files = max_files;
    } in
    let at : b ≡ a = cc e in
    elim (Option-cases (find_run total 0 0 0 raw n)) [
      | inl nothing ↦ rw (← at) (refl, rw (nothing, allocate_extent))
      | inr (s, found) ↦
          let (fits, free) = find_run_lem total raw n s positive found in
          absurd (dirty s (omega (arith, fits)) (free s (omega arith) (omega arith)))
    ]
