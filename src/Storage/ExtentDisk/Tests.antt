-- ===== src/Storage/ExtentDisk/Tests.antt =====
-- A disk of three blocks whose cells hold a 7 before anything is stored.
use os_exploring.Common.{◌≡◌, refl, true, some, arith}
use os_exploring.Storage.ExtentDisk.{
  null_extent, ExtentAllocator, no_file, init_extent_allocator, allocate_extent,
}
use os_exploring.Storage.ExtentDisk.Agreement.{
  disk_of, extent_at, allocate_extent-eq-allocate_contiguous, allocate_extent-init_extent_allocator,
}
use os_exploring.Storage.ContiguousDisk.{allocate_contiguous}

abbrev dirty_disk : ExtentAllocator
dirty_disk = record {
  disk_blocks = λ _. 7;
  total_blocks = 3;
  free_blocks = 3;
  files = λ _. no_file;
  max_files = 1;
}

starts_dirty : init_extent_allocator true (λ _. 7) 3 1 ≡ some dirty_disk
unfolding init_extent_allocator
starts_dirty = refl

allocate_extent-init_extent_allocator_run :
    (dirty_disk.free_blocks ≡ 3) × ((allocate_extent true dirty_disk 2).0 ≡ null_extent)
allocate_extent-init_extent_allocator_run =
    allocate_extent-init_extent_allocator (λ _. 7) 3 1 2 true dirty_disk (λ k l. omega arith)
      (omega arith) starts_dirty

allocate_extent-eq-allocate_contiguous_run :
    ((allocate_extent true dirty_disk 2).0
      ≡ extent_at (allocate_contiguous (disk_of dirty_disk) 2).0 2)
    × (disk_of (allocate_extent true dirty_disk 2).1
        ≡ (allocate_contiguous (disk_of dirty_disk) 2).1)
allocate_extent-eq-allocate_contiguous_run = allocate_extent-eq-allocate_contiguous dirty_disk 2
