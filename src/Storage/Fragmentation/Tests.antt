-- ===== src/Storage/Fragmentation/Tests.antt =====
-- Three regions that follow one another on the disk, in two orders.
use os_exploring.Common.{ℕ, zero, suc, ◌≡◌, ◌≤◌, refl, arith, pos, for_range}
use os_exploring.Storage.Fragmentation.{FreeRegion, FragmentationManager, defragment}
use os_exploring.Storage.Fragmentation.Totals.{free_of, defragment-free_of}

abbrev region : ℕ → ℕ → FreeRegion
region start len = record { block_start = start; block_len = len }

abbrev manager : (ℕ → FreeRegion) → FragmentationManager
manager regions = record {
  used_space = pos 0;
  largest_free_block = 0;
  free_regions = regions;
  region_count = 3;
  total_blocks = 100;
}

abbrev in_order : ℕ → FreeRegion
in_order zero = region 10 5
in_order (suc zero) = region 15 5
in_order (suc (suc i)) = region 20 5

abbrev rotated : ℕ → FreeRegion
rotated zero = region 20 5
rotated (suc zero) = region 15 5
rotated (suc (suc i)) = region 10 5

defragment-in_order : (defragment (manager in_order)).region_count ≡ 1
unfolding defragment for_range
defragment-in_order = refl

-- The sort compares the wrong region, so these are not put in order, and stay three.
defragment-rotated : (defragment (manager rotated)).region_count ≡ 3
unfolding defragment for_range
defragment-rotated = refl

defragment-free_of_run :
    (free_of (defragment (manager rotated)).region_count (defragment (manager rotated)).free_regions
      ≡ free_of 3 rotated)
    × ((defragment (manager rotated)).region_count ≤ 3)
defragment-free_of_run = defragment-free_of (manager rotated) (omega arith)
