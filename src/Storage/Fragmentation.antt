-- ===== src/Storage/Fragmentation.antt =====
-- d27_File_Allocation_Methods/fragmentation_management.c: the list of free regions, sorted and merged.
-- Starts and lengths of regions are not negative. The fragmentation ratio, a double, is left out.
pub mod Totals
mod Tests
use os_exploring.Common.{
  ℕ, ◌+◌, ◌-◌, Bool, true, false, Option, none, some, ℤ, pos, ◌-ℤ◌, ltb, ◌==◌, if◌then◌else◌,
  update, for_range,
}

pub record FreeRegion : Type 0 where
  pub block_start : ℕ
  pub block_len : ℕ

pub record FragmentationManager : Type 0 where
  pub used_space : ℤ
  pub largest_free_block : ℕ
  pub free_regions : ℕ → FreeRegion
  pub region_count : ℕ
  pub total_blocks : ℕ

-- Whether malloc has room for both, and what the regions hold then.
unfoldable pub init_fragmentation_manager :
    Option (ℕ → FreeRegion) → ℕ → Option FragmentationManager
init_fragmentation_manager none total_blocks = none
init_fragmentation_manager (some raw) total_blocks = some (record {
  used_space = pos 0;
  largest_free_block = total_blocks;
  free_regions = update raw 0 (record { block_start = 0; block_len = total_blocks });
  region_count = 1;
  total_blocks = total_blocks;
})

-- The loop body: `total_free` and `largest_free`.
abbrev pub add_region : (ℕ → FreeRegion) → ℕ → ℕ × ℕ → ℕ × ℕ
add_region regions i (total, largest) =
    let size = (regions i).block_len in (total + size, if ltb largest size then size else largest)

unfoldable pub update_fragmentation_metrics : FragmentationManager → FragmentationManager
unfolding for_range
update_fragmentation_metrics m =
    let (total_free, largest_free) =
      for_range m.region_count 0 (add_region m.free_regions) (0, 0) in
    record m {
      largest_free_block = largest_free;
      used_space = pos m.total_blocks -ℤ pos total_free;
    }

abbrev pub swap_regions : ℕ → (ℕ → FreeRegion) → ℕ → FreeRegion
swap_regions j r = update (update r j (r (j + 1))) (j + 1) (r j)

-- The body of the inner loop of the sort. It compares the region at `i`, not that at `j`.
unfoldable pub sort_step : ℕ → ℕ → (ℕ → FreeRegion) → ℕ → FreeRegion
sort_step i j r = if ltb (r (j + 1)).block_start (r i).block_start then swap_regions j r else r

unfoldable pub sort_regions : ℕ → (ℕ → FreeRegion) → ℕ → FreeRegion
unfolding for_range sort_step
sort_regions count r =
    for_range (count - 1) 0 (λ i now. for_range (count - i - 1) 0 (sort_step i) now) r

-- The body of the merging loop at `read_idx`, on `write_idx` and the regions.
unfoldable pub merge_step : ℕ → ℕ × (ℕ → FreeRegion) → ℕ × (ℕ → FreeRegion)
merge_step read_idx (write_idx, r) =
    let last = r write_idx in
    if last.block_start + last.block_len == (r read_idx).block_start
    then (
      write_idx,
      update r write_idx (record last { block_len = last.block_len + (r read_idx).block_len }),
    )
    else (write_idx + 1, update r (write_idx + 1) (r read_idx))

unfoldable pub merge_regions : ℕ → (ℕ → FreeRegion) → ℕ × (ℕ → FreeRegion)
unfolding for_range merge_step
merge_regions count r = for_range (count - 1) 1 merge_step (0, r)

unfoldable pub defragment : FragmentationManager → FragmentationManager
unfolding sort_regions merge_regions
defragment m =
    let (write_idx, merged) =
      merge_regions m.region_count (sort_regions m.region_count m.free_regions) in
    record m { free_regions = merged; region_count = write_idx + 1 }
