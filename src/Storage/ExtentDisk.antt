-- ===== src/Storage/ExtentDisk.antt =====
-- extent_based_allocation.c: extents, taken from the first run of free blocks that is long enough.
-- `null_extent` is the NULL pointer of the source, and `extent` a node of its chain.
pub mod Agreement
mod Tests
use os_exploring.Common.{ℕ, ◌+◌, ◌-◌, Bool, Option, none, some, if◌then◌else◌}
use os_exploring.Storage.ContiguousDisk.{find_run, mark_run}

pub data Extent : Type 0 where
  null_extent : Extent
  extent : (start_block length : ℕ) (next : Extent) → Extent

pub record ExtentFile : Type 0 where
  pub name : ℕ → ℕ
  pub extent_list : Extent
  pub size : ℕ
  pub extent_count : ℕ

pub record ExtentAllocator : Type 0 where
  pub disk_blocks : ℕ → ℕ
  pub total_blocks : ℕ
  pub free_blocks : ℕ
  pub files : ℕ → ExtentFile
  pub max_files : ℕ

-- An entry of the table that calloc clears.
abbrev pub no_file : ExtentFile
no_file = record { name = λ _. 0; extent_list = null_extent; size = 0; extent_count = 0 }

-- The allocations succeed or not as the first argument says. The blocks come from malloc: `raw` is
-- what is in them.
unfoldable pub init_extent_allocator : Bool → (ℕ → ℕ) → ℕ → ℕ → Option ExtentAllocator
init_extent_allocator memory raw total_blocks max_files =
    if memory
    then some (record {
      disk_blocks = raw;
      total_blocks = total_blocks;
      free_blocks = total_blocks;
      files = λ _. no_file;
      max_files = max_files;
    })
    else none

-- The loop is the one of the contiguous allocation. Where it stops, `curr_len` is `desired_length`.
-- `memory` tells whether malloc has a node for the extent.
unfoldable pub allocate_extent : Bool → ExtentAllocator → ℕ → Extent × ExtentAllocator
unfolding find_run mark_run
allocate_extent memory a desired_length =
    elim (find_run a.total_blocks 0 0 0 a.disk_blocks desired_length) [
      | none ↦ (null_extent, a)
      | some start ↦
          if memory
          then (
            extent start desired_length null_extent,
            record a {
              disk_blocks = mark_run desired_length start a.disk_blocks;
              free_blocks = a.free_blocks - desired_length;
            },
          )
          else (null_extent, a)
    ]
