-- ===== src/Storage/LinkedDisk.antt =====
-- linked_allocations.c: blocks linked into files, with a stack of free blocks.
-- `none` is the -1 of the source.
pub mod Chain
mod Tests
use os_exploring.Common.{
  ℕ, ◌+◌, ◌-◌, Bool, Option, none, some, ◌==◌, if◌then◌else◌, update, for_range,
}

pub record LinkedBlock : Type 0 where
  pub block_num : ℕ
  pub next_block : Option ℕ
  pub bytes : ℕ → ℕ

pub record LinkedAllocator : Type 0 where
  pub disk_blocks : ℕ → LinkedBlock
  pub total_blocks : ℕ
  pub free_blocks : ℕ
  pub free_list : ℕ → ℕ

-- A block that calloc clears.
abbrev pub zero_block : LinkedBlock
zero_block = record { block_num = 0; next_block = some 0; bytes = λ _. 0 }

-- for (i = 0; i < total; i++) { free_list[i] = i; disk_blocks[i].next_block = -1; }
unfoldable pub fill_free_list : ℕ → (ℕ → ℕ) × (ℕ → LinkedBlock) → (ℕ → ℕ) × (ℕ → LinkedBlock)
unfolding for_range
fill_free_list total st =
    for_range total 0
      (λ i (list, disk). (update list i i, update disk i (record (disk i) { next_block = none })))
      st

-- The allocations succeed or not as the first argument says; `raw` is what malloc leaves in the list.
unfoldable pub init_linked_allocator : Bool → (ℕ → ℕ) → ℕ → Option LinkedAllocator
unfolding fill_free_list
init_linked_allocator memory raw total_blocks =
    let (list, disk) = fill_free_list total_blocks (raw, λ _. zero_block) in
    if memory
    then some (record {
      disk_blocks = disk;
      total_blocks = total_blocks;
      free_blocks = total_blocks;
      free_list = list;
    })
    else none

-- if (previous_block != -1) disk_blocks[previous_block].next_block = new_block
unfoldable pub link_previous : Option ℕ → ℕ → (ℕ → LinkedBlock) → ℕ → LinkedBlock
link_previous none new_block disk = disk
link_previous (some previous) new_block disk =
    update disk previous (record (disk previous) { next_block = some new_block })

unfoldable pub allocate_linked_block : LinkedAllocator → Option ℕ → Option ℕ × LinkedAllocator
unfolding link_previous
allocate_linked_block a previous_block =
    let left = a.free_blocks - 1 in
    let new_block = a.free_list left in
    let disk = link_previous previous_block new_block a.disk_blocks in
    if a.free_blocks == 0 then (none, a) else (
      some new_block,
      record a {
        disk_blocks =
            update disk new_block
              (record (disk new_block) { block_num = new_block; next_block = none });
        free_blocks = left;
      },
    )
