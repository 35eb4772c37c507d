-- ===== src/Storage/DynamicDisk.antt =====
-- d27_File_Allocation_Methods/dynamic_block_allocation.c: blocks from two stacks of free ones.
pub mod Stacks
mod Tests
use os_exploring.Common.{
  ℕ, zero, suc, ◌+◌, ◌-◌, Bool, true, false, Option, none, some, List, [], ◌∷◌, ltb, ◌==◌,
  if◌then◌else◌, update, for_range, write_range,
}

-- `free_list` and `recently_freed`: the blocks below the count.
pub record BlockStack : Type 0 where
  pub blocks : ℕ → ℕ
  pub count : ℕ

-- `disk_blocks` has true for a block in use.
pub record DynamicAllocator : Type 0 where
  pub disk_blocks : ℕ → Bool
  pub total_blocks : ℕ
  pub free_blocks : ℕ
  pub free_list : BlockStack
  pub recently_freed : BlockStack

-- Whether malloc has room is the first argument; `raw` is what it leaves in the two arrays.
unfoldable pub init_dynamic_allocator : Bool → (ℕ → ℕ) → (ℕ → ℕ) → ℕ → Option DynamicAllocator
unfolding for_range
init_dynamic_allocator false raw raw_recent total_blocks = none
init_dynamic_allocator true raw raw_recent total_blocks = some (record {
  disk_blocks = λ _. false;
  total_blocks = total_blocks;
  free_blocks = total_blocks;
  free_list = record { blocks = write_range (λ i _. i) total_blocks 0 raw; count = total_blocks };
  recently_freed = record { blocks = raw_recent; count = 0 };
})

abbrev pub pop : BlockStack → BlockStack
pop s = record s { count = s.count - 1 }

-- blocks[count - 1]
abbrev pub top : BlockStack → ℕ
top s = s.blocks (s.count - 1)

abbrev pub mark_used : DynamicAllocator → ℕ → DynamicAllocator
mark_used a b = record a {
  disk_blocks = update a.disk_blocks b true;
  free_blocks = a.free_blocks - 1;
}

-- The body of the loop: the block that is taken.
unfoldable pub take_dynamic : DynamicAllocator → ℕ × DynamicAllocator
take_dynamic a =
    if ltb 0 a.recently_freed.count
    then (
      top a.recently_freed,
      mark_used (record a { recently_freed = pop a.recently_freed }) (top a.recently_freed),
    )
    else (top a.free_list, mark_used (record a { free_list = pop a.free_list }) (top a.free_list))

-- The loop: the blocks in the order of `allocated`.
unfoldable pub take_all : ℕ → DynamicAllocator → List ℕ × DynamicAllocator
unfolding take_dynamic
take_all zero a = ([], a)
take_all (suc n) a =
    let (b, now) = take_dynamic a in let (bs, end) = take_all n now in (b ∷ bs, end)

-- `room` tells whether malloc has room for the result.
unfoldable pub allocate_blocks : Bool → DynamicAllocator → ℕ → Option (List ℕ) × DynamicAllocator
unfolding take_all
allocate_blocks room a count =
    let (bs, end) = take_all count a in
    if ltb a.free_blocks count then (none, a) else if room then (some bs, end) else (none, a)
