-- ===== src/Memory/VariableBlocks/Tests.antt =====
-- An allocator of 512 bytes, from its first request on.
use os_exploring.Common.{◌≡◌, refl, ◌⊎◌, none, some, arith}
use os_exploring.Memory.VariableBlocks.{
  VariableBlock, VariableAllocator, init_variable_allocator, allocate_variable_block,
}
use os_exploring.Memory.VariableBlocks.BestFit.{In, CanHold}
use os_exploring.Memory.VariableBlocks.Splitting.{
  IsTiled, Serves, init_variable_allocator-IsTiled, allocate_variable_block_lem,
}

abbrev fresh : VariableAllocator
fresh = init_variable_allocator 4096 512

-- The second block starts behind the first.
two_requests : (allocate_variable_block (allocate_variable_block fresh 100).1 40).0 ≡ some 4260
unfolding allocate_variable_block init_variable_allocator
two_requests = refl

no_room : (allocate_variable_block fresh 481).0 ≡ none
unfolding allocate_variable_block init_variable_allocator
no_room = refl

allocate_variable_block_example :
    IsTiled (allocate_variable_block fresh 100).1
    × ((((b : VariableBlock) → In b fresh.free_list → ¬ CanHold 100 b)
          × (allocate_variable_block fresh 100 ≡ (none, fresh)))
        ⊎ ((b : VariableBlock) × Serves fresh 100 b))
allocate_variable_block_example =
    allocate_variable_block_lem fresh 100
      (init_variable_allocator-IsTiled 4096 512 (omega arith) (omega arith))
