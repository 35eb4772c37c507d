-- ===== src/Storage/DynamicDisk/Tests.antt =====
-- A disk of three blocks.
use os_exploring.Common.{
  ℕ, ◌≡◌, ◌<◌, ◌⊎◌, refl, true, false, none, some, List, [], ◌∷◌, for_range, write_range,
}
use os_exploring.Storage.DynamicDisk.{DynamicAllocator, init_dynamic_allocator, allocate_blocks}
use os_exploring.Storage.DynamicDisk.Stacks.{
  Gives, init_dynamic_allocator-IsStacked, allocate_blocks-Gives,
}

abbrev fresh : DynamicAllocator
fresh = record {
  disk_blocks = λ _. false;
  total_blocks = 3;
  free_blocks = 3;
  free_list = record { blocks = write_range (λ i _. i) 3 0 (λ _. 7); count = 3 };
  recently_freed = record { blocks = λ _. 9; count = 0 };
}

fresh_new : init_dynamic_allocator true (λ _. 7) (λ _. 9) 3 ≡ some fresh
unfolding init_dynamic_allocator
fresh_new = refl

two_blocks : (allocate_blocks true fresh 2).0 ≡ some (2 ∷ 1 ∷ [])
unfolding allocate_blocks for_range
two_blocks = refl

allocate_blocks-Gives_run :
    ((allocate_blocks true fresh 2 ≡ (none, fresh)) × ((3 < 2) ⊎ (true ≡ false)))
    ⊎ ((bs : List ℕ) × ((allocate_blocks true fresh 2).0 ≡ some bs)
        × Gives 2 fresh bs (allocate_blocks true fresh 2).1)
allocate_blocks-Gives_run =
    allocate_blocks-Gives true fresh 2
      (init_dynamic_allocator-IsStacked (λ _. 7) (λ _. 9) 3 fresh fresh_new)
