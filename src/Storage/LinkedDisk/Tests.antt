-- ===== src/Storage/LinkedDisk/Tests.antt =====
-- A file of two blocks on a disk of four.
use os_exploring.Common.{
  NotIn, ℕ, ◌<◌, ◌≡◌, refl, true, none, some, [], ◌∷◌, arith, ◌==◌, if◌then◌else◌,
}
use os_exploring.Storage.LinkedDisk.{
  LinkedBlock, zero_block, LinkedAllocator, allocate_linked_block, fill_free_list,
  init_linked_allocator,
}
use os_exploring.Storage.LinkedDisk.Chain.{
  IsFile, allocate_linked_block-IsFile, init_linked_allocator-IsFile,
}

-- Block 2 follows block 3.
abbrev blocks : ℕ → LinkedBlock
blocks k =
    if k == 3
    then record zero_block { next_block = some 2 }
    else record zero_block { next_block = none }

abbrev two_linked : LinkedAllocator
two_linked = record { disk_blocks = blocks; total_blocks = 4; free_blocks = 2; free_list = λ k. k }

two_linked-IsFile : IsFile two_linked (2 ∷ 3 ∷ [])
two_linked-IsFile = record {
  linked = (refl, (refl, tt));
  distinct = ((omega arith, tt), (tt, tt));
  apart = λ k l. (omega arith, (omega arith, tt));
  once = λ i j l m. omega arith;
  inside = λ k l. omega arith;
}

third : (allocate_linked_block two_linked (some 2)).0 ≡ some 1
unfolding allocate_linked_block
third = refl

allocate_linked_block-IsFile_example :
    (1 < 4)
    × NotIn 1 (2 ∷ 3 ∷ [])
    × IsFile (allocate_linked_block two_linked (some 2)).1 (1 ∷ 2 ∷ 3 ∷ [])
allocate_linked_block-IsFile_example =
    allocate_linked_block-IsFile two_linked (2 ∷ 3 ∷ []) 1 two_linked-IsFile third

abbrev new_disk : LinkedAllocator
unfolding fill_free_list
new_disk =
    let (list, disk) = fill_free_list 4 ((λ _. 9), (λ _. zero_block)) in
    record { disk_blocks = disk; total_blocks = 4; free_blocks = 4; free_list = list }

starts_new : init_linked_allocator true (λ _. 9) 4 ≡ some new_disk
unfolding init_linked_allocator
starts_new = refl

init_linked_allocator-IsFile_run : IsFile new_disk []
init_linked_allocator-IsFile_run = init_linked_allocator-IsFile (λ _. 9) 4 new_disk starts_new
