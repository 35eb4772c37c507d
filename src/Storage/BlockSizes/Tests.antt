-- ===== src/Storage/BlockSizes/Tests.antt =====
-- Two groups of four sub-blocks of 256 bytes.
use os_exploring.Common.{
  ◌≡◌, refl, arith, true, false, none, some, count_range, all_range, find_range,
}
use os_exploring.Storage.BlockSizes.SubBlocks.{IsCounted, Served, allocate_optimal_block-Served}
use os_exploring.Storage.BlockSizes.{
  BlockSizeManager, init_block_size_manager, start_of, is_given, allocate_optimal_block,
  find_sub_block, find_in_group, or_later, take_found, sub_block_address, mark_sub_block,
}

abbrev manager : BlockSizeManager
manager = record {
  standard_block_size = 1024;
  sub_block_size = 256;
  blocks_per_group = 4;
  sub_block_groups = λ i. record {
    data_start = 5000;
    bitmap = λ j. false;
    total_sub_blocks = 4;
    free_sub_blocks = 4;
  };
  group_count = 2;
}

manager_made :
    init_block_size_manager
      (record { manager = true; groups = true; data_of = λ _. some 5000; bitmap_of = λ _. true })
      1024
      256
      2
    ≡ some manager
unfolding init_block_size_manager all_range start_of is_given
manager_made = refl

manager-IsCounted : IsCounted manager
unfolding count_range
manager-IsCounted = record { group = λ i low. refl }

-- The second of two requests gets the second sub-block.
second : (allocate_optimal_block 100 none (mark_sub_block 0 0 manager)).0 ≡ some 5256
unfolding allocate_optimal_block find_sub_block find_in_group find_range or_later take_found
    sub_block_address mark_sub_block
second = refl

allocate_optimal_block-Served_example : Served 100 none manager
allocate_optimal_block-Served_example =
    allocate_optimal_block-Served 100 none manager manager-IsCounted (omega arith)
