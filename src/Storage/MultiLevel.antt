-- ===== src/Storage/MultiLevel.antt =====
-- multi_level_index_allocation.c: a file's blocks through direct, single, double and triple indirect
-- pointers. The contents of the indirect blocks are a function of the block and the place in it.
pub mod Addresses
mod Tests
use os_exploring.Common.{
  ℕ, ◌-◌, ◌*◌, ◌/◌, ◌%◌, Bool, ◌&&◌, Option, none, some, ltb, if◌then◌else◌, write_range,
}

abbrev pub block_size : ℕ
block_size = 1024

abbrev pub direct_blocks : ℕ
direct_blocks = 12

-- (1024 - 72) / 4: the struct takes 72 bytes, an int takes 4.
abbrev pub indirect_blocks : ℕ
indirect_blocks = 238

pub record MultiLevelIndex : Type 0 where
  pub direct : ℕ → ℕ
  pub single_indirect : ℕ
  pub double_indirect : ℕ
  pub triple_indirect : ℕ
  pub file_size : ℕ

pub record MultiLevelAllocator : Type 0 where
  pub idx_table : ℕ → MultiLevelIndex
  pub blocks : ℕ → ℕ → ℕ
  pub total_blocks : ℕ
  pub free_blocks : ℕ
  pub free_list : ℕ → ℕ

-- Which of the calls of malloc succeed, and what is in the memory that they give.
pub record Memory : Type 0 where
  pub allocator : Bool
  pub disk : Bool
  pub tables : Bool
  pub indirect : Bool
  pub list : Bool
  pub table_contents : ℕ → MultiLevelIndex
  pub block_contents : ℕ → ℕ → ℕ
  pub list_contents : ℕ → ℕ

abbrev zero_index : MultiLevelIndex
zero_index = record {
  direct = λ _. 0;
  single_indirect = 0;
  double_indirect = 0;
  triple_indirect = 0;
  file_size = 0;
}

unfoldable pub init_multilevel_allocator : Memory → ℕ → Option MultiLevelAllocator
init_multilevel_allocator m total_blocks =
    if m.allocator && (m.disk && (m.tables && (m.indirect && m.list)))
    then some (record {
      idx_table = write_range (λ _ _. zero_index) total_blocks 0 m.table_contents;
      blocks = m.block_contents;
      total_blocks = total_blocks;
      free_blocks = total_blocks;
      free_list = write_range (λ i _. i) total_blocks 0 m.list_contents;
    })
    else none

unfoldable pub triple_address : MultiLevelAllocator → MultiLevelIndex → ℕ → Option ℕ
triple_address a idx block_num =
    if ltb block_num (indirect_blocks * indirect_blocks * indirect_blocks)
    then (let indirect_idx = block_num / indirect_blocks / indirect_blocks in
        let block_idx = block_num % indirect_blocks % indirect_blocks in
        some (a.blocks (a.blocks idx.triple_indirect indirect_idx) block_idx))
    else none

unfoldable pub double_address : MultiLevelAllocator → MultiLevelIndex → ℕ → Option ℕ
double_address a idx block_num =
    if ltb block_num (indirect_blocks * indirect_blocks)
    then (let indirect_idx = block_num / indirect_blocks in
        let block_idx = block_num % indirect_blocks in
        some (a.blocks (a.blocks idx.double_indirect indirect_idx) block_idx))
    else triple_address a idx (block_num - indirect_blocks)

unfoldable pub single_address : MultiLevelAllocator → MultiLevelIndex → ℕ → Option ℕ
single_address a idx block_num =
    if ltb block_num indirect_blocks
    then some (a.blocks idx.single_indirect block_num)
    else double_address a idx (block_num - indirect_blocks)

unfoldable pub get_block_address : MultiLevelAllocator → MultiLevelIndex → ℕ → Option ℕ
get_block_address a idx block_num =
    if ltb block_num direct_blocks
    then some (idx.direct block_num)
    else single_address a idx (block_num - direct_blocks)
