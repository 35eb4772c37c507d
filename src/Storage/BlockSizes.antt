-- ===== src/Storage/BlockSizes.antt =====
-- block_size_optimization.c: small requests share standard blocks, which are split into sub-blocks.
-- What malloc and calloc return is an argument.
pub mod SubBlocks
mod Tests
use os_exploring.Common.{
  ℕ, zero, suc, ◌+◌, ◌-◌, ◌*◌, ◌/◌, Bool, true, false, not, ◌&&◌, Option, none, some, ltb, leb,
  if◌then◌else◌, update, find_range, all_range,
}

-- `data_start` is the address of the standard block.
pub record SubBlockGroup : Type 0 where
  pub data_start : ℕ
  pub bitmap : ℕ → Bool
  pub total_sub_blocks : ℕ
  pub free_sub_blocks : ℕ

pub record BlockSizeManager : Type 0 where
  pub standard_block_size : ℕ
  pub sub_block_size : ℕ
  pub blocks_per_group : ℕ
  pub sub_block_groups : ℕ → SubBlockGroup
  pub group_count : ℕ

-- The memory of the manager, of the array of the groups, and of each group's block and bitmap.
pub record Given : Type 0 where
  pub manager : Bool
  pub groups : Bool
  pub data_of : ℕ → Option ℕ
  pub bitmap_of : ℕ → Bool

unfoldable pub start_of : Option ℕ → ℕ
start_of none = 0
start_of (some address) = address

unfoldable pub is_given : Option ℕ → Bool
is_given none = false
is_given (some address) = true

unfoldable pub init_block_size_manager : Given → ℕ → ℕ → ℕ → Option BlockSizeManager
init_block_size_manager given std_size sub_size groups =
    if given.manager
      && (given.groups && all_range groups 0 (λ i. is_given (given.data_of i) && given.bitmap_of i))
    then some (record {
      standard_block_size = std_size;
      sub_block_size = sub_size;
      blocks_per_group = std_size / sub_size;
      sub_block_groups = λ i. record {
        data_start = start_of (given.data_of i);
        bitmap = λ j. false;
        total_sub_blocks = std_size / sub_size;
        free_sub_blocks = std_size / sub_size;
      };
      group_count = groups;
    })
    else none

-- The first free sub-block of a group that has one by its counter.
unfoldable pub find_in_group : BlockSizeManager → SubBlockGroup → Option ℕ
find_in_group m g =
    if ltb 0 g.free_sub_blocks
    then find_range m.blocks_per_group 0 (λ j. not (g.bitmap j))
    else none

unfoldable pub or_later : ℕ → Option ℕ → Option (ℕ × ℕ) → Option (ℕ × ℕ)
or_later i none rest = rest
or_later i (some j) rest = some (i, j)

-- The loop over the groups, with `left` of them from `i` on.
unfoldable pub find_sub_block : ℕ → ℕ → BlockSizeManager → Option (ℕ × ℕ)
find_sub_block zero i m = none
find_sub_block (suc left) i m =
    or_later i (find_in_group m (m.sub_block_groups i)) (find_sub_block left (i + 1) m)

abbrev pub mark_in : ℕ → SubBlockGroup → SubBlockGroup
mark_in j g = record g { bitmap = update g.bitmap j true; free_sub_blocks = g.free_sub_blocks - 1 }

unfoldable pub mark_sub_block : ℕ → ℕ → BlockSizeManager → BlockSizeManager
mark_sub_block i j m = record m {
  sub_block_groups = update m.sub_block_groups i (mark_in j (m.sub_block_groups i));
}

unfoldable pub sub_block_address : ℕ → ℕ → BlockSizeManager → ℕ
sub_block_address i j m = (m.sub_block_groups i).data_start + j * m.sub_block_size

unfoldable pub take_found :
    Option (ℕ × ℕ) → Option ℕ → BlockSizeManager → Option ℕ × BlockSizeManager
take_found none malloc m = (malloc, m)
take_found (some (i, j)) malloc m = (some (sub_block_address i j m), mark_sub_block i j m)

-- `malloc` is the standard block that the system would give.
unfoldable pub allocate_optimal_block :
    ℕ → Option ℕ → BlockSizeManager → Option ℕ × BlockSizeManager
allocate_optimal_block size malloc m =
    if leb size m.sub_block_size
    then take_found (find_sub_block m.group_count 0 m) malloc m
    else (malloc, m)
