-- ===== src/Memory/Pool.antt =====
-- Memory_Pool.c: blocks of one size, with the list of free blocks kept inside the blocks themselves.
-- An address is a number, 0 is NULL, and `cells` has the pointer at the start of each block; a block
-- has room for a pointer. size_t wraps at 2 ^ 64.
pub mod FreeList
pub mod Advanced
mod Tests
use Prim.Native.Nat.{bit_and}
use os_exploring.Common.{
  ℕ, zero, suc, ◌+◌, ◌-◌, ◌*◌, ◌%◌, ◌^◌, Bool, Option, none, some, ◌==◌, if◌then◌else◌, update,
}

pub record MemoryPool : Type 0 where
  pub start : ℕ
  pub free_list : ℕ
  pub block_size : ℕ
  pub total_blocks : ℕ
  pub free_blocks : ℕ

-- The loop that links the blocks, with the NULL that is written into the last one.
unfoldable pub link_blocks : ℕ → ℕ → ℕ → (ℕ → ℕ) → ℕ → ℕ
link_blocks zero block block_size cells = update cells block 0
link_blocks (suc n) block block_size cells =
    link_blocks n (block + block_size) block_size (update cells block (block + block_size))

-- block_count - 1, as a size_t.
abbrev pub links : ℕ → ℕ
links block_count = (block_count + 2 ^ 64 - 1) % 2 ^ 64

-- `pool_memory` tells whether malloc has room for the struct, `start` is what it returns for the
-- blocks, and `cells` what the memory holds.
unfoldable pub pool_init : Bool → ℕ → (ℕ → ℕ) → ℕ → ℕ → Option (MemoryPool × (ℕ → ℕ))
unfolding link_blocks
pool_init pool_memory start cells block_size block_count =
    let linked = link_blocks (links block_count) start block_size cells in
    if pool_memory
    then (if start == 0
        then none
        else some (
          record {
            start = start;
            free_list = start;
            block_size = block_size;
            total_blocks = block_count;
            free_blocks = block_count;
          },
          linked,
        ))
    else none

unfoldable pub pool_alloc : MemoryPool → (ℕ → ℕ) → ℕ × MemoryPool
pool_alloc pool cells = if pool.free_blocks == 0 then (0, pool) else (
  pool.free_list,
  record pool { free_list = cells pool.free_list; free_blocks = pool.free_blocks - 1 },
)

unfoldable pub pool_free : MemoryPool → (ℕ → ℕ) → ℕ → MemoryPool × (ℕ → ℕ)
pool_free pool cells block = if block == 0 then (pool, cells) else (
  record pool { free_list = block; free_blocks = pool.free_blocks + 1 },
  update cells block pool.free_list,
)

-- (size + (alignment - 1)) & !(alignment - 1), in which `!` is the logical negation.
unfoldable pub align_size : ℕ → ℕ → ℕ
align_size size alignment =
    let less = (alignment + 2 ^ 64 - 1) % 2 ^ 64 in
    bit_and ((size + less) % 2 ^ 64) (if less == 0 then 1 else 0)

-- The fields that AdvancedMemoryPool shares with MemoryPool; `alignment` is never read, `flags` and
-- `cleanup_callback` are never set. `start` is what posix_memalign hands out.
unfoldable pub advanced_pool_create :
    Bool → Option ℕ → (ℕ → ℕ) → ℕ → ℕ → ℕ → Option (MemoryPool × (ℕ → ℕ))
unfolding link_blocks align_size
advanced_pool_create pool_memory memory cells block_size block_count alignment =
    let aligned_size = align_size block_size alignment in
    if pool_memory
    then elim memory [
      | none ↦ none
      | some start ↦ some (
        record {
          start = start;
          free_list = start;
          block_size = aligned_size;
          total_blocks = block_count;
          free_blocks = block_count;
        },
        link_blocks (links block_count) start aligned_size cells,
      )
    ]
    else none
