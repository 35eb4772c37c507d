-- ===== src/Memory/Pool/Advanced.antt =====
-- What align_size does to the advanced pool.
use Prim.Native.Nat.{bit_and, bit_and-bitwise, digits, min}
use os_exploring.Common.{
  ℕ, zero, suc, ◌+◌, ◌-◌, ◌/◌, ◌%◌, ◌^◌, ◌<◌, ◌≡◌, refl, true, false, some, arith, ◌==◌, update,
  update_self, some_pair,
}
use os_exploring.Memory.Pool.{
  MemoryPool, link_blocks, links, pool_alloc, align_size, advanced_pool_create,
}

digits-zero : (n a : ℕ) → digits (λ _. 0) min n a 0 ≡ 0
digits-zero zero a = refl
digits-zero (suc n) zero = refl
digits-zero (suc n) (suc a) = omega (arith, digits-zero n (suc a / 2))

bit_and-zero : (a : ℕ) → bit_and a 0 ≡ 0
bit_and-zero a = omega (arith, bit_and-bitwise a 0, digits-zero a a)

-- With an alignment of two or more, every size is aligned to 0.
align_size-zero :
    (size alignment : ℕ) → 1 < alignment → alignment < 2 ^ 64 → align_size size alignment ≡ 0
unfolding align_size
align_size-zero size alignment wide small =
    let less : ((alignment + 2 ^ 64 - 1) % 2 ^ 64 == 0) ≡ false = ground arith in
    rw less (bit_and-zero _)

-- Blocks of no size all lie at the first address, which leads to NULL in the end.
link_blocks_flat : (n block : ℕ) (cells : ℕ → ℕ) → link_blocks n block 0 cells block ≡ 0
unfolding link_blocks
link_blocks_flat zero block cells = update_self cells block 0
link_blocks_flat (suc n) block cells =
    let same : block + 0 ≡ block = omega arith in
    rw same (link_blocks_flat n block (update cells block block))

-- Whatever the size asked for, with an alignment of two or more and at least two blocks the blocks of
-- an advanced pool have size 0, and after one allocation the free list is NULL, though all blocks but
-- one count as free.
pub advanced_pool_create_flat :
    (start block_size block_count alignment : ℕ) (raw : ℕ → ℕ) (pool : MemoryPool) (cells : ℕ → ℕ)
    → 1 < alignment
    → alignment < 2 ^ 64
    → 1 < block_count
    → advanced_pool_create true (some start) raw block_size block_count alignment
      ≡ some (pool, cells)
    → (pool.block_size ≡ 0)
      × ((pool_alloc pool cells).0 ≡ start)
      × ((pool_alloc pool cells).1.free_list ≡ 0)
      × ((pool_alloc pool cells).1.free_blocks ≡ block_count - 1)
unfolding advanced_pool_create pool_alloc
advanced_pool_create_flat start block_size block_count alignment raw pool cells wide small many e =
    let zero_size = align_size-zero block_size alignment wide small in
    let (same_pool, same_cells) = some_pair (rw zero_size at e) in
    let some_ : (block_count == 0) ≡ false = ground arith in
    rw (← same_pool, ← same_cells, some_)
      (refl, refl, link_blocks_flat (links block_count) start raw, refl)
