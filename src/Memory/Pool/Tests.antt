-- ===== src/Memory/Pool/Tests.antt =====
-- Three blocks of 64 bytes from address 4096 on.

use os_exploring.Common.{ℕ, ◌-◌, ◌<◌, ◌≡◌, refl, true, some, [], ◌∷◌, arith, NotIn}
use os_exploring.Memory.Pool.{
  MemoryPool, link_blocks, pool_init, pool_alloc, pool_free, advanced_pool_create, align_size,
}
use os_exploring.Memory.Pool.FreeList.{
  IsPool, blocks_from, pool_init-IsPool, pool_alloc-IsPool, pool_alloc-pool_free,
}
use os_exploring.Memory.Pool.Advanced.{advanced_pool_create_flat}

abbrev three : MemoryPool
three = record {
  start = 4096;
  free_list = 4096;
  block_size = 64;
  total_blocks = 3;
  free_blocks = 3;
}

abbrev cells : ℕ → ℕ
unfolding link_blocks
cells = link_blocks 2 4096 64 (λ _. 9)

made : pool_init true 4096 (λ _. 9) 64 3 ≡ some (three, cells)
unfolding pool_init cells
made = refl

two_blocks_linked : IsPool three cells (blocks_from 2 4096 64)
two_blocks_linked =
    pool_init-IsPool 4096 64 3 (λ _. 9) three cells (omega arith) (omega arith) (omega arith) made

pool_alloc-IsPool_run :
    ((pool_alloc three cells).0 ≡ 4096)
    × (0 < 4096)
    × NotIn 4096 (4160 ∷ 4224 ∷ [])
    × IsPool (pool_alloc three cells).1 cells (4160 ∷ 4224 ∷ [])
pool_alloc-IsPool_run = pool_alloc-IsPool three cells 4096 (4160 ∷ 4224 ∷ []) two_blocks_linked

pool_alloc-pool_free_example :
    let (pool', cells') = pool_free three cells 5000 in
    IsPool pool' cells' (5000 ∷ blocks_from 2 4096 64) × (pool_alloc pool' cells' ≡ (5000, three))
pool_alloc-pool_free_example =
    pool_alloc-pool_free three cells 5000 (blocks_from 2 4096 64) two_blocks_linked (omega arith)
      (omega arith)

abbrev flat : MemoryPool
flat = record { start = 4096; free_list = 4096; block_size = 0; total_blocks = 3; free_blocks = 3 }

abbrev flat_cells : ℕ → ℕ
unfolding link_blocks
flat_cells = link_blocks 2 4096 0 (λ _. 9)

made_flat : advanced_pool_create true (some 4096) (λ _. 9) 64 3 8 ≡ some (flat, flat_cells)
unfolding advanced_pool_create flat_cells align_size
made_flat = refl

advanced_pool_create_flat_run :
    (flat.block_size ≡ 0)
    × ((pool_alloc flat flat_cells).0 ≡ 4096)
    × ((pool_alloc flat flat_cells).1.free_list ≡ 0)
    × ((pool_alloc flat flat_cells).1.free_blocks ≡ 3 - 1)
advanced_pool_create_flat_run =
    advanced_pool_create_flat 4096 64 3 8 (λ _. 9) flat flat_cells (omega arith) (omega arith)
      (omega arith) made_flat
