-- ===== src/Memory/Pool/FreeList.antt =====
-- The list of free blocks: what pool_init makes, and what allocating and freeing do to it.
use os_exploring.Common.{
  ℕ, zero, suc, ◌+◌, ◌-◌, ◌^◌, ◌<◌, ◌≡◌, refl, inl, inr, true, false, some, List, [], ◌∷◌, arith,
  ◌==◌, Bool-cases, update, update_ne, update_self, length, NotIn, IsDistinct, some_pair,
}
use os_exploring.Memory.Pool.{MemoryPool, link_blocks, links, pool_init, pool_alloc, pool_free}

-- From `first` on the cells lead through the blocks `bs` to NULL.
abbrev pub IsList : (ℕ → ℕ) → ℕ → List ℕ → Type 0
IsList cells first [] = first ≡ 0
IsList cells first (b ∷ bs) = (first ≡ b) × (0 < b) × IsList cells (cells b) bs

pub record IsPool (pool : MemoryPool) (cells : ℕ → ℕ) (bs : List ℕ) : Type 0 where
  pub listed : IsList cells pool.free_list bs
  pub distinct : IsDistinct bs
  pub counted : pool.free_blocks ≡ length bs

IsList-update :
    (cells : ℕ → ℕ) (first x v : ℕ) (bs : List ℕ)
    → NotIn x bs
    → IsList cells first bs
    → IsList (update cells x v) first bs
IsList-update cells first x v [] n l = l
IsList-update cells first x v (b ∷ bs) (ne, n) (e, positive, l) =
    let rest = IsList-update cells (cells b) x v bs n l in
    (e, positive, rw (update_ne cells x b v ne) rest)

-- The addresses of `n` blocks and one more.
abbrev pub blocks_from : ℕ → ℕ → ℕ → List ℕ
blocks_from zero block size = block ∷ []
blocks_from (suc n) block size = block ∷ blocks_from n (block + size) size

link_blocks_below :
    (n block size : ℕ) (cells : ℕ → ℕ) (a : ℕ)
    → a < block
    → link_blocks n block size cells a ≡ cells a
unfolding link_blocks
link_blocks_below zero block size cells a below = ground arith
link_blocks_below (suc n) block size cells a below =
    let rest =
      link_blocks_below n (block + size) size (update cells block (block + size)) a (omega arith) in
    ground (arith, rest)

link_blocks-IsList :
    (n block size : ℕ) (cells : ℕ → ℕ)
    → 0 < block
    → 0 < size
    → IsList (link_blocks n block size cells) block (blocks_from n block size)
unfolding link_blocks
link_blocks-IsList zero block size cells positive room = (refl, positive, update_self cells block 0)
link_blocks-IsList (suc n) block size cells positive room =
    let cells' = update cells block (block + size) in
    let here = link_blocks_below n (block + size) size cells' block (omega arith) in
    let self = update_self cells block (block + size) in
    let rest = link_blocks-IsList n (block + size) size cells' (omega arith) room in
    (refl, positive, rw (here, self) rest)

blocks_from-NotIn : (n block size x : ℕ) → x < block → NotIn x (blocks_from n block size)
blocks_from-NotIn zero block size x below = (omega arith, tt)
blocks_from-NotIn (suc n) block size x below =
    (omega arith, blocks_from-NotIn n (block + size) size x (omega arith))

blocks_from-IsDistinct : (n block size : ℕ) → 0 < size → IsDistinct (blocks_from n block size)
blocks_from-IsDistinct zero block size room = (tt, tt)
blocks_from-IsDistinct (suc n) block size room = (
  blocks_from-NotIn n (block + size) size block (omega arith),
  blocks_from-IsDistinct n (block + size) size room,
)

length-blocks_from : (n block size : ℕ) → length (blocks_from n block size) ≡ n + 1
length-blocks_from zero block size = refl
length-blocks_from (suc n) block size = omega (arith, length-blocks_from n (block + size) size)

-- For at least one block of at least one byte, pool_init links all the blocks, each once.
pub pool_init-IsPool :
    (start block_size block_count : ℕ) (raw : ℕ → ℕ) (pool : MemoryPool) (cells : ℕ → ℕ)
    → 0 < block_size
    → 0 < block_count
    → block_count < 2 ^ 64
    → pool_init true start raw block_size block_count ≡ some (pool, cells)
    → IsPool pool cells (blocks_from (block_count - 1) start block_size)
unfolding pool_init
pool_init-IsPool start block_size block_count raw pool cells room some_ small e =
    elim (Bool-cases (start == 0)) [
      | inl null ↦ absurd (cc (rw (null, pool_init) at e))
      | inr given ↦
          let n : links block_count ≡ block_count - 1 = omega arith in
          let l =
            link_blocks-IsList (block_count - 1) start block_size raw (ground (arith, given))
              room in
          let made : IsPool
              (record {
                start = start;
                free_list = start;
                block_size = block_size;
                total_blocks = block_count;
                free_blocks = block_count;
              })
              (link_blocks (links block_count) start block_size raw)
              (blocks_from (block_count - 1) start block_size) =
            record {
              listed = rw n l;
              distinct = blocks_from-IsDistinct (block_count - 1) start block_size room;
              counted = omega (arith, length-blocks_from (block_count - 1) start block_size);
            } in
          let (same_pool, same_cells) = some_pair (rw (given, pool_init) at e) in
          rw (← same_pool, ← same_cells) made
    ]

-- Allocating from a pool with a free block returns the first of them, which is not NULL, and leaves
-- the others free.
pub pool_alloc-IsPool :
    (pool : MemoryPool) (cells : ℕ → ℕ) (b : ℕ) (bs : List ℕ)
    → IsPool pool cells (b ∷ bs)
    → ((pool_alloc pool cells).0 ≡ b)
      × (0 < b)
      × NotIn b bs
      × IsPool (pool_alloc pool cells).1 cells bs
unfolding pool_alloc
pool_alloc-IsPool pool cells b bs p =
    let (first, positive, rest) = p.listed in
    let (new, distinct) = p.distinct in
    let some_ : (pool.free_blocks == 0) ≡ false = ground (arith, p.counted) in
    rw (some_, pool_alloc, first)
      (
        refl,
        positive,
        new,
        record { listed = rest; distinct = distinct; counted = omega (arith, p.counted) },
      )

-- Freeing a block that is not free makes it the first free one, and allocating returns it and leaves
-- the list of free blocks and the count as they were.
pub pool_alloc-pool_free :
    (pool : MemoryPool) (cells : ℕ → ℕ) (b : ℕ) (bs : List ℕ)
    → IsPool pool cells bs
    → 0 < b
    → NotIn b bs
    → let (pool', cells') = pool_free pool cells b in
      IsPool pool' cells' (b ∷ bs) × (pool_alloc pool' cells' ≡ (b, pool))
unfolding pool_free pool_alloc
pool_alloc-pool_free pool cells b bs p positive new =
    let some_ : (b == 0) ≡ false = ground arith in
    let self = update_self cells b pool.free_list in
    let one : (pool.free_blocks + 1 == 0) ≡ false = ground arith in
    let back : pool.free_blocks + 1 - 1 ≡ pool.free_blocks = omega arith in
    rw some_ (
      record {
        listed = (
          refl,
          positive,
          rw self (IsList-update cells pool.free_list b pool.free_list bs new p.listed),
        );
        distinct = (new, p.distinct);
        counted = omega (arith, p.counted);
      },
      rw (one, self, back) refl,
    )
