-- ===== src/Memory/Contiguous.antt =====
-- d17_Contiguous_Memory_Allocation: Memory_Allocation_Algo.c and Memory_Compaction.c.
-- The linked list of blocks is a list, a pointer to a block its position. Sizes are `size_t` values
-- whose sums stay below 2 ^ 64, as `allocMemory` refuses sizes above what is free.
mod Fit
mod Tiling
mod Compaction
mod Tests
use os_exploring.Common.{
  ℕ, zero, suc, ◌+◌, ◌-◌, Bool, true, false, not, ◌&&◌, ◌||◌, Option, none, some, List, [], ◌∷◌,
  ltb, leb, ◌==◌, if◌then◌else◌, find_range, get_or, ◌%◌, ◌^◌,
}

pub record MemoryBlock : Type 0 where
  pub size : ℕ
  pub start_address : ℕ
  pub is_allocated : Bool

pub record MemoryManager : Type 0 where
  pub blocks : List MemoryBlock
  pub total_size : ℕ
  pub free_size : ℕ
  pub allocated_strategy : ℕ

abbrev pub min_partition_size : ℕ
min_partition_size = 64

unfoldable pub init_memory_manager : ℕ → ℕ → MemoryManager
init_memory_manager size strategy = record {
  blocks = record { size = size; start_address = 0; is_allocated = false } ∷ [];
  total_size = size;
  free_size = size;
  allocated_strategy = strategy;
}

-- The test that the three searches share.
abbrev pub fits : MemoryBlock → ℕ → Bool
fits b size = not b.is_allocated && leb size b.size

unfoldable pub first_fit_from : ℕ → List MemoryBlock → ℕ → Option ℕ
first_fit_from i [] size = none
first_fit_from i (b ∷ bs) size =
    let rest = first_fit_from (i + 1) bs size in if fits b size then some i else rest

unfoldable pub first_fit : MemoryManager → ℕ → Option ℕ
unfolding first_fit_from
first_fit m size = first_fit_from 0 m.blocks size

-- The loop of `bestFit`, with its locals `smallest_diff` and `best_block`.
unfoldable pub best_fit_from : ℕ → List MemoryBlock → ℕ → ℕ → Option ℕ → Option ℕ
best_fit_from i [] size smallest best = best
best_fit_from i (b ∷ bs) size smallest best =
    let better = fits b size && ltb (b.size - size) smallest in
    best_fit_from (i + 1) bs size (if better then b.size - size else smallest)
      (if better then some i else best)

unfoldable pub best_fit : MemoryManager → ℕ → Option ℕ
unfolding best_fit_from
best_fit m size = best_fit_from 0 m.blocks size m.total_size none

unfoldable pub worst_fit_from : ℕ → List MemoryBlock → ℕ → ℕ → Option ℕ → Option ℕ
worst_fit_from i [] size largest worst = worst
worst_fit_from i (b ∷ bs) size largest worst =
    let better = fits b size && ltb largest (b.size - size) in
    worst_fit_from (i + 1) bs size (if better then b.size - size else largest)
      (if better then some i else worst)

unfoldable pub worst_fit : MemoryManager → ℕ → Option ℕ
unfolding worst_fit_from
worst_fit m size = worst_fit_from 0 m.blocks size 0 none

-- The `switch` of `allocMemory`.
unfoldable pub select_block : MemoryManager → ℕ → Option ℕ
unfolding first_fit best_fit worst_fit
select_block m size =
    if m.allocated_strategy == 1
    then first_fit m size
    else if m.allocated_strategy == 2
    then best_fit m size
    else if m.allocated_strategy == 3
    then worst_fit m size
    else first_fit m size

-- Splits the selected block if enough of it is left, and marks it.
unfoldable pub take_block : MemoryBlock → List MemoryBlock → ℕ → List MemoryBlock
take_block b bs size =
    if ltb (size + min_partition_size) b.size
    then record { size = size; start_address = b.start_address; is_allocated = true }
      ∷ record {
        size = b.size - size;
        start_address = b.start_address + size;
        is_allocated = false;
      }
      ∷ bs
    else record b { is_allocated = true } ∷ bs

unfoldable pub take_at : ℕ → List MemoryBlock → ℕ → List MemoryBlock
take_at i [] size = []
take_at zero (b ∷ bs) size = take_block b bs size
take_at (suc i) (b ∷ bs) size = b ∷ take_at i bs size

abbrev pub no_block : MemoryBlock
no_block = record { size = 0; start_address = 0; is_allocated = true }

-- The address comes back as a pointer, in which 0 is NULL.
unfoldable pub alloc_memory : MemoryManager → ℕ → ℕ × MemoryManager
unfolding select_block take_at take_block
alloc_memory m size =
    if ltb size min_partition_size || ltb m.free_size size
    then (0, m)
    else elim (select_block m size) [
      | none ↦ (0, m)
      | some i ↦
          let blocks = take_at i m.blocks size in
          let b = get_or blocks i no_block in
          (b.start_address, record m { blocks = blocks; free_size = m.free_size - b.size })
    ]

-- The first loop of `compactMemory`: the blocks in use move down, the others keep their address.
unfoldable pub slide : ℕ → List MemoryBlock → List MemoryBlock
slide new_address [] = []
slide new_address (b ∷ bs) =
    (if b.is_allocated then record b { start_address = new_address } else b)
    ∷ slide (if b.is_allocated then new_address + b.size else new_address) bs

-- The second loop: the free block at hand takes in the free blocks that follow it.
unfoldable pub merge_into : MemoryBlock → List MemoryBlock → List MemoryBlock
merge_into b [] = b ∷ []
merge_into b (c ∷ bs) =
    let merged = merge_into (record b { size = b.size + c.size }) bs in
    let kept = merge_into c bs in
    if not b.is_allocated && not c.is_allocated then merged else b ∷ kept

unfoldable pub merge_free : List MemoryBlock → List MemoryBlock
unfolding merge_into
merge_free [] = []
merge_free (b ∷ bs) = merge_into b bs

unfoldable pub compact_memory : MemoryManager → MemoryManager
unfolding slide merge_free
compact_memory m = record m { blocks = merge_free (slide 0 m.blocks) }
