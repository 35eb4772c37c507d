-- ===== src/Memory/CustomHeap.antt =====
-- Custom_Memory_Allocator.c: a list of free blocks, a list of blocks in use, and best fit.
-- The lists that the pointers make are lists. A pointer to a block of the free list is its position
-- there, one to a block in use is the address of its header. The sizes are those of x86-64.
pub mod Sums
pub mod Faults
mod Tests
use Prim.Native.Nat.{bit_and}
use os_exploring.Common.{
  ℕ, zero, suc, ◌+◌, ◌-◌, ◌%◌, ◌^◌, Bool, true, false, not, ◌&&◌, Option, none, some, List, [], ◌∷◌,
  ◌++◌, ltb, leb, ◌==◌, if◌then◌else◌,
}

abbrev pub alignment : ℕ
alignment = 16

-- sizeof(block_t): the last field takes one byte, and the struct is padded.
abbrev pub block_size : ℕ
block_size = 40

-- The offset of `data` in block_t.
abbrev pub data_offset : ℕ
data_offset = 32

-- (size + (ALIGNMENT - 1)) & ~(ALIGNMENT - 1)
unfoldable pub align : ℕ → ℕ
align size = bit_and ((size + (alignment - 1)) % 2 ^ 64) (2 ^ 64 - alignment)

pub record CustomBlock : Type 0 where
  pub address : ℕ
  pub is_free : Bool
  pub size : ℕ

pub record CustomHeap : Type 0 where
  pub free_list : List CustomBlock
  pub used_list : List CustomBlock
  pub total_size : ℕ
  pub used_size : ℕ

abbrev free_block_at : ℕ → ℕ → CustomBlock
free_block_at address size = record { address = address; is_free = true; size = size }

-- `memory` is what sbrk returns, `none` for a failure.
unfoldable pub init_heap : CustomHeap → Option ℕ → ℕ → CustomHeap
unfolding align
init_heap heap none ini_size = heap
init_heap heap (some memory) ini_size = record heap {
  free_list = free_block_at memory (align ini_size) ∷ [];
  total_size = align ini_size;
  used_size = 0;
}

-- The body of the search loop at position `i`. The test `diff = 0` assigns, so the loop never stops
-- early.
unfoldable pub better_fit : ℕ → ℕ → CustomBlock → ℕ × Option ℕ → ℕ × Option ℕ
better_fit size i curr s =
    let diff = curr.size - size in
    if curr.is_free && leb size curr.size && ltb diff s.0 then (diff, some i) else s

unfoldable pub fit_from : List CustomBlock → ℕ → ℕ → ℕ × Option ℕ → ℕ × Option ℕ
unfolding better_fit
fit_from [] size i s = s
fit_from (curr ∷ rest) size i s = fit_from rest size (i + 1) (better_fit size i curr s)

unfoldable pub find_best_fit : CustomHeap → ℕ → Option ℕ
unfolding fit_from
find_best_fit heap size = (fit_from heap.free_list size 0 (2 ^ 64 - 1, none)).1

-- The block, cut down to `size` if enough is left over, and the block that is left over.
unfoldable pub split_block : CustomBlock → ℕ → CustomBlock × List CustomBlock
split_block block size =
    let remaining_size = block.size - size in
    if ltb (block_size + alignment) remaining_size
    then (record block { size = size }, free_block_at (block.address + size) remaining_size ∷ [])
    else (block, [])

-- The block at a position, split, and the list without it.
unfoldable pub take_at : ℕ → ℕ → List CustomBlock → Option (CustomBlock × List CustomBlock)
unfolding split_block
take_at i size [] = none
take_at zero size (b ∷ bs) = let (block, rest) = split_block b size in some (block, rest ++ bs)
take_at (suc i) size (b ∷ bs) = elim (take_at i size bs) [
  | none ↦ none
  | some (block, rest) ↦ some (block, b ∷ rest)
]

-- The block at that position is marked, moved to the list of blocks in use, and returned.
unfoldable pub hand_over : CustomHeap → ℕ → ℕ → Option ℕ × CustomHeap
unfolding take_at
hand_over heap total_size i = elim (take_at i total_size heap.free_list) [
  | none ↦ (none, heap)
  | some (block, rest) ↦ (
    some (block.address + data_offset),
    record heap {
      free_list = rest;
      used_list = record block { is_free = false } ∷ heap.used_list;
      used_size = heap.used_size + block.size;
    },
  )
]

-- The block that more memory makes; it comes first in the free list.
abbrev pub grow : CustomHeap → ℕ → ℕ → CustomHeap
grow heap memory request_size = record heap {
  free_list = free_block_at memory request_size ∷ heap.free_list;
  total_size = heap.total_size + request_size;
}

abbrev pub request_of : ℕ → ℕ
request_of total_size = if ltb 4096 total_size then total_size else 4096

-- `memory` is what sbrk returns if it is called.
unfoldable pub custom_malloc : CustomHeap → Option ℕ → ℕ → Option ℕ × CustomHeap
unfolding align find_best_fit hand_over
custom_malloc heap memory size =
    let total_size = align ((size + block_size) % 2 ^ 64) in
    if size == 0 then (none, heap) else elim (find_best_fit heap total_size) [
      | some i ↦ hand_over heap total_size i
      | none ↦ elim memory [
        | none ↦ (none, heap)
        | some m ↦ hand_over (grow heap m (request_of total_size)) total_size 0
      ]
    ]

-- The block comes first in the free list, so it has no previous block to be merged into.
unfoldable pub coalesce_blocks : CustomBlock → List CustomBlock → List CustomBlock
coalesce_blocks block [] = block ∷ []
coalesce_blocks block (n ∷ ns) =
    if n.is_free then record block { size = block.size + n.size } ∷ ns else block ∷ n ∷ ns

-- The block in use with that header, and the others.
unfoldable pub take_used : ℕ → List CustomBlock → Option (CustomBlock × List CustomBlock)
take_used p [] = none
take_used p (b ∷ bs) =
    let later : Option (CustomBlock × List CustomBlock) = elim (take_used p bs) [
      | none ↦ none
      | some (block, rest) ↦ some (block, b ∷ rest)
    ] in
    if b.address == p then some (b, bs) else later

-- What follows once the header is known; `none` if no block in use has it, which is undefined.
unfoldable pub free_header : CustomHeap → ℕ → Option CustomHeap
unfolding take_used coalesce_blocks
free_header heap p = elim (take_used p heap.used_list) [
  | none ↦ none
  | some (block, rest) ↦ some (record heap {
    free_list = coalesce_blocks (record block { is_free = true }) heap.free_list;
    used_list = rest;
    used_size = heap.used_size - block.size;
  })
]

-- 0 is NULL.
unfoldable pub custom_free : CustomHeap → ℕ → Option CustomHeap
unfolding free_header
custom_free heap ptr =
    if ptr == 0 then some heap else free_header heap ((ptr + 2 ^ 64 - block_size) % 2 ^ 64)
