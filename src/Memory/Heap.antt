-- ===== src/Memory/Heap.antt =====
-- First_Fit_alloc.c: a heap of blocks with headers, first fit, with merging when a block is freed.
-- The list of blocks that the `next` pointers make is a list, in which `prev` is the block before. A
-- block has the address of its header; sizes are far below 2 ^ 64, where size_t would wrap.
pub mod Layout
pub mod Alloc
pub mod Free
mod Tests
use os_exploring.Common.{
  ℕ, ◌+◌, ◌-◌, ◌%◌, ◌^◌, Bool, true, false, not, ◌&&◌, Option, none, some, List, [], ◌∷◌, ltb, leb,
  ◌==◌, if◌then◌else◌,
}

-- sizeof(MemoryBlock), with 8-byte pointers and sizes.
abbrev pub header : ℕ
header = 32

abbrev pub min_block_size : ℕ
min_block_size = 16

pub record HeapBlock : Type 0 where
  pub address : ℕ
  pub size : ℕ
  pub is_allocated : Bool

pub record HeapManager : Type 0 where
  pub memory : ℕ
  pub free_list : List HeapBlock
  pub total_size : ℕ
  pub used_size : ℕ

-- `memory` is what malloc returns for the heap.
unfoldable pub initialize_memory_manager : ℕ → ℕ → HeapManager
initialize_memory_manager memory size = record {
  memory = memory;
  free_list =
      record { address = memory; size = (size + 2 ^ 64 - header) % 2 ^ 64; is_allocated = false }
      ∷ [];
  total_size = size;
  used_size = 0;
}

-- The block that was found, and what stands in its place: it is split if enough is left over.
unfoldable pub split_block : HeapBlock → ℕ → HeapBlock × List HeapBlock
split_block b size =
    let whole = record b { is_allocated = true } in
    let part = record b { size = size; is_allocated = true } in
    let rest : HeapBlock = record {
      address = b.address + header + size;
      size = b.size - size - header;
      is_allocated = false;
    } in
    if leb (size + header + min_block_size) b.size
    then (part, part ∷ rest ∷ [])
    else (whole, whole ∷ [])

abbrev pub put_back : List HeapBlock → List HeapBlock → List HeapBlock
put_back [] bs = bs
put_back (x ∷ xs) bs = x ∷ put_back xs bs

abbrev pub behind :
    HeapBlock → Option (HeapBlock × List HeapBlock) → Option (HeapBlock × List HeapBlock)
behind b none = none
behind b (some (c, bs)) = some (c, b ∷ bs)

-- The `while` loop of `memoryAlloc`: the block handed out, and the blocks afterwards.
unfoldable pub alloc_from : List HeapBlock → ℕ → Option (HeapBlock × List HeapBlock)
unfolding split_block
alloc_from [] size = none
alloc_from (b ∷ bs) size =
    let (c, parts) = split_block b size in
    let later = behind b (alloc_from bs size) in
    if not b.is_allocated && leb size b.size then some (c, put_back parts bs) else later

-- The pointer returned is the address behind the header; `none` is NULL.
unfoldable pub memory_alloc : HeapManager → ℕ → Option ℕ × HeapManager
unfolding alloc_from
memory_alloc m size = elim (alloc_from m.free_list size) [
  | none ↦ (none, m)
  | some (c, bs) ↦ (
    some (c.address + header),
    record m { free_list = bs; used_size = m.used_size + (c.size + header) },
  )
]

-- The block with that address.
unfoldable pub find_block : ℕ → List HeapBlock → Option HeapBlock
find_block p [] = none
find_block p (b ∷ bs) = if b.address == p then some b else find_block p bs

-- Merge a free block with the next one, if that is free.
unfoldable pub merge_next : HeapBlock → List HeapBlock → List HeapBlock
merge_next b [] = b ∷ []
merge_next b (n ∷ ns) =
    if n.is_allocated then b ∷ n ∷ ns else record b { size = b.size + (n.size + header) } ∷ ns

-- Merge the freed block, which comes first in the list, into the one before it, if that is free.
unfoldable pub merge_previous : HeapBlock → List HeapBlock → List HeapBlock
merge_previous a [] = a ∷ []
merge_previous a (b ∷ bs) =
    if a.is_allocated then a ∷ b ∷ bs else record a { size = a.size + (b.size + header) } ∷ bs

abbrev pub freed : HeapBlock → HeapBlock
freed b = record b { is_allocated = false }

-- The blocks after the one at `p` is freed; `a` is the block before the list.
unfoldable pub free_behind : ℕ → HeapBlock → List HeapBlock → List HeapBlock
unfolding merge_next merge_previous
free_behind p a [] = a ∷ []
free_behind p a (b ∷ bs) =
    let later = a ∷ free_behind p b bs in
    if b.address == p then merge_previous a (merge_next (freed b) bs) else later

unfoldable pub free_in : ℕ → List HeapBlock → List HeapBlock
unfolding free_behind
free_in p [] = []
free_in p (b ∷ bs) = if b.address == p then merge_next (freed b) bs else free_behind p b bs

-- 0 is NULL. A pointer that no block has, which the source takes for one, changes nothing here.
unfoldable pub memory_free : HeapManager → ℕ → HeapManager
unfolding find_block free_in
memory_free m ptr = if ptr == 0 then m else elim (find_block (ptr - header) m.free_list) [
  | none ↦ m
  | some b ↦ record m {
    free_list = free_in (ptr - header) m.free_list;
    used_size = m.used_size - (b.size + header);
  }
]
