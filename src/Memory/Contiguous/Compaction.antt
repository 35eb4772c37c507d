-- ===== src/Memory/Contiguous/Compaction.antt =====
-- What `compactMemory` of Memory_Compaction.c keeps, and what it leaves.
use os_exploring.Common.{
  ℕ, ◌+◌, ◌≡◌, refl, ◌∙◌, inl, inr, true, not, ◌&&◌, ◌||◌, arith, List, [], ◌∷◌, Bool-cases,
  if◌then◌else◌,
}
use os_exploring.Memory.Contiguous.{
  MemoryBlock, MemoryManager, slide, merge_into, merge_free, compact_memory,
}
use os_exploring.Memory.Contiguous.Tiling.{free_bytes}

abbrev pub used_bytes : List MemoryBlock → ℕ
used_bytes [] = 0
used_bytes (b ∷ bs) = (if b.is_allocated then b.size else 0) + used_bytes bs

-- No free block follows a free block, `b` included.
abbrev pub NoFreeAfter : MemoryBlock → List MemoryBlock → Type 0
NoFreeAfter b [] = Unit
NoFreeAfter b (c ∷ bs) = ((b.is_allocated || c.is_allocated) ≡ true) × NoFreeAfter c bs

abbrev pub IsMerged : List MemoryBlock → Type 0
IsMerged [] = Unit
IsMerged (b ∷ bs) = NoFreeAfter b bs

slide_bytes :
    (a : ℕ) (bs : List MemoryBlock)
    → (free_bytes (slide a bs) ≡ free_bytes bs) × (used_bytes (slide a bs) ≡ used_bytes bs)
unfolding slide
slide_bytes a [] = (refl, refl)
slide_bytes a (b ∷ bs) = ground (arith, slide_bytes (if b.is_allocated then a + b.size else a) bs)

merge_into_bytes :
    (b : MemoryBlock) (bs : List MemoryBlock)
    → (free_bytes (merge_into b bs) ≡ free_bytes (b ∷ bs))
      × (used_bytes (merge_into b bs) ≡ used_bytes (b ∷ bs))
unfolding merge_into
merge_into_bytes b [] = (refl, refl)
merge_into_bytes b (c ∷ bs) =
    ground (arith, merge_into_bytes (record b { size = b.size + c.size }) bs, merge_into_bytes c bs)

merge_into-NoFreeAfter :
    (before b : MemoryBlock) (bs : List MemoryBlock)
    → (before.is_allocated || b.is_allocated) ≡ true
    → NoFreeAfter before (merge_into b bs)
unfolding merge_into
merge_into-NoFreeAfter before b [] h = (h, tt)
merge_into-NoFreeAfter before b (c ∷ bs) h =
    elim (Bool-cases (not b.is_allocated && not c.is_allocated)) [
      | inl both ↦
          rw both (merge_into-NoFreeAfter before (record b { size = b.size + c.size }) bs h)
      | inr one ↦ rw one (h, merge_into-NoFreeAfter b c bs (ground arith))
    ]

abbrev in_use : MemoryBlock
in_use = record { size = 0; start_address = 0; is_allocated = true }

NoFreeAfter-IsMerged : (b : MemoryBlock) (bs : List MemoryBlock) → NoFreeAfter b bs → IsMerged bs
NoFreeAfter-IsMerged b [] h = tt
NoFreeAfter-IsMerged b (c ∷ bs) h = h.1

merge_free-IsMerged : (bs : List MemoryBlock) → IsMerged (merge_free bs)
unfolding merge_free
merge_free-IsMerged [] = tt
merge_free-IsMerged (b ∷ bs) =
    NoFreeAfter-IsMerged in_use (merge_into b bs) (merge_into-NoFreeAfter in_use b bs refl)

merge_free_bytes :
    (bs : List MemoryBlock)
    → (free_bytes (merge_free bs) ≡ free_bytes bs) × (used_bytes (merge_free bs) ≡ used_bytes bs)
unfolding merge_free
merge_free_bytes [] = (refl, refl)
merge_free_bytes (b ∷ bs) = merge_into_bytes b bs

-- Compaction keeps the number of free bytes and of bytes in use, and leaves no two free blocks
-- next to one another.
pub compact_memory_lem :
    (m : MemoryManager)
    → (free_bytes (compact_memory m).blocks ≡ free_bytes m.blocks)
      × (used_bytes (compact_memory m).blocks ≡ used_bytes m.blocks)
      × IsMerged (compact_memory m).blocks
unfolding compact_memory
compact_memory_lem m =
    let s = slide_bytes 0 m.blocks in
    let f = merge_free_bytes (slide 0 m.blocks) in
    (f.0 ∙ s.0, f.1 ∙ s.1, merge_free-IsMerged (slide 0 m.blocks))
