-- ===== src/Memory/Heap/Layout.antt =====
-- What a sound heap is: the blocks tile the memory, the counter is right, and no two free blocks are
-- next to one another.
use os_exploring.Common.{
  ℕ, ◌+◌, ◌≤◌, ◌<◌, ◌≡◌, ◌^◌, refl, true, ◌||◌, List, [], ◌∷◌, arith, if◌then◌else◌,
}
use os_exploring.Memory.Heap.{HeapBlock, HeapManager, header, initialize_memory_manager}

-- The blocks lie one behind the other, each with its header, from `a` to `e`.
abbrev pub Tiles : ℕ → List HeapBlock → ℕ → Type 0
Tiles a [] e = a ≡ e
Tiles a (b ∷ bs) e = (b.address ≡ a) × Tiles (a + header + b.size) bs e

-- The block and the one after it are not both free.
abbrev pub IsApart : HeapBlock → List HeapBlock → Type 0
IsApart b [] = Unit
IsApart b (n ∷ ns) = (b.is_allocated || n.is_allocated) ≡ true

abbrev pub IsMerged : List HeapBlock → Type 0
IsMerged [] = Unit
IsMerged (b ∷ bs) = IsApart b bs × IsMerged bs

-- Only whether a block is in use matters for its neighbours.
pub IsApart-same :
    (b c : HeapBlock) (bs : List HeapBlock)
    → c.is_allocated ≡ b.is_allocated
    → IsApart b bs
    → IsApart c bs
IsApart-same b c [] e h = tt
IsApart-same b c (n ∷ ns) e h = rw e h

pub IsApart-of_allocated :
    (b : HeapBlock) (bs : List HeapBlock) → b.is_allocated ≡ true → IsApart b bs
IsApart-of_allocated b [] e = tt
IsApart-of_allocated b (n ∷ ns) e = rw e refl

pub Tiles-le : (a e : ℕ) (bs : List HeapBlock) → Tiles a bs e → a ≤ e
Tiles-le a e [] t = omega arith
Tiles-le a e (b ∷ bs) (at, t) = omega (arith, Tiles-le (a + header + b.size) e bs t)

-- The bytes in use, headers included.
abbrev pub used_of : List HeapBlock → ℕ
used_of [] = 0
used_of (b ∷ bs) = (if b.is_allocated then b.size + header else 0) + used_of bs

pub record IsHeap (m : HeapManager) : Type 0 where
  pub tiles : Tiles m.memory m.free_list (m.memory + m.total_size)
  pub merged : IsMerged m.free_list
  pub counted : m.used_size ≡ used_of m.free_list

pub initialize_memory_manager-IsHeap :
    (memory size : ℕ) → 32 ≤ size → size < 2 ^ 64 → IsHeap (initialize_memory_manager memory size)
unfolding initialize_memory_manager
initialize_memory_manager-IsHeap memory size room small = record {
  tiles = (refl, omega arith);
  merged = (tt, tt);
  counted = refl;
}
