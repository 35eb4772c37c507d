-- ===== src/Memory/Contiguous/Tiling.antt =====
-- `allocMemory` keeps the blocks tiling the memory, and `free_size` the number of free bytes.
use os_exploring.Common.{
  ℕ, zero, suc, ◌+◌, ◌-◌, ◌≤◌, ◌<◌, ◌≡◌, refl, subst, ap, inl, inr, true, ◌||◌, arith, List, [],
  ◌∷◌, ltb, Bool-cases, Option-cases, if◌then◌else◌, get_or,
}
use os_exploring.Memory.Contiguous.{
  MemoryBlock, MemoryManager, min_partition_size, init_memory_manager, select_block, take_block,
  take_at, alloc_memory, no_block,
}
use os_exploring.Memory.Contiguous.Fit.{Fits, select_block-Fits}

-- The blocks follow one another from address `a` to address `e`.
abbrev pub Tiles : ℕ → List MemoryBlock → ℕ → Type 0
Tiles a [] e = a ≡ e
Tiles a (b ∷ bs) e = (b.start_address ≡ a) × Tiles (a + b.size) bs e

abbrev pub free_bytes : List MemoryBlock → ℕ
free_bytes [] = 0
free_bytes (b ∷ bs) = (if b.is_allocated then 0 else b.size) + free_bytes bs

pub record IsValid (m : MemoryManager) : Type 0 where
  pub tiles : Tiles 0 m.blocks m.total_size
  pub free : m.free_size ≡ free_bytes m.blocks

Tiles-eq : (a a' : ℕ) (bs : List MemoryBlock) (e : ℕ) → a ≡ a' → Tiles a bs e → Tiles a' bs e
Tiles-eq a a' bs e eq h = subst (λ x. Tiles x bs e) eq h

take_block-Tiles :
    (b : MemoryBlock) (bs : List MemoryBlock) (size a e : ℕ)
    → size ≤ b.size
    → Tiles a (b ∷ bs) e
    → Tiles a (take_block b bs size) e
unfolding take_block
take_block-Tiles b bs size a e room h = elim (Bool-cases (ltb (size + min_partition_size) b.size)) [
  | inl split ↦ rw split (
    h.0,
    (
      ap (λ x. x + size) h.0,
      Tiles-eq (a + b.size) (a + size + (b.size - size)) bs e (omega arith) h.1,
    ),
  )
  | inr whole ↦ rw whole h
]

take_at-Tiles :
    (i : ℕ) (bs : List MemoryBlock) (size a e : ℕ)
    → Fits size i bs
    → Tiles a bs e
    → Tiles a (take_at i bs size) e
unfolding take_at
take_at-Tiles i [] size a e f h = absurd f
take_at-Tiles zero (b ∷ bs) size a e f h = take_block-Tiles b bs size a e f.1 h
take_at-Tiles (suc i) (b ∷ bs) size a e f h = (h.0, take_at-Tiles i bs size (a + b.size) e f h.1)

-- The block taken holds what the free bytes lose; it is in use, and has room.
record Taken (bs after : List MemoryBlock) (i size : ℕ) : Type 0 where
  used : (get_or after i no_block).is_allocated ≡ true
  room : size ≤ (get_or after i no_block).size
  paid : free_bytes after + (get_or after i no_block).size ≡ free_bytes bs

take_at-Taken :
    (i : ℕ) (bs : List MemoryBlock) (size : ℕ)
    → Fits size i bs
    → Taken bs (take_at i bs size) i size
unfolding take_at take_block
take_at-Taken i [] size f = absurd f
take_at-Taken zero (b ∷ bs) size f = elim (Bool-cases (ltb (size + min_partition_size) b.size)) [
  | inl split ↦
      rw split (record { used = refl; room = omega arith; paid = ground (arith, f.0, f.1) })
  | inr whole ↦ rw whole (record { used = refl; room = f.1; paid = ground (arith, f.0) })
]
take_at-Taken (suc i) (b ∷ bs) size f =
    let t = take_at-Taken i bs size f in
    record { used = t.used; room = t.room; paid = omega (arith, t.paid) }

pub init_memory_manager-IsValid : (size strategy : ℕ) → IsValid (init_memory_manager size strategy)
unfolding init_memory_manager
init_memory_manager-IsValid size strategy = record {
  tiles = (refl, omega arith);
  free = omega arith;
}

-- What `allocMemory` does: nothing, or it takes the block that was selected.
pub data Allocated (m : MemoryManager) (size : ℕ) : ℕ × MemoryManager → Type 0 where
  refused : Allocated m size (0, m)
  taken :
      (i : ℕ)
      → Fits size i m.blocks
      → min_partition_size ≤ size
      → Allocated m size (
        (get_or (take_at i m.blocks size) i no_block).start_address,
        record m {
          blocks = take_at i m.blocks size;
          free_size = m.free_size - (get_or (take_at i m.blocks size) i no_block).size;
        },
      )

pub alloc_memory-Allocated : (m : MemoryManager) (size : ℕ) → Allocated m size (alloc_memory m size)
unfolding alloc_memory
alloc_memory-Allocated m size =
    elim (Bool-cases (ltb size min_partition_size || ltb m.free_size size)) [
      | inl bad ↦ rw (bad, alloc_memory) refused
      | inr good ↦ elim (Option-cases (select_block m size)) [
        | inl nothing ↦ rw (good, nothing, alloc_memory) refused
        | inr (i, found) ↦
            rw (good, found, alloc_memory)
              (taken i (select_block-Fits m size i found) (ground arith))
      ]
    ]

Allocated-IsValid :
    {m : MemoryManager} {size : ℕ} {r : ℕ × MemoryManager}
    → Allocated m size r
    → IsValid m
    → IsValid r.1
Allocated-IsValid refused v = v
Allocated-IsValid {m} {size} (taken i f big) v =
    let t = take_at-Taken i m.blocks size f in
    record {
      tiles = take_at-Tiles i m.blocks size 0 m.total_size f v.tiles;
      free = omega (arith, t.paid, v.free);
    }

-- Whatever the strategy and the size, `allocMemory` leaves the blocks tiling the memory without a
-- gap or an overlap, and `free_size` equal to the number of bytes in free blocks.
pub alloc_memory-IsValid :
    (m : MemoryManager) (size : ℕ) → IsValid m → IsValid (alloc_memory m size).1
alloc_memory-IsValid m size v = Allocated-IsValid (alloc_memory-Allocated m size) v

-- On a fresh manager a request of at least 64 bytes and less than all is served, whatever the
-- strategy, at address 0: the caller is handed NULL, which also stands for a failure.
pub alloc_memory_null :
    (size strategy n : ℕ)
    → min_partition_size ≤ n
    → n < size
    → ((alloc_memory (init_memory_manager size strategy) n).0 ≡ 0)
      × ((alloc_memory (init_memory_manager size strategy) n).1.free_size < size)
unfolding alloc_memory init_memory_manager
alloc_memory_null size strategy n big less = ground arith
