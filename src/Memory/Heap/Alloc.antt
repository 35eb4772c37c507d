-- ===== src/Memory/Heap/Alloc.antt =====
-- memory_alloc keeps the heap sound and serves a request that a free block has room for.
use os_exploring.Common.{
  ℕ, ◌+◌, ◌-◌, ◌<◌, ◌≤◌, ◌≡◌, refl, inl, inr, ◌⊎◌, true, false, not, ◌&&◌, none, some, List, [],
  ◌∷◌, arith, leb, Bool-cases, Option-cases, some_pair,
}
use os_exploring.Memory.Heap.{
  HeapBlock, HeapManager, header, min_block_size, split_block, put_back, alloc_from, memory_alloc,
}
use os_exploring.Memory.Heap.Layout.{
  Tiles-le, IsApart-same, IsApart-of_allocated, Tiles, IsApart, IsMerged, used_of, IsHeap,
}

-- No room in the block: it is allocated, or too small.
abbrev HasNoRoom : ℕ → HeapBlock → Type 0
HasNoRoom size b = (b.is_allocated ≡ true) ⊎ (b.size < size)

-- The first free block with room is the one at `p`.
abbrev pub IsFirstFit : ℕ → ℕ → List HeapBlock → Type 0
IsFirstFit size p [] = ⊥
IsFirstFit size p (b ∷ bs) =
    ((b.is_allocated ≡ false) × (size ≤ b.size) × (b.address ≡ p))
    ⊎ (HasNoRoom size b × IsFirstFit size p bs)

-- The block at `p` is in use, and has room for `size` bytes.
abbrev pub InUse : ℕ → ℕ → List HeapBlock → Type 0
InUse size p [] = ⊥
InUse size p (b ∷ bs) =
    ((b.address ≡ p) × (b.is_allocated ≡ true) × (size ≤ b.size)) ⊎ InUse size p bs

-- What handing out the block `c` does to the blocks.
record Handed (size : ℕ) (bs : List HeapBlock) (c : HeapBlock) (bs' : List HeapBlock) : Type 0 where
  first : IsFirstFit size c.address bs
  in_use : InUse size c.address bs'
  room : size ≤ c.size
  tiles : (a e : ℕ) → Tiles a bs e → Tiles a bs' e
  apart : (b : HeapBlock) → IsApart b bs → IsApart b bs'
  merged : IsMerged bs → IsMerged bs'
  paid : used_of bs' ≡ used_of bs + (c.size + header)
  inside : (a e : ℕ) → Tiles a bs e → (a ≤ c.address) × (c.address + header + c.size ≤ e)

split_block-Handed :
    (b : HeapBlock) (bs : List HeapBlock) (size : ℕ)
    → b.is_allocated ≡ false
    → size ≤ b.size
    → Handed size (b ∷ bs) (split_block b size).0 (put_back (split_block b size).1 bs)
unfolding split_block
split_block-Handed b bs size free fits =
    elim (Bool-cases (leb (size + header + min_block_size) b.size)) [
      | inl split ↦
          let rest : HeapBlock = record {
            address = b.address + header + size;
            size = b.size - size - header;
            is_allocated = false;
          } in
          rw split (record {
            first = inl (free, fits, refl);
            in_use = inl (refl, refl, omega arith);
            room = omega arith;
            tiles = λ a e (at, t).
                let end : a + header + size + header + (b.size - size - header)
                    ≡ a + header + b.size =
                  ground (arith, split) in
                (at, (omega arith, rw end t));
            apart = λ x h. ground arith;
            merged = λ (h, m). (refl, (IsApart-same b rest bs (rw free refl) h, m));
            paid = ground (arith, free);
            inside = λ a e (at, t).
                let le = Tiles-le (a + header + b.size) e bs t in (omega arith, omega (arith, le));
          })
      | inr whole ↦ rw whole (record {
        first = inl (free, fits, refl);
        in_use = inl (refl, refl, fits);
        room = fits;
        tiles = λ a e (at, t). (at, t);
        apart = λ x h. ground arith;
        merged = λ (h, m). (IsApart-of_allocated (record b { is_allocated = true }) bs refl, m);
        paid = ground (arith, free);
        inside = λ a e (at, t).
            let le = Tiles-le (a + header + b.size) e bs t in (omega arith, omega (arith, le));
      })
    ]

no_room_lem :
    (b : HeapBlock) (size : ℕ) → (not b.is_allocated && leb size b.size) ≡ false → HasNoRoom size b
no_room_lem b size e = elim (Bool-cases b.is_allocated) [
  | inl used ↦ inl used
  | inr free ↦ inr (ground (arith, e, free))
]

behind-Handed :
    (b : HeapBlock) (bs : List HeapBlock) (size : ℕ) (c : HeapBlock) (bs' : List HeapBlock)
    → HasNoRoom size b
    → Handed size bs c bs'
    → Handed size (b ∷ bs) c (b ∷ bs')
behind-Handed b bs size c bs' no_room h = record {
  first = inr (no_room, h.first);
  in_use = inr h.in_use;
  room = h.room;
  tiles = λ a e (at, t). (at, h.tiles (a + header + b.size) e t);
  apart = λ x k. k;
  merged = λ (k, m). (h.apart b k, h.merged m);
  paid = omega (arith, h.paid);
  inside = λ a e (at, t).
      let (low, high) = h.inside (a + header + b.size) e t in (omega (arith, low), high);
}

alloc_from-Handed :
    (bs : List HeapBlock) (size : ℕ) (c : HeapBlock) (bs' : List HeapBlock)
    → alloc_from bs size ≡ some (c, bs')
    → Handed size bs c bs'
unfolding alloc_from
alloc_from-Handed [] size c bs' e = absurd (cc)
alloc_from-Handed (b ∷ bs) size c bs' e =
    elim (Bool-cases (not b.is_allocated && leb size b.size)) [
      | inl here ↦
          let (same, rest) = some_pair (rw (here, alloc_from) at e) in
          rw (← same, ← rest)
            (split_block-Handed b bs size (ground (arith, here)) (ground (arith, here)))
      | inr there ↦ elim (Option-cases (alloc_from bs size)) [
        | inl nothing ↦ absurd (cc (rw (there, nothing, alloc_from) at e))
        | inr ((d, ds), found) ↦
            let (same, rest) = some_pair (rw (there, found, alloc_from) at e) in
            rw (← same, ← rest)
              (behind-Handed b bs size d ds (no_room_lem b size there)
                (alloc_from-Handed bs size d ds found))
      ]
    ]

-- A free block with room.
abbrev pub HasRoom : List HeapBlock → ℕ → Type 0
HasRoom [] size = ⊥
HasRoom (b ∷ bs) size = ((b.is_allocated ≡ false) × (size ≤ b.size)) ⊎ HasRoom bs size

alloc_from-HasRoom :
    (bs : List HeapBlock) (size : ℕ) → alloc_from bs size ≡ none → ¬ HasRoom bs size
unfolding alloc_from
alloc_from-HasRoom [] size e = λ h. h
alloc_from-HasRoom (b ∷ bs) size e = elim (Bool-cases (not b.is_allocated && leb size b.size)) [
  | inl here ↦ absurd (cc (rw (here, alloc_from) at e))
  | inr there ↦ elim (Option-cases (alloc_from bs size)) [
    | inl nothing ↦ λ h. elim h [
      | inl (free, fits) ↦ ground (arith, there)
      | inr later ↦ alloc_from-HasRoom bs size nothing later
    ]
    | inr (found, e') ↦ absurd (cc (rw (there, e', alloc_from) at e))
  ]
]

-- On a sound heap, memoryAlloc leaves a sound heap. It returns NULL only if no free block has room;
-- else the address behind the header of the first free block with room. At that address a block with
-- room is in use afterwards, it lies inside the heap, and the used size grows by its header and at
-- least the bytes asked for.
pub memory_alloc-IsHeap :
    (m : HeapManager) (size : ℕ)
    → IsHeap m
    → IsHeap (memory_alloc m size).1
      × ((((memory_alloc m size).0 ≡ none) × ¬ HasRoom m.free_list size)
          ⊎ ((p : ℕ) × ((memory_alloc m size).0 ≡ some (p + header))
              × IsFirstFit size p m.free_list
              × InUse size p (memory_alloc m size).1.free_list
              × (m.memory ≤ p)
              × (p + header + size ≤ m.memory + m.total_size)
              × (m.used_size + header + size ≤ (memory_alloc m size).1.used_size)))
unfolding memory_alloc
memory_alloc-IsHeap m size h = elim (Option-cases (alloc_from m.free_list size)) [
  | inl nothing ↦
      rw (nothing, memory_alloc) (h, inl (refl, alloc_from-HasRoom m.free_list size nothing))
  | inr ((c, bs), found) ↦
      let d = alloc_from-Handed m.free_list size c bs found in
      let (low, high) = d.inside m.memory (m.memory + m.total_size) h.tiles in
      rw (found, memory_alloc)
        (
          record {
            tiles = d.tiles m.memory (m.memory + m.total_size) h.tiles;
            merged = d.merged h.merged;
            counted = omega (arith, h.counted, d.paid);
          },
          inr (
            c.address,
            refl,
            d.first,
            d.in_use,
            omega (arith, low),
            omega (arith, high, d.room),
            omega (arith, d.room),
          ),
        )
]
