-- ===== src/Memory/Heap/Free.antt =====
-- memory_free keeps the heap sound, and takes back what memory_alloc gave.
use os_exploring.Common.{
  ℕ, ◌+◌, ◌-◌, ◌≤◌, ◌≡◌, refl, ap, inl, inr, true, false, some, List, [], ◌∷◌, arith, ◌==◌,
  Bool-cases,
}
use os_exploring.Memory.Heap.{
  HeapBlock, HeapManager, header, find_block, merge_next, merge_previous, freed, free_behind,
  free_in, memory_free,
}
use os_exploring.Memory.Heap.Layout.{IsApart-same, Tiles, IsApart, IsMerged, used_of, IsHeap}

-- The first block of the list is as much in use as `b`.
abbrev IsLike : HeapBlock → List HeapBlock → Type 0
IsLike b [] = ⊥
IsLike b (c ∷ cs) = c.is_allocated ≡ b.is_allocated

IsLike-IsApart :
    (a b : HeapBlock) (bs cs : List HeapBlock) → IsLike b cs → IsApart a (b ∷ bs) → IsApart a cs
IsLike-IsApart a b bs [] l h = absurd l
IsLike-IsApart a b bs (c ∷ cs) l h = rw l h

-- Blocks that take the place of others: the same bytes, the same bytes in use, nothing free next to
-- something free.
record Replaces (old new : List HeapBlock) : Type 0 where
  tiles : (a e : ℕ) → Tiles a old e → Tiles a new e
  used : used_of new ≡ used_of old
  merged : IsMerged new

merge_next-Replaces :
    (b : HeapBlock) (bs : List HeapBlock)
    → b.is_allocated ≡ false
    → IsMerged bs
    → Replaces (b ∷ bs) (merge_next b bs) × IsLike b (merge_next b bs)
unfolding merge_next
merge_next-Replaces b [] free m =
    (record { tiles = λ a e t. t; used = refl; merged = (tt, tt) }, refl)
merge_next-Replaces b (n ∷ ns) free (h, m) = elim (Bool-cases n.is_allocated) [
  | inl busy ↦ simp busy (
    record { tiles = λ a e t. t; used = ground arith; merged = (ground (arith, busy), (h, m)) },
    refl,
  )
  | inr open_ ↦
      let one : HeapBlock = record b { size = b.size + (n.size + header) } in
      simp open_ (
        record {
          tiles = λ a e (at, (at', t)).
              let end : a + header + (b.size + (n.size + header))
                  ≡ a + header + b.size + header + n.size =
                omega arith in
              (at, rw end t);
          used = ground (arith, free, open_);
          merged = (IsApart-same n one ns (cc (free, open_)) h, m);
        },
        refl,
      )
]

merge_previous-Replaces :
    (a : HeapBlock) (cs : List HeapBlock) (b : HeapBlock)
    → b.is_allocated ≡ false
    → IsLike b cs
    → IsMerged cs
    → Replaces (a ∷ cs) (merge_previous a cs) × IsLike a (merge_previous a cs)
unfolding merge_previous
merge_previous-Replaces a [] b free l m = absurd l
merge_previous-Replaces a (c ∷ cs) b free l (h, m) = elim (Bool-cases a.is_allocated) [
  | inl busy ↦ simp busy (
    record { tiles = λ x e t. t; used = ground arith; merged = (ground (arith, busy), (h, m)) },
    refl,
  )
  | inr open_ ↦
      let one : HeapBlock = record a { size = a.size + (c.size + header); is_allocated = false } in
      simp open_ (
        record {
          tiles = λ x e (at, (at', t)).
              let end : x + header + (a.size + (c.size + header))
                  ≡ x + header + a.size + header + c.size =
                omega arith in
              (at, rw end t);
          used = ground (arith, free, open_, l);
          merged = (IsApart-same c one cs (cc (free, l)) h, m);
        },
        refl,
      )
]

-- The same, with the bytes of one block given back.
record Frees (b : HeapBlock) (old new : List HeapBlock) : Type 0 where
  tiles : (a e : ℕ) → Tiles a old e → Tiles a new e
  used : used_of new + (b.size + header) ≡ used_of old
  merged : IsMerged new

free_behind-Frees :
    (p : ℕ) (a : HeapBlock) (bs : List HeapBlock) (b : HeapBlock)
    → find_block p bs ≡ some b
    → b.is_allocated ≡ true
    → IsMerged (a ∷ bs)
    → Frees b (a ∷ bs) (free_behind p a bs) × IsLike a (free_behind p a bs)
unfolding free_behind find_block
free_behind-Frees p a [] b found busy m = absurd (cc)
free_behind-Frees p a (c ∷ cs) b found busy (h, m) = elim (Bool-cases (c.address == p)) [
  | inl here ↦
      let same : c ≡ b = cc (rw (here, find_block) at found) in
      let (r, like) = merge_next-Replaces (freed c) cs refl m.1 in
      let (r', like') =
        merge_previous-Replaces a (merge_next (freed c) cs) (freed c) refl like r.merged in
      let busy' : c.is_allocated ≡ true = cc (same, busy) in
      let size_ : c.size ≡ b.size = ap (λ (x : HeapBlock). x.size) same in
      simp here (
        record {
          tiles = λ x e (at, (at', t)). r'.tiles x e (at, r.tiles (x + header + a.size) e (at', t));
          used = ground (arith, r.used, r'.used, busy', size_);
          merged = r'.merged;
        },
        like',
      )
  | inr there ↦
      let (f, like) = free_behind-Frees p c cs b (rw (there, find_block) at found) busy m in
      simp there (
        record {
          tiles = λ x e (at, t). (at, f.tiles (x + header + a.size) e t);
          used = omega (arith, f.used);
          merged = (IsLike-IsApart a c cs (free_behind p c cs) like h, f.merged);
        },
        refl,
      )
]

free_in-Frees :
    (p : ℕ) (bs : List HeapBlock) (b : HeapBlock)
    → find_block p bs ≡ some b
    → b.is_allocated ≡ true
    → IsMerged bs
    → Frees b bs (free_in p bs)
unfolding free_in find_block
free_in-Frees p [] b found busy m = absurd (cc)
free_in-Frees p (c ∷ cs) b found busy m = elim (Bool-cases (c.address == p)) [
  | inl here ↦
      let same : c ≡ b = cc (rw (here, find_block) at found) in
      let (r, like) = merge_next-Replaces (freed c) cs refl m.1 in
      let busy' : c.is_allocated ≡ true = cc (same, busy) in
      let size_ : c.size ≡ b.size = ap (λ (x : HeapBlock). x.size) same in
      simp here (record {
        tiles = λ x e t. r.tiles x e t;
        used = ground (arith, r.used, busy', size_);
        merged = r.merged;
      })
  | inr there ↦ simp there (free_behind-Frees p c cs b (rw (there, find_block) at found) busy m).0
]

-- On a sound heap, freeing the pointer of a block in use leaves a sound heap, in which free blocks
-- are merged again, and gives back the block's bytes and its header.
pub memory_free-IsHeap :
    (m : HeapManager) (ptr : ℕ) (b : HeapBlock)
    → IsHeap m
    → header ≤ ptr
    → find_block (ptr - header) m.free_list ≡ some b
    → b.is_allocated ≡ true
    → IsHeap (memory_free m ptr) × ((memory_free m ptr).used_size + (b.size + header) ≡ m.used_size)
unfolding memory_free
memory_free-IsHeap m ptr b h real found busy =
    let f = free_in-Frees (ptr - header) m.free_list b found busy h.merged in
    let some_ : (ptr == 0) ≡ false = ground arith in
    rw (some_, found, memory_free)
      (
        record {
          tiles = f.tiles m.memory (m.memory + m.total_size) h.tiles;
          merged = f.merged;
          counted = omega (arith, h.counted, f.used);
        },
        omega (arith, h.counted, f.used),
      )
