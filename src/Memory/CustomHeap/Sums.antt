-- ===== src/Memory/CustomHeap/Sums.antt =====
-- The two counters of the heap: every byte is in a free block or in one in use.
use os_exploring.Common.{
  ℕ, zero, suc, ◌+◌, ◌-◌, ◌%◌, ◌^◌, ◌<◌, ◌≤◌, ◌≡◌, refl, ◌⊎◌, inl, inr, true, false, ◌&&◌, Option,
  none, some, List, [], ◌∷◌, ◌++◌, arith, ltb, leb, ◌==◌, Bool-cases, Option-cases, subst,
}
use os_exploring.Memory.CustomHeap.{
  CustomBlock, CustomHeap, alignment, block_size, align, better_fit, fit_from, find_best_fit,
  split_block, take_at, hand_over, grow, request_of, custom_malloc, data_offset,
}

abbrev pub sum_of : List CustomBlock → ℕ
sum_of [] = 0
sum_of (b ∷ bs) = b.size + sum_of bs

pub record IsCounted (heap : CustomHeap) : Type 0 where
  pub used : heap.used_size ≡ sum_of heap.used_list
  pub total : heap.total_size ≡ sum_of heap.free_list + sum_of heap.used_list

-- The block at that position is free and has room.
abbrev FitsAt : ℕ → List CustomBlock → ℕ → Type 0
FitsAt size [] k = ⊥
FitsAt size (b ∷ bs) zero = (b.is_free ≡ true) × (size ≤ b.size)
FitsAt size (b ∷ bs) (suc k) = FitsAt size bs k

fit_from-FitsAt :
    (bs : List CustomBlock) (size i : ℕ) (s : ℕ × Option ℕ) (k : ℕ)
    → (fit_from bs size i s).1 ≡ some k
    → (s.1 ≡ some k) ⊎ ((i ≤ k) × FitsAt size bs (k - i))
unfolding fit_from better_fit
fit_from-FitsAt [] size i s k e = inl e
fit_from-FitsAt (b ∷ bs) size i s k e =
    elim (fit_from-FitsAt bs size (i + 1) (better_fit size i b s) k e) [
      | inr (le, later) ↦
          let at : suc (k - (i + 1)) ≡ k - i = omega arith in
          inr (omega arith, subst (FitsAt size (b ∷ bs)) at later)
      | inl now ↦ elim (Bool-cases (b.is_free && leb size b.size && ltb (b.size - size) s.0)) [
        | inr worse ↦ inl (rw worse at now)
        | inl good ↦
            let same : i ≡ k = cc (rw good at now) in
            let at : 0 ≡ k - i = omega arith in
            inr (
              omega arith,
              subst (FitsAt size (b ∷ bs)) at (ground (arith, good), ground (arith, good)),
            )
      ]
    ]

find_best_fit-FitsAt :
    (heap : CustomHeap) (size k : ℕ)
    → find_best_fit heap size ≡ some k
    → FitsAt size heap.free_list k
unfolding find_best_fit
find_best_fit-FitsAt heap size k e =
    elim (fit_from-FitsAt heap.free_list size 0 (2 ^ 64 - 1, none) k e) [
      | inl no_ ↦ absurd (cc no_)
      | inr (_, fits) ↦
          let at : k - 0 ≡ k = omega arith in subst (FitsAt size heap.free_list) at fits
    ]

-- Each of the blocks is in use, or smaller than `size`.
abbrev pub NoRoom : ℕ → List CustomBlock → Type 0
NoRoom size [] = Unit
NoRoom size (b ∷ bs) = ((b.is_free ≡ false) ⊎ (b.size < size)) × NoRoom size bs

-- Each of the blocks is smaller than `diff` is at first.
abbrev pub AllSmall : List CustomBlock → Type 0
AllSmall [] = Unit
AllSmall (b ∷ bs) = (b.size < 2 ^ 64 - 1) × AllSmall bs

fit_from-none :
    (bs : List CustomBlock) (size i : ℕ) (s : ℕ × Option ℕ)
    → (fit_from bs size i s).1 ≡ none
    → s.1 ≡ none
unfolding fit_from better_fit
fit_from-none [] size i s e = e
fit_from-none (b ∷ bs) size i s e =
    let now = fit_from-none bs size (i + 1) (better_fit size i b s) e in
    elim (Bool-cases (b.is_free && leb size b.size && ltb (b.size - size) s.0)) [
      | inl good ↦ absurd (cc (rw good at now))
      | inr worse ↦ rw worse at now
    ]

no_room_lem :
    (b : CustomBlock) (size bound : ℕ)
    → b.size < bound
    → (b.is_free && leb size b.size && ltb (b.size - size) bound) ≡ false
    → (b.is_free ≡ false) ⊎ (b.size < size)
no_room_lem b size bound small worse = elim (Bool-cases b.is_free) [
  | inl free ↦ inr (ground (arith, worse, free, small))
  | inr used ↦ inl used
]

fit_from-NoRoom :
    (bs : List CustomBlock) (size i : ℕ)
    → AllSmall bs
    → (fit_from bs size i (2 ^ 64 - 1, none)).1 ≡ none
    → NoRoom size bs
unfolding fit_from better_fit
fit_from-NoRoom [] size i small e = tt
fit_from-NoRoom (b ∷ bs) size i (low, small) e =
    elim (Bool-cases (b.is_free && leb size b.size && ltb (b.size - size) (2 ^ 64 - 1))) [
      | inl good ↦
          let found = fit_from-none bs size (i + 1) (better_fit size i b (2 ^ 64 - 1, none)) e in
          absurd (cc (rw good at found))
      | inr worse ↦ (
        no_room_lem b size (2 ^ 64 - 1) low worse,
        fit_from-NoRoom bs size (i + 1) small (rw (worse, fit_from, better_fit) at e),
      )
    ]

-- Taking a block that fits takes its size from the list, and leaves room for the request.
record Taken (size : ℕ) (bs : List CustomBlock) (b : CustomBlock) (rest : List CustomBlock)
    : Type 0 where
  room : size ≤ b.size
  sums : sum_of rest + b.size ≡ sum_of bs

split_block-Taken :
    (b : CustomBlock) (size : ℕ) (bs : List CustomBlock)
    → size ≤ b.size
    → Taken size (b ∷ bs) (split_block b size).0 ((split_block b size).1 ++ bs)
unfolding split_block
split_block-Taken b size bs fits =
    elim (Bool-cases (ltb (block_size + alignment) (b.size - size))) [
      | inl split ↦ rw split (record { room = omega arith; sums = omega arith })
      | inr whole ↦ rw whole (record { room = fits; sums = omega arith })
    ]

take_at-Taken :
    (k size : ℕ) (bs : List CustomBlock)
    → FitsAt size bs k
    → (b : CustomBlock) × (rest : List CustomBlock) × (take_at k size bs ≡ some (b, rest))
      × Taken size bs b rest
unfolding take_at
take_at-Taken k size [] fits = absurd fits
take_at-Taken zero size (b ∷ bs) (free, fits) =
    ((split_block b size).0, (split_block b size).1 ++ bs, refl, split_block-Taken b size bs fits)
take_at-Taken (suc k) size (b ∷ bs) fits =
    let (c, rest, ran, t) = take_at-Taken k size bs fits in
    (c, b ∷ rest, rw (ran, take_at) refl, record { room = t.room; sums = omega (arith, t.sums) })

-- What a served request looks like: the pointer is to the data of the block now first in use.
pub record Gave (heap now : CustomHeap) (size : ℕ) (p : Option ℕ) : Type 0 where
  pub block : CustomBlock
  pub first : now.used_list ≡ block ∷ heap.used_list
  pub room : size ≤ block.size
  pub pointer : p ≡ some (block.address + data_offset)
  pub counted : IsCounted now

hand_over-Gave :
    (heap : CustomHeap) (size k : ℕ)
    → IsCounted heap
    → FitsAt size heap.free_list k
    → Gave heap (hand_over heap size k).1 size (hand_over heap size k).0
unfolding hand_over
hand_over-Gave heap size k h fits =
    let (b, rest, ran, t) = take_at-Taken k size heap.free_list fits in
    rw (ran, hand_over)
      (record {
        block = record b { is_free = false };
        first = refl;
        room = t.room;
        pointer = refl;
        counted = record { used = omega (arith, h.used); total = omega (arith, h.total, t.sums) };
      })

Gave-grow :
    (heap : CustomHeap) (memory request size : ℕ) (now : CustomHeap) (p : Option ℕ)
    → Gave (grow heap memory request) now size p
    → Gave heap now size p
Gave-grow heap memory request size now p g = record {
  block = g.block;
  first = g.first;
  room = g.room;
  pointer = g.pointer;
  counted = g.counted;
}

-- Let the counters be right and the free blocks be smaller than 2 ^ 64 - 1. Let `total` be the size
-- asked for with the header, rounded up, in 64-bit arithmetic that wraps around. NULL is returned only
-- if no bytes are asked for, or if each block of the free list is in use or smaller than `total` and
-- the system has no memory; the heap stays as it is then. Else a pointer to the data of a block of at
-- least `total` bytes is returned, which is then first among those in use, and the counters are right.
pub custom_malloc_lem :
    (heap : CustomHeap) (memory : Option ℕ) (size : ℕ)
    → IsCounted heap
    → AllSmall heap.free_list
    → let total = align ((size + block_size) % 2 ^ 64) in
      ((custom_malloc heap memory size ≡ (none, heap))
        × ((size ≡ 0) ⊎ (NoRoom total heap.free_list × (memory ≡ none))))
      ⊎ Gave heap (custom_malloc heap memory size).1 total (custom_malloc heap memory size).0
unfolding custom_malloc find_best_fit
custom_malloc_lem heap memory size h small =
    let total = align ((size + block_size) % 2 ^ 64) in
    elim (Bool-cases (size == 0)) [
      | inl nothing ↦ inl (rw nothing, inl (ground (arith, nothing)))
      | inr bytes ↦ elim (Option-cases (find_best_fit heap total)) [
        | inr (k, found) ↦ inr (
            rw (bytes, found)
              (hand_over-Gave heap total k h (find_best_fit-FitsAt heap total k found)))
        | inl missing ↦ elim (Option-cases memory) [
          | inl no_memory ↦ inl (
            rw (bytes, missing, no_memory),
            inr (fit_from-NoRoom heap.free_list total 0 small missing, no_memory),
          )
          | inr (m, given) ↦
              let big : total ≤ request_of total = ground arith in
              let more = grow heap m (request_of total) in
              let g =
                hand_over-Gave more total 0
                  (record { used = h.used; total = omega (arith, h.total) }) (refl, big) in
              inr (
                rw (bytes, missing, given)
                  (Gave-grow heap m (request_of total) total (hand_over more total 0).1
                    (hand_over more total 0).0 g))
        ]
      ]
    ]
