-- ===== src/Memory/FixedBlocks/Counting.antt =====
-- The count of free blocks, where the blocks handed out lie, and freeing after allocating.
use native.Mathlib.Nat.{mul-le-mul_right, mul-div_cancel, suc-mul}
use os_exploring.Common.{
  ℕ, suc, ◌+◌, ◌-◌, ◌*◌, ◌%◌, ◌^◌, ◌≤◌, ◌<◌, ◌≡◌, refl, ap, fun_ext, ◌⊎◌, inl, inr, Bool, true,
  false, not, ◌&&◌, Option, none, some, arith, ltb, ◌==◌, Bool-cases, Option-cases, update,
  update_self, find_range, find_range-some, find_range-none, count_range, count_range-ext,
  count_range-update, count_range-clear, count_range-none,
}
use os_exploring.Memory.FixedBlocks.{
  FixedAllocator, init_fixed_allocator, hand_out, allocate_fixed_block, block_index,
  free_fixed_block,
}

-- The blocks lie in the address space, and free_blocks counts those that are free.
pub record IsCounted (a : FixedAllocator) : Type 0 where
  pub sized : 0 < a.block_size
  pub fits : a.memory + a.num_blocks * a.block_size < 2 ^ 64
  pub counted : a.free_blocks ≡ count_range a.num_blocks (λ i. not (a.is_allocated i))

init_fixed_allocator-IsCounted :
    (memory : ℕ) → memory + 16384 < 2 ^ 64 → IsCounted (init_fixed_allocator memory)
unfolding init_fixed_allocator
init_fixed_allocator-IsCounted memory h = record {
  sized = omega arith;
  fits = omega arith;
  counted = unfold count_range in refl;
}

-- A block that is free or not makes the count change by one.
taken-count :
    (a : FixedAllocator) (i : ℕ)
    → i < a.num_blocks
    → a.is_allocated i ≡ false
    → count_range a.num_blocks (λ k. not (update a.is_allocated i true k)) + 1
      ≡ count_range a.num_blocks (λ k. not (a.is_allocated k))
taken-count a i below free =
    let unseen : ℕ → Bool = λ k. not (a.is_allocated k) in
    let same =
      count_range-ext a.num_blocks (λ k. not (update a.is_allocated i true k))
        (update unseen i false) (λ k l. ground arith) in
    rw same (count_range-clear a.num_blocks unseen i below (rw free))

returned-count :
    (a : FixedAllocator) (i : ℕ)
    → i < a.num_blocks
    → a.is_allocated i ≡ true
    → count_range a.num_blocks (λ k. not (update a.is_allocated i false k))
      ≡ count_range a.num_blocks (λ k. not (a.is_allocated k)) + 1
returned-count a i below taken =
    let unseen : ℕ → Bool = λ k. not (a.is_allocated k) in
    let same =
      count_range-ext a.num_blocks (λ k. not (update a.is_allocated i false k))
        (update unseen i true) (λ k l. ground arith) in
    rw same (count_range-update a.num_blocks unseen i below (rw taken))

-- The block lies within the memory.
block_fits :
    (a : FixedAllocator) (i : ℕ)
    → i < a.num_blocks
    → i * a.block_size + a.block_size ≤ a.num_blocks * a.block_size
block_fits a i below =
    let le : suc i * a.block_size ≤ a.num_blocks * a.block_size =
      mul-le-mul_right a.block_size (omega arith) in
    omega (arith, le, suc-mul i a.block_size)

block_index-block :
    (a : FixedAllocator) (i : ℕ)
    → IsCounted a
    → i < a.num_blocks
    → block_index a (a.memory + i * a.block_size) ≡ i
block_index-block a i h below =
    let le = block_fits a i below in
    let offset : (a.memory + i * a.block_size + 2 ^ 64 - a.memory) % 2 ^ 64 ≡ i * a.block_size =
      omega (arith, h.fits) in
    rw offset (mul-div_cancel i h.sized)

-- What allocating does when it finds block `i`.
record Gives (a : FixedAllocator) (i : ℕ) : Type 0 where
  below : i < a.num_blocks
  free : a.is_allocated i ≡ false
  result : allocate_fixed_block a ≡ hand_out a (some i)

allocate_fixed_block-cases :
    (a : FixedAllocator)
    → IsCounted a
    → ((a.free_blocks ≡ 0) × (allocate_fixed_block a ≡ (none, a))) ⊎ ((i : ℕ) × Gives a i)
unfolding allocate_fixed_block
allocate_fixed_block-cases a h = elim (Bool-cases (a.free_blocks == 0)) [
  | inl full ↦ inl (ground (arith, full), rw full)
  | inr some_ ↦ elim (Option-cases (find_range a.num_blocks 0 (λ i. not (a.is_allocated i)))) [
    | inl nothing ↦
        let no_one =
          count_range-none a.num_blocks (λ i. not (a.is_allocated i))
            (λ i l.
              find_range-none a.num_blocks 0 (λ i. not (a.is_allocated i)) i nothing (omega arith)
                (omega arith)) in
        absurd (ground (arith, h.counted, no_one, some_))
    | inr (i, found) ↦
        let (_, below, free) =
          find_range-some a.num_blocks 0 (λ i. not (a.is_allocated i)) i found in
        inr (
          i,
          record { below = omega arith; free = ground (arith, free); result = rw (some_, found) },
        )
  ]
]

-- Allocating fails only if no block is free, and then changes nothing. Else it hands out a block that
-- was free and lies within the memory, and the count stays right.
pub allocate_fixed_block_lem :
    (a : FixedAllocator)
    → IsCounted a
    → ((a.free_blocks ≡ 0) × (allocate_fixed_block a ≡ (none, a)))
      ⊎ ((i : ℕ) × (a.is_allocated i ≡ false)
          × ((allocate_fixed_block a).0 ≡ some (a.memory + i * a.block_size))
          × (a.memory + i * a.block_size + a.block_size ≤ a.memory + a.num_blocks * a.block_size)
          × IsCounted (allocate_fixed_block a).1)
allocate_fixed_block_lem a h = elim (allocate_fixed_block-cases a h) [
  | inl full ↦ inl full
  | inr (i, g) ↦ inr (
    i,
    g.free,
    rw g.result refl,
    omega (arith, block_fits a i g.below),
    rw g.result (record {
      sized = h.sized;
      fits = h.fits;
      counted = omega (arith, h.counted, taken-count a i g.below g.free);
    }),
  )
]

-- Freeing keeps the count right, whatever the pointer.
pub free_fixed_block-IsCounted :
    (a : FixedAllocator) (ptr : Option ℕ) → IsCounted a → IsCounted (free_fixed_block a ptr)
unfolding free_fixed_block
free_fixed_block-IsCounted a none h = h
free_fixed_block-IsCounted a (some ptr) h =
    let idx = block_index a ptr in
    elim (Bool-cases (ltb idx a.num_blocks && a.is_allocated idx)) [
      | inr no_ ↦ rw no_ h
      | inl yes_ ↦ rw yes_ (record {
        sized = h.sized;
        fits = h.fits;
        counted =
            omega (
              arith,
              h.counted,
              returned-count a idx (ground (arith, yes_)) (ground (arith, yes_)),
            );
      })
    ]

free-hand_out :
    (a : FixedAllocator) (i : ℕ)
    → IsCounted a
    → i < a.num_blocks
    → a.is_allocated i ≡ false
    → free_fixed_block (hand_out a (some i)).1 (some (a.memory + i * a.block_size)) ≡ a
unfolding free_fixed_block
free-hand_out a i h below free =
    let at = block_index-block a i h below in
    let low : ltb i a.num_blocks ≡ true = ground arith in
    let on = update_self a.is_allocated i true in
    let flags : update (update a.is_allocated i true) i false ≡ a.is_allocated =
      fun_ext (λ k. ground (arith, free)) in
    let back : a.free_blocks - 1 + 1 ≡ a.free_blocks =
      omega (arith, h.counted, taken-count a i below free) in
    rw (at, low, on, flags, back) refl

-- Freeing the block that was just handed out gives back the allocator as it was.
pub free_fixed_block-allocate_fixed_block :
    (a : FixedAllocator) (ptr : ℕ)
    → IsCounted a
    → (allocate_fixed_block a).0 ≡ some ptr
    → free_fixed_block (allocate_fixed_block a).1 (some ptr) ≡ a
free_fixed_block-allocate_fixed_block a ptr h e = elim (allocate_fixed_block-cases a h) [
  | inl (_, full) ↦ absurd (cc (ap (λ (r : Option ℕ × FixedAllocator). r.0) full, e))
  | inr (i, g) ↦
      let given : some (a.memory + i * a.block_size) ≡ some ptr = rw g.result at e in
      rw (g.result, ← given) (free-hand_out a i h g.below g.free)
]

-- Freeing a pointer a second time changes nothing, whatever the pointer and the allocator.
pub free_fixed_block_twice :
    (a : FixedAllocator) (ptr : Option ℕ)
    → free_fixed_block (free_fixed_block a ptr) ptr ≡ free_fixed_block a ptr
unfolding free_fixed_block
free_fixed_block_twice a none = refl
free_fixed_block_twice a (some ptr) =
    let idx = block_index a ptr in
    elim (Bool-cases (ltb idx a.num_blocks && a.is_allocated idx)) [
      | inr no_ ↦ rw (no_, free_fixed_block, no_) refl
      | inl yes_ ↦
          let off = update_self a.is_allocated idx false in
          let low : ltb idx a.num_blocks ≡ true = ground (arith, yes_) in
          rw (yes_, free_fixed_block, off, low) refl
    ]
