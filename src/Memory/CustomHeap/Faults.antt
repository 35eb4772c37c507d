-- ===== src/Memory/CustomHeap/Faults.antt =====
-- Freeing: the counters, and the header that custom_free looks for.
use os_exploring.Common.{
  ℕ, ◌+◌, ◌-◌, ◌%◌, ◌^◌, ◌≤◌, ◌<◌, ◌≡◌, ◌≢◌, refl, ap, ◌∙◌, inl, inr, true, false, Option, none,
  some, List, [], ◌∷◌, arith, ◌==◌, Bool-cases, Option-cases, some_pair,
}
use os_exploring.Memory.CustomHeap.{
  CustomBlock, CustomHeap, block_size, data_offset, custom_malloc, coalesce_blocks, take_used,
  free_header, custom_free,
}
use os_exploring.Memory.CustomHeap.Sums.{sum_of, IsCounted, AllSmall, custom_malloc_lem}

take_used-sum_of :
    (p : ℕ) (bs : List CustomBlock) (b : CustomBlock) (rest : List CustomBlock)
    → take_used p bs ≡ some (b, rest)
    → sum_of rest + b.size ≡ sum_of bs
unfolding take_used
take_used-sum_of p [] b rest e = absurd (cc e)
take_used-sum_of p (c ∷ cs) b rest e = elim (Bool-cases (c.address == p)) [
  | inl here ↦
      let (same, others) = some_pair (rw (here, take_used) at e) in
      rw (← same, ← others) (omega arith)
  | inr there ↦ elim (Option-cases (take_used p cs)) [
    | inl nothing ↦ absurd (cc (rw (there, nothing, take_used) at e))
    | inr ((d, ds), found) ↦
        let (same, others) = some_pair (rw (there, found, take_used) at e) in
        rw (← same, ← others) (omega (arith, take_used-sum_of p cs d ds found))
  ]
]

coalesce_blocks-sum_of :
    (b : CustomBlock) (bs : List CustomBlock) → sum_of (coalesce_blocks b bs) ≡ b.size + sum_of bs
unfolding coalesce_blocks
coalesce_blocks-sum_of b [] = refl
coalesce_blocks-sum_of b (n ∷ ns) = elim (Bool-cases n.is_free) [
  | inl free ↦ rw free (omega arith)
  | inr used ↦ rw used refl
]

-- Freeing a block in use keeps the counters right: every byte is in a free block or in one in use, and
-- `used_size` counts the latter.
pub free_header-IsCounted :
    (heap : CustomHeap) (p : ℕ) (now : CustomHeap)
    → IsCounted heap
    → free_header heap p ≡ some now
    → IsCounted now
unfolding free_header
free_header-IsCounted heap p now h e = elim (Option-cases (take_used p heap.used_list)) [
  | inl nothing ↦ absurd (cc (rw (nothing, free_header) at e))
  | inr ((b, rest), found) ↦
      let less = take_used-sum_of p heap.used_list b rest found in
      let merged = coalesce_blocks-sum_of (record b { is_free = true }) heap.free_list in
      let next : CustomHeap = record heap {
        free_list = coalesce_blocks (record b { is_free = true }) heap.free_list;
        used_list = rest;
        used_size = heap.used_size - b.size;
      } in
      let made : IsCounted next = record {
        used = omega (arith, h.used, less);
        total = omega (arith, h.total, less, merged);
      } in
      let same : next ≡ now = cc (rw (found, free_header) at e) in rw (← same) made
]

-- No block of the list has its header at the address.
abbrev pub NoHeader : ℕ → List CustomBlock → Type 0
NoHeader p [] = Unit
NoHeader p (b ∷ bs) = (b.address ≢ p) × NoHeader p bs

take_used-NoHeader : (p : ℕ) (bs : List CustomBlock) → NoHeader p bs → take_used p bs ≡ none
unfolding take_used
take_used-NoHeader p [] n = refl
take_used-NoHeader p (b ∷ bs) (other, n) =
    let there : (b.address == p) ≡ false = ground (arith, other) in
    rw (there, take_used-NoHeader p bs n, take_used) refl

-- The header that custom_free works with is not that of the block: whatever custom_malloc returns on
-- a heap with right counters and free blocks smaller than 2 ^ 64 - 1, if it is above the first header of memory and no block in use starts 8 bytes before its block, freeing
-- it finds no block.
pub custom_free-custom_malloc :
    (heap : CustomHeap) (memory : Option ℕ) (size ptr : ℕ)
    → IsCounted heap
    → AllSmall heap.free_list
    → (custom_malloc heap memory size).0 ≡ some ptr
    → 40 ≤ ptr
    → ptr < 2 ^ 64
    → NoHeader (ptr - 40) heap.used_list
    → custom_free (custom_malloc heap memory size).1 ptr ≡ none
custom_free-custom_malloc heap memory size ptr h small e low high apart =
    elim (custom_malloc_lem heap memory size h small) [
      | inl (failed, _) ↦ absurd (cc (ap (λ (r : Option ℕ × CustomHeap). r.0) failed, e))
      | inr g ↦
          let at : g.block.address + data_offset ≡ ptr = cc (g.pointer, e) in
          let some_ : (ptr == 0) ≡ false = ground (arith, low) in
          let header : (ptr + 2 ^ 64 - block_size) % 2 ^ 64 ≡ ptr - 40 = omega arith in
          let missing : take_used (ptr - 40) (g.block ∷ heap.used_list) ≡ none =
            take_used-NoHeader (ptr - 40) (g.block ∷ heap.used_list) (omega (arith, at), apart) in
          let now = (custom_malloc heap memory size).1 in
          let step : custom_free now ptr ≡ free_header now (ptr - 40) =
            unfold custom_free in (rw some_ (ap (free_header now) header)) in
          step ∙ unfold free_header in (rw (g.first, missing, free_header) refl)
    ]
