-- ===== src/Storage/Fragmentation/Totals.antt =====
-- Sorting and merging keep the number of free blocks.
use os_exploring.Common.{
  sum_range, sum_range-ext, sum_range-update, ℕ, suc, ◌+◌, ◌-◌, ◌≤◌, ◌<◌, ◌≡◌, refl, ap, inl, inr,
  arith, ltb, ◌==◌, Bool-cases, update, for_range_inv,
}
use os_exploring.Storage.Fragmentation.{
  FreeRegion, FragmentationManager, swap_regions, sort_step, sort_regions, merge_step,
  merge_regions, defragment,
}

abbrev pub lengths : (ℕ → FreeRegion) → ℕ → ℕ
lengths r i = (r i).block_len

-- The free blocks of the first `n` regions.
abbrev pub free_of : ℕ → (ℕ → FreeRegion) → ℕ
free_of n r = sum_range n (lengths r)

swap_regions-free_of :
    (n j : ℕ) (r : ℕ → FreeRegion) → j + 1 < n → free_of n (swap_regions j r) ≡ free_of n r
swap_regions-free_of n j r below =
    let f = lengths r in
    let once = sum_range-update n f j (f (j + 1)) (omega arith) in
    let twice = sum_range-update n (update f j (f (j + 1))) (j + 1) (f j) below in
    let same =
      sum_range-ext n (lengths (swap_regions j r)) (update (update f j (f (j + 1))) (j + 1) (f j))
        (λ k l. ground arith) in
    let there : update f j (f (j + 1)) (j + 1) ≡ f (j + 1) = ground arith in
    omega (arith, once, twice, same, there)

sort_regions-free_of : (n : ℕ) (r : ℕ → FreeRegion) → free_of n (sort_regions n r) ≡ free_of n r
unfolding sort_regions sort_step
sort_regions-free_of n r =
    for_range_inv (λ _ now. free_of n now ≡ free_of n r) _ (n - 1)
      (λ i now l h.
        for_range_inv (λ _ now'. free_of n now' ≡ free_of n r) (sort_step i) (n - i - 1)
          (λ j now' l' h'. elim (Bool-cases (ltb (now' (j + 1)).block_start (now' i).block_start)) [
            | inl swaps ↦ rw swaps (omega (arith, h', swap_regions-free_of n j now' (omega arith)))
            | inr stays ↦ rw stays h'
          ])
          (n - i - 1) 0 now (omega arith) h)
      (n - 1) 0 r (omega arith) refl

sum_range-next : (n : ℕ) (f : ℕ → ℕ) → sum_range (n + 1) f ≡ sum_range n f + f n
unfolding sum_range
sum_range-next n f = let e : n + 1 ≡ suc n = omega arith in rw e refl

-- Before region `k` is read, those below `k` are merged into the first ones, and the others are as
-- they were.
record IsMerging (k : ℕ) (r : ℕ → FreeRegion) (s : ℕ × (ℕ → FreeRegion)) : Type 0 where
  below : s.0 < k
  merged : free_of (s.0 + 1) s.1 ≡ free_of k r
  rest : (i : ℕ) → k ≤ i → s.1 i ≡ r i

merge_step-IsMerging :
    (k : ℕ) (r : ℕ → FreeRegion) (s : ℕ × (ℕ → FreeRegion))
    → IsMerging k r s
    → IsMerging (k + 1) r (merge_step k s)
unfolding merge_step
merge_step-IsMerging k r (w, now) h =
    let next : free_of (k + 1) r ≡ free_of k r + (r k).block_len = sum_range-next k (lengths r) in
    let read : (now k).block_len ≡ (r k).block_len =
      ap (λ (x : FreeRegion). x.block_len) (h.rest k (omega arith)) in
    elim (Bool-cases ((now w).block_start + (now w).block_len == (now k).block_start)) [
      | inl touch ↦
          let more =
            sum_range-update (w + 1) (lengths now) w ((now w).block_len + (now k).block_len)
              (omega arith) in
          let same =
            sum_range-ext (w + 1)
              (lengths (
                update now w
                  (record (now w) { block_len = (now w).block_len + (now k).block_len })))
              (update (lengths now) w ((now w).block_len + (now k).block_len))
              (λ i l. ground arith) in
          rw touch (record {
            below = omega (arith, h.below);
            merged = omega (arith, more, same, next, read, h.merged);
            rest = λ i l. ground (arith, h.rest i (omega arith), h.below);
          })
      | inr apart ↦
          let same =
            sum_range-ext (w + 1) (lengths (update now (w + 1) (now k))) (lengths now)
              (λ i l. ground arith) in
          let moved = update now (w + 1) (now k) in
          let last : (moved (w + 1)).block_len ≡ (now k).block_len = ground arith in
          let longer = sum_range-next (w + 1) (lengths moved) in
          rw apart (record {
            below = omega (arith, h.below);
            merged = omega (arith, longer, last, same, next, read, h.merged);
            rest = λ i l. ground (arith, h.rest i (omega arith), h.below);
          })
    ]

merge_regions-IsMerging : (n : ℕ) (r : ℕ → FreeRegion) → 0 < n → IsMerging n r (merge_regions n r)
unfolding merge_regions
merge_regions-IsMerging n r some_ =
    for_range_inv (λ k s. IsMerging k r s) merge_step n (λ k s l h. merge_step-IsMerging k r s h)
      (n - 1) 1 (0, r) (omega arith)
      (record { below = omega arith; merged = refl; rest = λ i l. refl })

-- With at least one region, defragmenting loses no free block and makes none, and leaves at most as many
-- regions as there were.
pub defragment-free_of :
    (m : FragmentationManager)
    → 0 < m.region_count
    → (free_of (defragment m).region_count (defragment m).free_regions
        ≡ free_of m.region_count m.free_regions)
      × ((defragment m).region_count ≤ m.region_count)
unfolding defragment
defragment-free_of m some_ =
    let h =
      merge_regions-IsMerging m.region_count (sort_regions m.region_count m.free_regions) some_ in
    (cc (h.merged, sort_regions-free_of m.region_count m.free_regions), omega (arith, h.below))
