-- ===== src/Storage/ContiguousDisk/Allocate.antt =====
-- What allocate_contiguous promises: soundness, completeness and the count of free blocks.
use os_exploring.Common.{
  ℕ, ◌+◌, ◌≤◌, ◌<◌, ◌≡◌, refl, inl, inr, true, none, some, arith, ◌==◌, Option-cases,
  count_range-all,
}
use os_exploring.Storage.ContiguousDisk.{
  ContiguousAllocator, init_contiguous_allocator, find_run, allocate_contiguous,
}
use os_exploring.Storage.ContiguousDisk.Runs.{IsFree, find_run_lem, find_run-ne-none}
use os_exploring.Storage.ContiguousDisk.Marks.{free_count, Marked, mark_run_lem}

-- The counter of free blocks is the number of free blocks.
abbrev pub IsCounted : ContiguousAllocator → Type 0
IsCounted a = a.free_blocks ≡ free_count a.total_blocks a.disk_blocks

pub init_contiguous_allocator-IsCounted :
    (total : ℕ) (a : ContiguousAllocator)
    → init_contiguous_allocator true total ≡ some a
    → IsCounted a
unfolding init_contiguous_allocator
init_contiguous_allocator-IsCounted total a e =
    let count : free_count total (λ _. 0) ≡ total =
      count_range-all total (λ _. 0 == 0) (λ i l. refl) in
    cc (e, count)

-- The allocator with the run of `n` blocks from `start` on taken.
abbrev pub Takes : ContiguousAllocator → ℕ → ℕ → ContiguousAllocator → Type 0
Takes a start n b =
    IsFree a.disk_blocks start n
    × (start + n ≤ a.total_blocks)
    × (b.total_blocks ≡ a.total_blocks)
    × (b.free_blocks + n ≡ a.free_blocks)
    × Marked a.total_blocks a.disk_blocks start (start + n) b.disk_blocks

-- If the counter of free blocks is right and the allocation of one or more blocks returns a start,
-- the run from it lies on the disk and was free, exactly its blocks are marked, and the counter goes
-- down by their number.
pub allocate_contiguous-Takes :
    (a : ContiguousAllocator) (needed start : ℕ)
    → 0 < needed
    → IsCounted a
    → (allocate_contiguous a needed).0 ≡ some start
    → Takes a start needed (allocate_contiguous a needed).1
unfolding allocate_contiguous
allocate_contiguous-Takes a needed start positive counted e =
    elim (Option-cases (find_run a.total_blocks 0 0 0 a.disk_blocks needed)) [
      | inl nothing ↦ absurd (cc (rw (nothing, allocate_contiguous) at e))
      | inr (s, found) ↦
          let at : s ≡ start = cc (rw (found, allocate_contiguous) at e) in
          let (fits, free) = find_run_lem a.total_blocks a.disk_blocks needed s positive found in
          let m = mark_run_lem a.total_blocks a.disk_blocks s needed free fits in
          rw (found, allocate_contiguous, ← at)
            (free, fits, refl, omega (arith, counted, m.counted), m)
    ]

-- Allocating one or more blocks keeps the counter of free blocks right.
pub allocate_contiguous-IsCounted :
    (a : ContiguousAllocator) (needed : ℕ)
    → 0 < needed
    → IsCounted a
    → IsCounted (allocate_contiguous a needed).1
unfolding allocate_contiguous
allocate_contiguous-IsCounted a needed positive counted =
    elim (Option-cases (find_run a.total_blocks 0 0 0 a.disk_blocks needed)) [
      | inl nothing ↦ rw (nothing, allocate_contiguous) counted
      | inr (s, found) ↦
          let (fits, free) = find_run_lem a.total_blocks a.disk_blocks needed s positive found in
          let m = mark_run_lem a.total_blocks a.disk_blocks s needed free fits in
          rw (found, allocate_contiguous) (omega (arith, counted, m.counted))
    ]

-- If the allocation of one or more blocks fails, nothing changes and the disk has no free run of
-- that length.
pub allocate_contiguous-none :
    (a : ContiguousAllocator) (needed : ℕ)
    → 0 < needed
    → (allocate_contiguous a needed).0 ≡ none
    → ((allocate_contiguous a needed).1 ≡ a)
      × ¬ ((s : ℕ) × (s + needed ≤ a.total_blocks) × IsFree a.disk_blocks s needed)
unfolding allocate_contiguous
allocate_contiguous-none a needed positive e =
    elim (Option-cases (find_run a.total_blocks 0 0 0 a.disk_blocks needed)) [
      | inl nothing ↦ (
        rw (nothing, allocate_contiguous),
        λ (s, fits, free).
            let (r, found) =
              find_run-ne-none a.total_blocks a.disk_blocks needed s positive fits free in
            cc,
      )
      | inr (s, found) ↦ absurd (cc (rw (found, allocate_contiguous) at e))
    ]
