-- ===== src/Memory/Segmentation/Placement.antt =====
-- Where allocate_segment puts a segment.
use os_exploring.Common.{
  ℕ, zero, suc, ◌+◌, ◌≤◌, ◌<◌, ◌≡◌, ◌≢◌, ◌%◌, ◌^◌, refl, inl, inr, true, false, some, arith, leb,
  ◌==◌, Bool-cases, Option-cases, update_ne, all_range_sound, all_range_complete, dec_lt,
}
use os_exploring.Memory.Segmentation.{
  SegmentTable, PhysicalMemory, space_available, find_space, allocate_segment,
}

-- The `n` bytes from `a` on are 0.
abbrev pub IsClear : PhysicalMemory → ℕ → ℕ → Type 0
IsClear m a n = (k : ℕ) → k < n → m.memory (a + k) ≡ 0

space_available-IsClear :
    (m : PhysicalMemory) (a n : ℕ) → space_available m a n ≡ true → IsClear m a n
unfolding space_available
space_available-IsClear m a n e k l =
    ground (arith, all_range_sound n 0 (λ i. m.memory (a + i) == 0) k e (omega arith) (omega arith))

IsClear-space_available :
    (m : PhysicalMemory) (a n : ℕ) → IsClear m a n → space_available m a n ≡ true
unfolding space_available
IsClear-space_available m a n clear =
    all_range_complete n 0 (λ i. m.memory (a + i) == 0)
      (λ k b l. ground (arith, clear k (omega arith)))

find_space_sound :
    (fuel : ℕ) (m : PhysicalMemory) (size a r : ℕ)
    → m.size < 2 ^ 31
    → size ≤ m.size
    → a + fuel ≤ m.size + 1
    → find_space fuel m size a ≡ some r
    → (r + size ≤ m.size) × IsClear m r size
unfolding find_space
find_space_sound zero m size a r small fits near e = cc
find_space_sound (suc fuel) m size a r small fits near e =
    elim (Bool-cases (leb ((a + size) % 2 ^ 32) m.size)) [
      | inr over ↦ absurd (cc (rw (over, find_space) at e))
      | inl inside ↦ elim (Bool-cases (space_available m a size)) [
        | inl here ↦
            let at : a ≡ r = cc (rw (inside, here, find_space) at e) in
            let clear = space_available-IsClear m a size here in
            rw (← at) (ground (arith, inside), clear)
        | inr taken ↦
            find_space_sound fuel m size (a + 1) r small fits (omega arith)
              (rw (inside, taken, find_space) at e)
      ]
    ]

-- The place found is the first one.
find_space_complete :
    (fuel : ℕ) (m : PhysicalMemory) (size a s : ℕ)
    → m.size < 2 ^ 31
    → s + size ≤ m.size
    → a ≤ s
    → s < a + fuel
    → IsClear m s size
    → (r : ℕ) × (find_space fuel m size a ≡ some r) × (r ≤ s)
unfolding find_space
find_space_complete zero m size a s small fits near ahead clear = absurd (omega arith)
find_space_complete (suc fuel) m size a s small fits near ahead clear =
    let inside : leb ((a + size) % 2 ^ 32) m.size ≡ true = ground arith in
    elim (Bool-cases (space_available m a size)) [
      | inl here ↦ (a, rw (inside, here, find_space), near)
      | inr taken ↦ elim (dec_lt a s) [
        | yes before ↦
            let (r, e, le) =
              find_space_complete fuel m size (a + 1) s small fits (omega arith) (omega arith)
                clear in
            (r, rw (inside, taken, find_space) e, le)
        | no there ↦
            let same : a ≡ s = omega arith in
            absurd (cc (taken, IsClear-space_available m a size (rw same clear)))
      ]
    ]

-- In a memory below 2 GB, if there is a clear range for an existing segment, allocateSegment puts the
-- segment into a clear range inside the memory that starts no later.
pub allocate_segment_first :
    (table : SegmentTable) (m : PhysicalMemory) (seg s : ℕ)
    → m.size < 2 ^ 31
    → seg < table.size
    → s + (table.entries seg).limit ≤ m.size
    → IsClear m s (table.entries seg).limit
    → (r : ℕ) × ((allocate_segment table m seg).0 ≡ some r)
      × (r ≤ s)
      × (r + (table.entries seg).limit ≤ m.size)
      × IsClear m r (table.entries seg).limit
      × (((allocate_segment table m seg).1.entries seg).base_address ≡ r)
unfolding allocate_segment
allocate_segment_first table m seg s small below fits clear =
    let size = (table.entries seg).limit in
    let (r, found, le) =
      find_space_complete (m.size + 1) m size 0 s small fits (omega arith) (omega arith) clear in
    let (inside, free) =
      find_space_sound (m.size + 1) m size 0 r small (omega arith) (omega arith) found in
    let known : leb table.size seg ≡ false = ground arith in
    (
      r,
      rw (known, found, allocate_segment),
      le,
      inside,
      free,
      rw (known, found, allocate_segment) (ground arith),
    )

allocate_segment-find_space :
    (table : SegmentTable) (m : PhysicalMemory) (i : ℕ)
    → i < table.size
    → (allocate_segment table m i).0 ≡ find_space (m.size + 1) m (table.entries i).limit 0
unfolding allocate_segment
allocate_segment-find_space table m i below =
    let known : leb table.size i ≡ false = ground arith in
    elim (Option-cases (find_space (m.size + 1) m (table.entries i).limit 0)) [
      | inl nothing ↦ rw (known, nothing, allocate_segment) refl
      | inr (r, found) ↦ rw (known, found, allocate_segment) refl
    ]

allocate_segment_keeps :
    (table : SegmentTable) (m : PhysicalMemory) (i j : ℕ)
    → i < table.size
    → i ≢ j
    → ((allocate_segment table m i).1.size ≡ table.size)
      × ((allocate_segment table m i).1.entries j ≡ table.entries j)
unfolding allocate_segment
allocate_segment_keeps table m i j below differ =
    let known : leb table.size i ≡ false = ground arith in
    elim (Option-cases (find_space (m.size + 1) m (table.entries i).limit 0)) [
      | inl nothing ↦ rw (known, nothing, allocate_segment) (refl, refl)
      | inr (r, found) ↦
          let entry = table.entries i in
          rw (known, found, allocate_segment)
            (refl, update_ne table.entries i j (record entry { base_address = r }) differ)
    ]

-- Placing a segment leaves the memory as it is: another segment of the same limit, placed next, gets
-- the same answer, so that the two overlap.
pub allocate_segment_twice :
    (table : SegmentTable) (m : PhysicalMemory) (i j : ℕ)
    → i < table.size
    → j < table.size
    → i ≢ j
    → (table.entries i).limit ≡ (table.entries j).limit
    → (allocate_segment (allocate_segment table m i).1 m j).0 ≡ (allocate_segment table m i).0
allocate_segment_twice table m i j below_i below_j differ same =
    let (size_, entry) = allocate_segment_keeps table m i j below_i differ in
    let first = allocate_segment-find_space table m i below_i in
    let second =
      allocate_segment-find_space (allocate_segment table m i).1 m j (rw size_ below_j) in
    rw (second, first, entry, same) refl
