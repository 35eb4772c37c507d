-- ===== src/Memory/Segmentation/Tests.antt =====
-- Two segments of ten bytes in a memory of forty, of which the first five are in use.
use os_exploring.Common.{
  ℕ, ◌*◌, ◌≢◌, ◌⊎◌, inl, inr, ℕ_discrete, ◌+◌, ◌≤◌, ◌<◌, ◌≡◌, refl, true, false, some, arith, ltb,
  if◌then◌else◌,
}
use os_exploring.Memory.Segmentation.{
  SegmentTableEntry, SegmentTable, PhysicalMemory, create_segment, no_address, translate_address,
  allocate_segment, check_access, share_segment,
}
use os_exploring.Memory.Segmentation.Translation.{
  IsPlaced, IsDisjoint, translate_address-apart, create_segment-translate_address,
  create_segment_full,
}
use os_exploring.Memory.Segmentation.Placement.{
  IsClear, allocate_segment_first, allocate_segment_twice,
}

abbrev forty : PhysicalMemory
forty = record { memory = λ k. if ltb k 5 then 1 else 0; size = 40 }

abbrev ten : ℕ → SegmentTableEntry
ten base = record { base_address = base; limit = 10; protection_bits = 4; valid = true }

abbrev two_segments : SegmentTable
two_segments = record { entries = λ _. ten 20; size = 2 }

inside : translate_address two_segments 1 3 ≡ some 23
unfolding translate_address
inside = refl

readable : check_access two_segments 1 4 ≡ true
unfolding check_access
readable = refl

not_writable : check_access two_segments 1 2 ≡ false
unfolding check_access
not_writable = refl

shared : check_access (share_segment two_segments two_segments 0 2) 2 2 ≡ true
unfolding check_access share_segment
shared = refl

-- Two segments of ten bytes that share none.
abbrev disjoint : SegmentTable
disjoint = record { entries = λ i. record (ten (10 * i)) { valid = ltb i 2 }; size = 2 }

disjoint-IsPlaced : IsPlaced disjoint forty
disjoint-IsPlaced i low v = ground (arith, v)

disjoint-IsDisjoint : IsDisjoint disjoint
disjoint-IsDisjoint i j low_i low_j v w differ = elim (ℕ_discrete i 0) [
  | yes first ↦ inl (ground (arith, first, v, w, differ))
  | no second ↦ inr (ground (arith, second, v, w, differ))
]

last_of_first : translate_address disjoint 0 9 ≡ some 9
unfolding translate_address
last_of_first = refl

first_of_second : translate_address disjoint 1 0 ≡ some 10
unfolding translate_address
first_of_second = refl

translate_address-apart_example :
    (9 < 40) × (10 < 40) × ((◌≢◌ {A = ℕ} 0 1) ⊎ (◌≢◌ {A = ℕ} 9 0) → ◌≢◌ {A = ℕ} 9 10)
translate_address-apart_example =
    translate_address-apart disjoint forty 0 9 1 0 9 10 disjoint-IsPlaced disjoint-IsDisjoint
      (omega arith) last_of_first (λ e. absurd (omega (arith, e))) first_of_second
      (λ e. absurd (omega (arith, e)))

create_segment-translate_address_run :
    ((create_segment two_segments 100 6).0 ≡ some 2)
    × (translate_address (create_segment two_segments 100 6).1 2 7 ≡ some 7)
create_segment-translate_address_run =
    create_segment-translate_address two_segments 100 6 7 (omega arith) (omega arith) (omega arith)

abbrev nearly_full : SegmentTable
nearly_full = record { entries = λ _. ten 20; size = 255 }

create_segment_full_run :
    ((create_segment nearly_full 100 6).0 ≡ some 255)
    × (translate_address (create_segment nearly_full 100 6).1 0 3 ≡ some no_address)
create_segment_full_run = create_segment_full nearly_full 100 6 0 3 refl

forty-IsClear : IsClear forty 8 10
forty-IsClear k l = ground arith

allocate_segment_first_run :
    (r : ℕ) × ((allocate_segment two_segments forty 1).0 ≡ some r)
    × (r ≤ 8)
    × (r + 10 ≤ 40)
    × IsClear forty r 10
    × (((allocate_segment two_segments forty 1).1.entries 1).base_address ≡ r)
allocate_segment_first_run =
    allocate_segment_first two_segments forty 1 8 (omega arith) (omega arith) (omega arith)
      forty-IsClear

allocate_segment_twice_run :
    (allocate_segment (allocate_segment two_segments forty 0).1 forty 1).0
    ≡ (allocate_segment two_segments forty 0).0
allocate_segment_twice_run =
    allocate_segment_twice two_segments forty 0 1 (omega arith) (omega arith)
      (λ e. absurd (omega (arith, e))) refl
