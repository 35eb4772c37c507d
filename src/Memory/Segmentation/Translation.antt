-- ===== src/Memory/Segmentation/Translation.antt =====
-- The addresses that translate_address gives out.
use os_exploring.Common.{
  ℕ, ◌+◌, ◌%◌, ◌⊎◌, inl, inr, ap, ℕ_discrete, ◌^◌, ◌≤◌, ◌<◌, ◌≡◌, ◌≢◌, true, some, arith,
}
use os_exploring.Memory.Segmentation.{
  max_segments, SegmentTableEntry, SegmentTable, PhysicalMemory, create_segment, no_address,
  translate_address,
}

-- Each valid segment lies in the memory.
abbrev pub IsPlaced : SegmentTable → PhysicalMemory → Type 0
IsPlaced table m =
    (i : ℕ)
    → i < max_segments
    → (table.entries i).valid ≡ true
    → (table.entries i).base_address + (table.entries i).limit ≤ m.size

-- One segment ends before the other begins.
abbrev IsApart : SegmentTableEntry → SegmentTableEntry → Type 0
IsApart x y =
    (x.base_address + x.limit ≤ y.base_address) ⊎ (y.base_address + y.limit ≤ x.base_address)

-- The valid segments have no bytes in common.
abbrev pub IsDisjoint : SegmentTable → Type 0
IsDisjoint table =
    (i j : ℕ)
    → i < max_segments
    → j < max_segments
    → (table.entries i).valid ≡ true
    → (table.entries j).valid ≡ true
    → i ≢ j
    → IsApart (table.entries i) (table.entries j)

-- What a translation says of the segment.
record Translated (table : SegmentTable) (segment offset a : ℕ) : Type 0 where
  inside : segment < max_segments
  valid : (table.entries segment).valid ≡ true
  below : offset < (table.entries segment).limit
  at : a ≡ ((table.entries segment).base_address + offset) % 2 ^ 32

translate_address-Translated :
    (table : SegmentTable) (segment offset a : ℕ)
    → translate_address table segment offset ≡ some a
    → a ≢ no_address
    → Translated table segment offset a
unfolding translate_address
translate_address-Translated table segment offset a e ok = record {
  inside = ground (arith, e, ok);
  valid = ground (arith, e, ok);
  below = ground (arith, e, ok);
  at = ground (arith, e, ok);
}

-- Let the valid segments lie in a memory of less than 4 GB and have no bytes in common. Of two
-- translations that do not fail, both addresses lie in the memory, and they differ if the segments or
-- the offsets do: no segment reaches into another.
pub translate_address-apart :
    (table : SegmentTable) (m : PhysicalMemory) (segment offset other place a b : ℕ)
    → IsPlaced table m
    → IsDisjoint table
    → m.size < 2 ^ 32
    → translate_address table segment offset ≡ some a
    → a ≢ no_address
    → translate_address table other place ≡ some b
    → b ≢ no_address
    → (a < m.size) × (b < m.size) × ((segment ≢ other) ⊎ (offset ≢ place) → a ≢ b)
translate_address-apart table m segment offset other place a b placed apart small e ok f ok' =
    let s = translate_address-Translated table segment offset a e ok in
    let t = translate_address-Translated table other place b f ok' in
    let end_s = placed segment s.inside s.valid in
    let end_t = placed other t.inside t.valid in
    let low_a : a < m.size = omega (arith, s.at, s.below, end_s, small) in
    let low_b : b < m.size = omega (arith, t.at, t.below, end_t, small) in
    let at_a : a ≡ (table.entries segment).base_address + offset =
      omega (arith, s.at, s.below, end_s, small) in
    let at_b : b ≡ (table.entries other).base_address + place =
      omega (arith, t.at, t.below, end_t, small) in
    (
      low_a,
      low_b,
      λ differ same. elim (ℕ_discrete segment other) [
        | yes one ↦
            let bases : (table.entries segment).base_address ≡ (table.entries other).base_address =
              ap (λ (i : ℕ). (table.entries i).base_address) one in
            elim differ [
              | inl two ↦ two one
              | inr offsets ↦ offsets (omega (arith, at_a, at_b, bases, same))
            ]
        | no two ↦ elim (apart segment other s.inside t.inside s.valid t.valid two) [
          | inl before ↦ omega (arith, at_a, at_b, s.below, before, same)
          | inr behind ↦ omega (arith, at_a, at_b, t.below, behind, same)
        ]
      ],
    )

-- While the table has room for more than one segment, a new segment is translated from address 0 up
-- to its limit, for offsets below 4 GB.
pub create_segment-translate_address :
    (table : SegmentTable) (size protection offset : ℕ)
    → table.size < 255
    → offset < size
    → offset < 2 ^ 32
    → ((create_segment table size protection).0 ≡ some table.size)
      × (translate_address (create_segment table size protection).1 table.size offset ≡ some offset)
unfolding create_segment translate_address
create_segment-translate_address table size protection offset room below small =
    (ground arith, ground arith)

-- The last segment that fits into the table is created, and from then on no address of any segment
-- is translated.
pub create_segment_full :
    (table : SegmentTable) (size protection segment offset : ℕ)
    → table.size ≡ 255
    → ((create_segment table size protection).0 ≡ some 255)
      × (translate_address (create_segment table size protection).1 segment offset
          ≡ some no_address)
unfolding create_segment translate_address
create_segment_full table size protection segment offset last = (ground (arith, last), ground arith)
