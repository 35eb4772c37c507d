-- ===== src/Memory/Segmentation.antt =====
-- memory_segmentation.c: the segment table, translation, access, sharing and placement.
-- Unsigned numbers wrap at 2 ^ 32. `none` is the -1 of an `int`; a negative segment number is compared
-- as an unsigned one, which is beyond every size, so segment numbers are ℕ.
pub mod Translation
pub mod Placement
mod Tests
use Prim.Native.Nat.{bit_and}
use os_exploring.Common.{
  ℕ, zero, suc, ◌+◌, ◌-◌, ◌%◌, ◌^◌, Bool, true, false, not, Option, none, some, ltb, leb, ◌==◌,
  if◌then◌else◌, update, all_range,
}

abbrev pub max_segments : ℕ
max_segments = 256

abbrev pub max_memory_size : ℕ
max_memory_size = 65536

pub record SegmentTableEntry : Type 0 where
  pub base_address : ℕ
  pub limit : ℕ
  pub protection_bits : ℕ
  pub valid : Bool

pub record SegmentTable : Type 0 where
  pub entries : ℕ → SegmentTableEntry
  pub size : ℕ

pub record PhysicalMemory : Type 0 where
  pub memory : ℕ → ℕ
  pub size : ℕ

unfoldable pub init_segment_table : SegmentTable
init_segment_table = record {
  entries = λ _. record { base_address = 0; limit = 0; protection_bits = 0; valid = false };
  size = 0;
}

unfoldable pub create_segment : SegmentTable → ℕ → ℕ → Option ℕ × SegmentTable
create_segment table size protection = if leb max_segments table.size then (none, table) else (
  some table.size,
  record {
    entries =
        update table.entries table.size
          (record { base_address = 0; limit = size; protection_bits = protection; valid = true });
    size = table.size + 1;
  },
)

-- `return -1`, as an unsigned int.
abbrev pub no_address : ℕ
no_address = 2 ^ 32 - 1

-- The source does not test `segment`: `none` is an access outside of the entries.
unfoldable pub translate_address : SegmentTable → ℕ → ℕ → Option ℕ
translate_address table segment offset =
    let entry = table.entries segment in
    if leb max_segments table.size
    then some no_address
    else if leb max_segments segment
    then none
    else if not entry.valid
    then some no_address
    else if leb entry.limit offset
    then some no_address
    else some ((entry.base_address + offset) % 2 ^ 32)

unfoldable pub check_access : SegmentTable → ℕ → ℕ → Bool
check_access table segment access_type =
    if leb table.size segment
    then false
    else not (bit_and (table.entries segment).protection_bits access_type == 0)

-- malloc leaves `raw` in the memory.
unfoldable pub init_physical_memory : (ℕ → ℕ) → PhysicalMemory
init_physical_memory raw = record { memory = raw; size = max_memory_size }

-- The new state of `target`.
unfoldable pub share_segment : SegmentTable → SegmentTable → ℕ → ℕ → SegmentTable
share_segment source target seg_num protection =
    if leb source.size seg_num then target else record {
      entries =
          update target.entries target.size
            (record (source.entries seg_num) { protection_bits = protection });
      size = target.size + 1;
    }

-- The inner loop of `allocateSegment`.
unfoldable pub space_available : PhysicalMemory → ℕ → ℕ → Bool
unfolding all_range
space_available m curr_addr size = all_range size 0 (λ i. m.memory (curr_addr + i) == 0)

-- The `while` loop of `allocateSegment`, with fuel.
unfoldable pub find_space : ℕ → PhysicalMemory → ℕ → ℕ → Option ℕ
unfolding space_available
find_space zero m size curr_addr = none
find_space (suc fuel) m size curr_addr =
    let rest = find_space fuel m size (curr_addr + 1) in
    if leb ((curr_addr + size) % 2 ^ 32) m.size
    then (if space_available m curr_addr size then some curr_addr else rest)
    else none

-- No start lies past the size of the memory, so the fuel is enough.
unfoldable pub allocate_segment : SegmentTable → PhysicalMemory → ℕ → Option ℕ × SegmentTable
unfolding find_space
allocate_segment table m seg_num =
    let entry = table.entries seg_num in
    if leb table.size seg_num
    then (none, table)
    else elim (find_space (m.size + 1) m entry.limit 0) [
      | none ↦ (none, table)
      | some addr ↦ (
        some addr,
        record table {
          entries = update table.entries seg_num (record entry { base_address = addr });
        },
      )
    ]
