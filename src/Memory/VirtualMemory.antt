-- ===== src/Memory/VirtualMemory.antt =====
-- d15_Memory_Hierarchy/Virtual_Memory.c: pages get a frame when they are first used.
-- A virtual address is an int, which may be negative: the guard lets such an address through. Division
-- is that of C, so that page 0 takes the addresses above -4096, with a negative offset; the entry of a
-- page before that lies before the table, and what is read there is undefined.
pub mod Mapping
mod Tests
use os_exploring.Common.{
  ℕ, suc, ◌+◌, ◌-◌, ◌*◌, ◌/◌, ◌%◌, ◌^◌, ℤ, pos, negsuc, Bool, true, false, not, Option, none, some,
  ltb, leb, if◌then◌else◌, update, find_range,
}

abbrev pub page_size : ℕ
page_size = 4096

pub record PageTableEntry : Type 0 where
  pub valid : Bool
  pub frame_num : ℕ
  pub ref : Bool
  pub modified : Bool

pub record PageTable : Type 0 where
  pub entries : ℕ → PageTableEntry
  pub num_pages : ℕ

pub record PhysicalMemory : Type 0 where
  pub memory : ℕ
  pub num_frames : ℕ
  pub frame_status : ℕ → Bool

unfoldable pub initialize_page_table : PageTable
initialize_page_table = record {
  entries = λ _. record { valid = false; frame_num = 0; ref = false; modified = false };
  num_pages = 1024;
}

-- `memory` is what malloc returns.
unfoldable pub initialize_physical_memory : ℕ → PhysicalMemory
initialize_physical_memory memory = record {
  memory = memory;
  num_frames = 256;
  frame_status = λ _. false;
}

-- `none` is -1.
unfoldable pub allocate_frame : PhysicalMemory → Option ℕ × PhysicalMemory
unfolding find_range
allocate_frame pm = elim (find_range pm.num_frames 0 (λ i. not (pm.frame_status i))) [
  | none ↦ (none, pm)
  | some i ↦ (some i, record pm { frame_status = update pm.frame_status i true })
]

-- What access_memory returns, NULL with the reason that it prints; `before_table` is undefined.
pub data Access : Type 0 where
  invalid_address before_table no_free_frames : Access
  physical : ℕ → Access

abbrev pub address_in : PhysicalMemory → ℕ → ℕ → ℕ
address_in pm frame offset = pm.memory + frame * page_size + offset

-- The address in a frame that a virtual address has: a negative one has a negative offset.
abbrev address_of : PhysicalMemory → ℕ → ℤ → ℕ
address_of pm frame (pos va) = address_in pm frame (va % page_size)
address_of pm frame (negsuc n) = (address_in pm frame 0 + 2 ^ 64 - suc n % page_size) % 2 ^ 64

-- The entry of a page that was given a frame.
abbrev pub load_page : PageTable → ℕ → ℕ → PageTable
load_page pt page_num frame = record pt {
  entries =
      update pt.entries page_num
        (record (pt.entries page_num) { valid = true; frame_num = frame; ref = true });
}

-- A page fault.
unfoldable pub handle_fault :
    PageTable → PhysicalMemory → ℕ → ℤ → Access × PageTable × PhysicalMemory
unfolding allocate_frame
handle_fault pt pm page_num virtual_address =
    let (found, now) = allocate_frame pm in
    elim found [
      | none ↦ (no_free_frames, pt, now)
      | some frame ↦
          (physical (address_of pm frame virtual_address), load_page pt page_num frame, now)
    ]

-- The guard, and what follows, once the page is known.
unfoldable pub access_page :
    PageTable → PhysicalMemory → ℕ → ℤ → Access × PageTable × PhysicalMemory
unfolding handle_fault
access_page pt pm page_num virtual_address =
    if leb pt.num_pages page_num
    then (invalid_address, pt, pm)
    else if (pt.entries page_num).valid
    then (physical (address_of pm (pt.entries page_num).frame_num virtual_address), pt, pm)
    else handle_fault pt pm page_num virtual_address

unfoldable pub access_memory : PageTable → PhysicalMemory → ℤ → Access × PageTable × PhysicalMemory
unfolding access_page
access_memory pt pm (pos va) = access_page pt pm (va / page_size) (pos va)
access_memory pt pm (negsuc n) =
    if ltb (suc n) page_size then access_page pt pm 0 (negsuc n) else (before_table, pt, pm)
