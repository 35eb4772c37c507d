-- ===== src/Memory/VirtualMemory/Tests.antt =====
-- The first access to a fresh memory, and one to another page after it.
use os_exploring.Common.{ℕ, pos, negsuc, ◌+◌, ◌*◌, ◌≡◌, ◌≢◌, ◌≤◌, ◌<◌, refl, find_range}
use os_exploring.Memory.VirtualMemory.{
  PageTable, PhysicalMemory, page_size, initialize_page_table, initialize_physical_memory, physical,
  access_page, access_memory,
}
use os_exploring.Memory.VirtualMemory.Mapping.{
  Outcome, initialize-IsMapped, access_memory-Outcome, access_memory-apart,
}

abbrev blank : PageTable
blank = initialize_page_table

abbrev frames : PhysicalMemory
frames = initialize_physical_memory 65536

abbrev blank_then : PageTable
blank_then = (access_memory blank frames (pos 8200)).1

abbrev frames_then : PhysicalMemory
frames_then = (access_memory blank frames (pos 8200)).2

first_access : access_memory blank frames (pos 8200) ≡ (physical 65544, blank_then, frames_then)
unfolding access_memory access_page initialize_page_table initialize_physical_memory find_range
first_access = refl

second_access : access_memory blank_then frames_then (pos 5) ≡ (
  physical 69637,
  (access_memory blank_then frames_then (pos 5)).1,
  (access_memory blank_then frames_then (pos 5)).2,
)
unfolding access_memory access_page initialize_page_table initialize_physical_memory find_range
second_access = refl

-- A negative address lies before the frame of page 0.
negative_access : (access_memory blank frames (negsuc 9)).0 ≡ physical 65526
unfolding access_memory access_page initialize_page_table initialize_physical_memory find_range
negative_access = refl

access_memory-Outcome_run : Outcome blank frames 8200 (access_memory blank frames (pos 8200))
access_memory-Outcome_run = access_memory-Outcome blank frames 8200 (initialize-IsMapped 65536)

access_memory-apart_example :
    ((frames.memory ≤ 65544) × (65544 < frames.memory + frames.num_frames * page_size))
    × ((frames.memory ≤ 69637) × (69637 < frames.memory + frames.num_frames * page_size))
    × (◌≢◌ {A = ℕ} 8200 5 → ◌≢◌ {A = ℕ} 65544 69637)
access_memory-apart_example =
    access_memory-apart blank blank_then (access_memory blank_then frames_then (pos 5)).1 frames
      frames_then (access_memory blank_then frames_then (pos 5)).2 8200 5 65544 69637
      (initialize-IsMapped 65536) first_access second_access
