-- ===== src/Memory/Cache.antt =====
-- d15_Memory_Hierarchy/Cache_Memory_Management.c: a set-associative cache with least-recently-used
-- replacement. Addresses are not negative. `lines` has num_sets * blocks_per_set lines; past them it is
-- what the memory behind the array holds, which the search reads.
pub mod Counters
mod Tests
use os_exploring.Common.{
  ℕ, ◌+◌, ◌*◌, ◌/◌, ◌%◌, Bool, true, false, not, ◌&&◌, ◌||◌, Option, none, some, ltb, ◌==◌,
  if◌then◌else◌, update, for_range, find_range,
}

abbrev pub cache_block_size : ℕ
cache_block_size = 64

-- `data` is never read or written.
pub record CacheLine : Type 0 where
  pub valid : Bool
  pub tag : ℕ
  pub last_used : ℕ

pub record Cache : Type 0 where
  pub lines : ℕ → CacheLine
  pub num_sets : ℕ
  pub blocks_per_set : ℕ
  pub access_count : ℕ
  pub hits : ℕ
  pub misses : ℕ

-- CACHE_SIZE is 256 and NUM_SETS is 4.
unfoldable pub initialize_cache : Cache
initialize_cache = record {
  lines = λ _. record { valid = false; tag = 0; last_used = 0 };
  num_sets = 4;
  blocks_per_set = 256 / (cache_block_size * 4);
  access_count = 0;
  hits = 0;
  misses = 0;
}

abbrev pub set_start : Cache → ℕ → ℕ
set_start cache address = address / cache_block_size % cache.num_sets * cache.blocks_per_set

abbrev pub tag_of : Cache → ℕ → ℕ
tag_of cache address = address / (cache_block_size * cache.num_sets)

-- The line that every round of the search looks at.
abbrev pub line_idx : Cache → ℕ → ℕ
line_idx cache address = set_start cache address + 1

abbrev pub holds_tag : Cache → ℕ → Bool
holds_tag cache address =
    let line = cache.lines (line_idx cache address) in
    line.valid && (line.tag == tag_of cache address)

-- The body of the second loop, on `lru_time` and `lru_idx`.
unfoldable pub older_line : Cache → ℕ → ℕ → ℕ × ℕ → ℕ × ℕ
older_line cache start i (time, idx) =
    let line = cache.lines (start + i) in
    if not line.valid || ltb line.last_used time then (line.last_used, start + i) else (time, idx)

unfoldable pub find_lru_line : Cache → ℕ → ℕ × ℕ
unfolding for_range older_line
find_lru_line cache start =
    for_range cache.blocks_per_set 0 (older_line cache start) ((cache.lines start).last_used, start)

-- What follows once the access is counted: a hit at some round of the search, or a miss.
unfoldable pub settle : Cache → ℕ → Option ℕ → Bool × Cache
unfolding find_lru_line
settle cache address (some i) =
    let idx = line_idx cache address in
    (
      true,
      record cache {
        hits = cache.hits + 1;
        lines =
            update cache.lines idx (record (cache.lines idx) { last_used = cache.access_count });
      },
    )
settle cache address none = (
  false,
  record cache {
    misses = cache.misses + 1;
    lines =
        update cache.lines (find_lru_line cache (set_start cache address)).1
          (record { valid = true; tag = tag_of cache address; last_used = cache.access_count });
  },
)

unfoldable pub access_cache : Cache → ℕ → Bool × Cache
unfolding find_range settle
access_cache cache address =
    let now : Cache = record cache { access_count = cache.access_count + 1 } in
    settle now address (find_range now.blocks_per_set 0 (λ i. holds_tag now address))
