-- ===== src/Memory/Cache/Counters.antt =====
-- The counters, where a line is replaced, and an address that is never found.
use os_exploring.Common.{
  ℕ, zero, suc, ◌+◌, ◌≤◌, ◌<◌, ◌≡◌, ◌≢◌, refl, inl, inr, Bool, true, false, ◌||◌, List, [], ◌∷◌,
  arith, Option-cases, update_ne, for_range_inv, find_range, find_range-some,
}
use os_exploring.Memory.Cache.{
  Cache, set_start, tag_of, line_idx, holds_tag, older_line, find_lru_line, settle, access_cache,
}

-- The line to be replaced is one of the set.
find_lru_line-within :
    (cache : Cache) (start : ℕ)
    → 0 < cache.blocks_per_set
    → (start ≤ (find_lru_line cache start).1)
      × ((find_lru_line cache start).1 < start + cache.blocks_per_set)
unfolding find_lru_line older_line
find_lru_line-within cache start some_ =
    for_range_inv (λ i (s : ℕ × ℕ). (start ≤ s.1) × (s.1 < start + cache.blocks_per_set))
      (older_line cache start) cache.blocks_per_set (λ i (time, idx) l h. ground (arith, h))
      cache.blocks_per_set 0 ((cache.lines start).last_used, start) (omega arith)
      (omega arith, omega arith)

-- The accesses that are counted, and the shape of the cache.
pub record IsTallied (cache : Cache) : Type 0 where
  pub tallied : cache.hits + cache.misses ≡ cache.access_count

-- The addresses, one after the other.
abbrev pub access_all : Cache → List ℕ → Cache
access_all cache [] = cache
access_all cache (a ∷ rest) = access_all (access_cache cache a).1 rest

access_cache-IsTallied :
    (cache : Cache) (address : ℕ) → IsTallied cache → IsTallied (access_cache cache address).1
unfolding access_cache settle
access_cache-IsTallied cache address h =
    let now : Cache = record cache { access_count = cache.access_count + 1 } in
    elim (Option-cases (find_range now.blocks_per_set 0 (λ i. holds_tag now address))) [
      | inl miss ↦ rw miss (record { tallied = omega (arith, h.tallied) })
      | inr (i, hit) ↦ rw hit (record { tallied = omega (arith, h.tallied) })
    ]

-- Each access is a hit or a miss, whatever the addresses.
pub access_all-IsTallied :
    (cache : Cache) (addresses : List ℕ) → IsTallied cache → IsTallied (access_all cache addresses)
access_all-IsTallied cache [] h = h
access_all-IsTallied cache (a ∷ rest) h =
    access_all-IsTallied (access_cache cache a).1 rest (access_cache-IsTallied cache a h)

-- With one line in each set, the search looks at the line of the next set.
pub record IsForgotten (cache : Cache) (address : ℕ) : Type 0 where
  pub single : cache.blocks_per_set ≡ 1
  pub absent : holds_tag cache address ≡ false

-- The same address, again and again, and whether it was found each time.
abbrev pub found_again : ℕ → Cache → ℕ → Bool
found_again zero cache address = false
found_again (suc n) cache address =
    let (found, now) = access_cache cache address in
    let later = found_again n now address in found || later

access_cache-IsForgotten :
    (cache : Cache) (address : ℕ)
    → IsForgotten cache address
    → ((access_cache cache address).0 ≡ false) × IsForgotten (access_cache cache address).1 address
unfolding access_cache settle
access_cache-IsForgotten cache address h =
    let now : Cache = record cache { access_count = cache.access_count + 1 } in
    elim (Option-cases (find_range now.blocks_per_set 0 (λ i. holds_tag now address))) [
      | inr (i, hit) ↦
          let (_, _, holds) =
            find_range-some now.blocks_per_set 0 (λ i. holds_tag now address) i hit in
          absurd (cc (holds, h.absent))
      | inl miss ↦
          let (low, high) =
            find_lru_line-within now (set_start now address) (omega (arith, h.single)) in
          let other : (find_lru_line now (set_start now address)).1 ≢ line_idx now address =
            omega (arith, h.single, low, high) in
          let same =
            update_ne now.lines (find_lru_line now (set_start now address)).1 (line_idx now address)
              (record { valid = true; tag = tag_of now address; last_used = now.access_count })
              other in
          rw miss (refl, record { single = h.single; absent = rw same h.absent })
    ]

-- With one line in each set, an address that the next line does not hold is never found, however often
-- it is accessed in a row.
pub access_cache_again :
    (n : ℕ) (cache : Cache) (address : ℕ)
    → IsForgotten cache address
    → found_again n cache address ≡ false
access_cache_again zero cache address h = refl
access_cache_again (suc n) cache address h =
    let (missed, still) = access_cache-IsForgotten cache address h in
    rw (missed, access_cache_again n (access_cache cache address).1 address still)
