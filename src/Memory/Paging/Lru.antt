-- ===== src/Memory/Paging/Lru.antt =====
-- Least recently used: which frame `LRUPageReplacement` gives up.
use os_exploring.Common.{
  int_max, ℕ, ◌+◌, ◌<◌, ◌≡◌, ◌≢◌, refl, ◌⊎◌, inl, inr, false, none, arith, ltb, ℤ, pos, eqb_ℤ,
  eqb_ℤ_iff, ltb_ℤ, ◌≤ℤ◌, Bool-cases, Option-cases, if◌then◌else◌, update, find_range,
  find_range-some, dec_lt, for_range_inv,
}
use os_exploring.Memory.Paging.{PageFrame, LruState, lru_scan, lru_step}

record Scanned (frames : ℕ → PageFrame) (k : ℕ) (s : ℤ × ℕ) : Type 0 where
  least : (j : ℕ) → j < k → s.0 ≤ℤ (frames j).last_used
  found : ((s.0 ≡ int_max) × (s.1 ≡ 0)) ⊎ ((s.1 < k) × (s.0 ≡ (frames s.1).last_used))

Scanned-step :
    (frames : ℕ → PageFrame) (j : ℕ) (s : ℤ × ℕ)
    → Scanned frames j s
    → Scanned frames
        (j + 1)
        (if ltb_ℤ (frames j).last_used s.0 then ((frames j).last_used, j) else s)
Scanned-step frames j s h = elim (Bool-cases (ltb_ℤ (frames j).last_used s.0)) [
  | inl lower ↦ rw lower (record {
    least = λ i lt. elim (dec_lt i j) [
      | yes old ↦ ground (arith, h.least i old)
      | no new ↦ let e : i ≡ j = omega arith in rw e (omega arith)
    ];
    found = inr (omega arith, refl);
  })
  | inr higher ↦ rw higher (record {
    least = λ i lt. elim (dec_lt i j) [
      | yes old ↦ h.least i old
      | no new ↦ let e : i ≡ j = omega arith in rw e (ground arith)
    ];
    found = elim h.found [ inl none_yet ↦ inl none_yet | inr (lt, e) ↦ inr (omega arith, e) ];
  })
]

lru_scan-Scanned :
    (frames : ℕ → PageFrame) (capacity : ℕ) → Scanned frames capacity (lru_scan frames capacity)
unfolding lru_scan
lru_scan-Scanned frames capacity =
    for_range_inv (Scanned frames) _ capacity (λ j s _ h. Scanned-step frames j s h) capacity 0 _
      (omega arith) (record { least = λ j lt. absurd (omega arith); found = inl (refl, refl) })

-- The frame that the scan picks is in range, and no frame was used longer ago.
pub lru_scan_lem :
    (frames : ℕ → PageFrame) (capacity : ℕ)
    → 0 < capacity
    → ((j : ℕ) → j < capacity → (frames j).last_used ≤ℤ int_max)
    → ((lru_scan frames capacity).1 < capacity)
      × ((j : ℕ)
          → j < capacity
          → (frames (lru_scan frames capacity).1).last_used ≤ℤ (frames j).last_used)
lru_scan_lem frames capacity pos_ small =
    let h = lru_scan-Scanned frames capacity in
    elim h.found [
      | inr (lt, e) ↦ (lt, λ j jlt. rw (← e) (h.least j jlt))
      | inl (e, z) ↦ (
        omega arith,
        λ j jlt.
            let l = h.least j jlt in
            let m = small (lru_scan frames capacity).1 (omega arith) in ground (arith, l, m, e),
      )
    ]

find_absent :
    (s : LruState) (page : ℤ)
    → ((j : ℕ) → j < s.curr_size → (s.frames j).page ≢ page)
    → find_range s.curr_size 0 (λ j. eqb_ℤ (s.frames j).page page) ≡ none
find_absent s page absent =
    elim (Option-cases (find_range s.curr_size 0 (λ j. eqb_ℤ (s.frames j).page page))) [
      | inl missed ↦ missed
      | inr (k, found) ↦
          let (_, lt, hit) = find_range-some s.curr_size 0 _ k found in
          absurd (absent k (omega arith) ((eqb_ℤ_iff (s.frames k).page page).0 hit))
    ]

-- A page that is in no frame of a full memory replaces the page of a frame that frame `j`, as any
-- other, was not used longer ago than; the other frames stay, and the page counts as a fault.
pub lru_step_evicts :
    (capacity i j : ℕ) (page : ℤ) (s : LruState)
    → j < capacity
    → s.curr_size ≡ capacity
    → ((k : ℕ) → k < capacity → (s.frames k).last_used ≤ℤ int_max)
    → ((k : ℕ) → k < s.curr_size → (s.frames k).page ≢ page)
    → (victim : ℕ) × (victim < capacity)
      × ((s.frames victim).last_used ≤ℤ (s.frames j).last_used)
      × ((lru_step capacity i page s).frames
          ≡ update s.frames victim (record { page = page; last_used = pos i }))
      × ((lru_step capacity i page s).page_faults ≡ s.page_faults + 1)
unfolding lru_step
lru_step_evicts capacity i j page s inside full small absent =
    let (lt, least) = lru_scan_lem s.frames capacity (omega arith) small in
    let missed : find_range s.curr_size 0 (λ j. eqb_ℤ (s.frames j).page page) ≡ none =
      find_absent s page absent in
    let no_room : ltb s.curr_size capacity ≡ false = ground arith in
    (
      (lru_scan s.frames capacity).1,
      lt,
      least j inside,
      rw (missed, no_room, lru_step),
      rw (missed, no_room, lru_step),
    )
