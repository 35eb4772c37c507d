-- ===== src/Memory/VirtualMemory/Mapping.antt =====
-- Each page in memory has a frame of its own, so different virtual addresses stay apart.
use os_exploring.Common.{
  ℕ, pos, ◌+◌, ◌*◌, ◌/◌, ◌%◌, ◌≤◌, ◌<◌, ◌≡◌, ◌≢◌, refl, ap, inl, inr, true, false, not, arith, leb,
  Bool-cases, Option-cases, ℕ_discrete, update, find_range, find_range-some, find_range-none,
}
use os_exploring.Memory.VirtualMemory.{
  page_size, PageTable, PhysicalMemory, initialize_page_table, initialize_physical_memory,
  allocate_frame, Access, invalid_address, no_free_frames, physical, address_in, load_page,
  handle_fault, access_page, access_memory,
}

pub record IsMapped (pt : PageTable) (pm : PhysicalMemory) : Type 0 where
  pub held :
      (p : ℕ)
      → (pt.entries p).valid ≡ true
      → ((pt.entries p).frame_num < pm.num_frames)
        × (pm.frame_status (pt.entries p).frame_num ≡ true)
  pub apart :
      (p q : ℕ)
      → (pt.entries p).valid ≡ true
      → (pt.entries q).valid ≡ true
      → (pt.entries p).frame_num ≡ (pt.entries q).frame_num
      → p ≡ q

pub initialize-IsMapped :
    (memory : ℕ) → IsMapped initialize_page_table (initialize_physical_memory memory)
unfolding initialize_page_table initialize_physical_memory
initialize-IsMapped memory = record { held = λ p v. absurd (cc v); apart = λ p q v. absurd (cc v) }

-- A page that is given a free frame.
load_page-IsMapped :
    (pt : PageTable) (pm : PhysicalMemory) (p frame : ℕ)
    → frame < pm.num_frames
    → pm.frame_status frame ≡ false
    → IsMapped pt pm
    → IsMapped
        (load_page pt p frame)
        (record pm { frame_status = update pm.frame_status frame true })
load_page-IsMapped pt pm p frame below free m = record {
  held = λ q v. elim (ℕ_discrete p q) [
    | yes same ↦ ground (arith, same, below)
    | no other ↦
        let (low, taken) = m.held q (ground (arith, v)) in
        (ground (arith, low, other), ground (arith, taken, other))
  ];
  apart = λ q r v w e. elim (ℕ_discrete p q) [
    | yes same ↦ elim (ℕ_discrete p r) [
      | yes same' ↦ omega arith
      | no other ↦
          let (_, taken) = m.held r (ground (arith, w)) in absurd (ground (arith, taken, free, e))
    ]
    | no other ↦ elim (ℕ_discrete p r) [
      | yes same ↦
          let (_, taken) = m.held q (ground (arith, v)) in absurd (ground (arith, taken, free, e))
      | no other' ↦ m.apart q r (ground (arith, v)) (ground (arith, w)) (ground (arith, e))
    ]
  ];
}

-- The page of the virtual address is in memory, and `a` is the address of its frame with the offset.
pub record Translates (pt : PageTable) (pm : PhysicalMemory) (va a : ℕ) : Type 0 where
  pub in_memory : (pt.entries (va / page_size)).valid ≡ true
  pub at : a ≡ address_in pm (pt.entries (va / page_size)).frame_num (va % page_size)

-- The address lies in the physical memory.
Translates-bounds :
    (pt : PageTable) (pm : PhysicalMemory) (va a : ℕ)
    → IsMapped pt pm
    → Translates pt pm va a
    → (pm.memory ≤ a) × (a < pm.memory + pm.num_frames * page_size)
Translates-bounds pt pm va a m t =
    let (low, _) = m.held (va / page_size) t.in_memory in
    (omega (arith, t.at), omega (arith, t.at, low))

-- Different virtual addresses have different physical ones.
Translates-apart :
    (pt : PageTable) (pm : PhysicalMemory) (va wa a b : ℕ)
    → IsMapped pt pm
    → Translates pt pm va a
    → Translates pt pm wa b
    → a ≡ b
    → va ≡ wa
Translates-apart pt pm va wa a b m t u same =
    let frames : (pt.entries (va / page_size)).frame_num ≡ (pt.entries (wa / page_size)).frame_num =
      omega (arith, t.at, u.at) in
    let pages = m.apart (va / page_size) (wa / page_size) t.in_memory u.in_memory frames in
    omega (arith, t.at, u.at, frames)

-- What access_memory leaves behind when it returns an address.
pub record Served (pt : PageTable) (pm : PhysicalMemory) (va a : ℕ) (pt' : PageTable)
    (pm' : PhysicalMemory) : Type 0 where
  pub mapped : IsMapped pt' pm'
  pub reached : Translates pt' pm' va a
  pub stays : (wa b : ℕ) → Translates pt pm wa b → Translates pt' pm' wa b
  pub place : (pm'.memory ≡ pm.memory) × (pm'.num_frames ≡ pm.num_frames)

-- The three outcomes, by the state before: the address is beyond the last page, no frame is free, or
-- the page has a frame.
pub data Outcome (pt : PageTable) (pm : PhysicalMemory) (va : ℕ)
    : Access × PageTable × PhysicalMemory → Type 0 where
  beyond : pt.num_pages ≤ va / page_size → Outcome pt pm va (invalid_address, pt, pm)
  full :
      ((i : ℕ) → i < pm.num_frames → pm.frame_status i ≡ true)
      → Outcome pt pm va (no_free_frames, pt, pm)
  served :
      (a : ℕ) (pt' : PageTable) (pm' : PhysicalMemory)
      → Served pt pm va a pt' pm'
      → Outcome pt pm va (physical a, pt', pm')

-- In a memory where each page has a frame of its own, and at an address that is not negative,
-- access_memory refuses an address beyond the last page, and gives up only if all frames are in use; else it returns the address with the page's frame
-- and the offset, pages keep their frames, and each still has one of its own.
pub access_memory-Outcome :
    (pt : PageTable) (pm : PhysicalMemory) (va : ℕ)
    → IsMapped pt pm
    → Outcome pt pm va (access_memory pt pm (pos va))
unfolding access_memory access_page handle_fault allocate_frame
access_memory-Outcome pt pm va m = elim (Bool-cases (leb pt.num_pages (va / page_size))) [
  | inl out ↦ rw out (beyond (ground (arith, out)))
  | inr in_range ↦ elim (Bool-cases (pt.entries (va / page_size)).valid) [
    | inl valid ↦
        rw (in_range, valid)
          (served (address_in pm (pt.entries (va / page_size)).frame_num (va % page_size)) pt pm
            (record {
              mapped = m;
              reached = record { in_memory = valid; at = refl };
              stays = λ wa b t. t;
              place = (refl, refl);
            }))
    | inr absent ↦ elim (Option-cases (find_range pm.num_frames 0 (λ i. not (pm.frame_status i)))) [
      | inl nothing ↦
          let kept : (allocate_frame pm).1 ≡ pm = rw (nothing, allocate_frame) refl in
          rw (in_range, absent, handle_fault, nothing, allocate_frame, kept)
            (full (λ i l. ground (
              arith,
              find_range-none pm.num_frames 0 (λ i. not (pm.frame_status i)) i nothing (omega arith)
                  (omega arith),
            )))
      | inr (frame, found) ↦
          let (_, below, free) =
            find_range-some pm.num_frames 0 (λ i. not (pm.frame_status i)) frame found in
          let p = va / page_size in
          let now : (allocate_frame pm).1
              ≡ record pm { frame_status = update pm.frame_status frame true } =
            rw (found, allocate_frame) refl in
          rw (in_range, absent, handle_fault, found, allocate_frame, now)
            (served (address_in pm frame (va % page_size)) (load_page pt p frame)
              (record pm { frame_status = update pm.frame_status frame true })
              (record {
                mapped = load_page-IsMapped pt pm p frame (omega arith) (ground (arith, free)) m;
                reached = record { in_memory = ground arith; at = ground arith };
                stays = λ wa b t. record {
                  in_memory = ground (arith, t.in_memory);
                  at = ground (arith, t.at, t.in_memory, absent);
                };
                place = (refl, refl);
              }))
    ]
  ]
]

Outcome-physical :
    (pt : PageTable) (pm : PhysicalMemory) (va : ℕ) (r : Access × PageTable × PhysicalMemory)
    (a : ℕ) (pt' : PageTable) (pm' : PhysicalMemory)
    → Outcome pt pm va r
    → r ≡ (physical a, pt', pm')
    → Served pt pm va a pt' pm'
Outcome-physical pt pm va r a pt' pm' (beyond out) e =
    absurd (cc (ap (λ (x : Access × PageTable × PhysicalMemory). x.0) e))
Outcome-physical pt pm va r a pt' pm' (full all) e =
    absurd (cc (ap (λ (x : Access × PageTable × PhysicalMemory). x.0) e))
Outcome-physical pt pm va r a pt' pm' (served b now_pt now_pm s) e =
    let same : b ≡ a = cc (ap (λ (x : Access × PageTable × PhysicalMemory). x.0) e) in
    let same_pt : now_pt ≡ pt' = ap (λ (x : Access × PageTable × PhysicalMemory). x.1) e in
    let same_pm : now_pm ≡ pm' = ap (λ (x : Access × PageTable × PhysicalMemory). x.2) e in
    rw (← same, ← same_pt, ← same_pm) s

-- Two accesses at addresses that are not negative, in a memory where each page has a frame of its own,
-- one after the other, with page faults or not: both addresses lie in the
-- physical memory, and they differ if the virtual ones do.
pub access_memory-apart :
    (pt pt1 pt2 : PageTable) (pm pm1 pm2 : PhysicalMemory) (va wa a b : ℕ)
    → IsMapped pt pm
    → access_memory pt pm (pos va) ≡ (physical a, pt1, pm1)
    → access_memory pt1 pm1 (pos wa) ≡ (physical b, pt2, pm2)
    → ((pm.memory ≤ a) × (a < pm.memory + pm.num_frames * page_size))
      × ((pm.memory ≤ b) × (b < pm.memory + pm.num_frames * page_size))
      × (va ≢ wa → a ≢ b)
access_memory-apart pt pt1 pt2 pm pm1 pm2 va wa a b m e f =
    let s = Outcome-physical pt pm va _ a pt1 pm1 (access_memory-Outcome pt pm va m) e in
    let t = Outcome-physical pt1 pm1 wa _ b pt2 pm2 (access_memory-Outcome pt1 pm1 wa s.mapped) f in
    let first = Translates-bounds pt1 pm1 va a s.mapped s.reached in
    let second = Translates-bounds pt2 pm2 wa b t.mapped t.reached in
    let (m1, n1) = s.place in
    let (m2, n2) = t.place in
    (
      (omega (arith, first, m1), omega (arith, first, m1, n1)),
      (omega (arith, second, m1, m2), omega (arith, second, m1, m2, n1, n2)),
      λ other same.
          other
            (Translates-apart pt2 pm2 va wa a b t.mapped (t.stays va a s.reached) t.reached same),
    )
