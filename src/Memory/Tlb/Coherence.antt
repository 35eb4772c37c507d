-- ===== src/Memory/Tlb/Coherence.antt =====
-- The TLB is a cache: it never changes what an address translates to.
use os_exploring.Common.{
  ℕ, ◌/◌, ◌%◌, ◌<◌, ◌≡◌, refl, inl, inr, true, not, ◌&&◌, some, arith, ltb, leb, ◌==◌,
  if◌then◌else◌, update, Bool-cases, Option-cases, find_range-some,
}
use os_exploring.Memory.Tlb.{
  TlbEntry, AddressTranslator, initialize_address_translator, update_tlb, find_lru, no_address,
  join_address, find_entry, translate_address,
}

-- The translation by the page table alone.
abbrev pub walk : AddressTranslator → ℕ → ℕ
walk at a =
    if ltb (a / 4096) at.page_table_size && (at.page_table (a / 4096)).valid
    then join_address (at.page_table (a / 4096)).frame_num (a % 4096)
    else no_address

-- An entry in use says what the page table says.
pub record Agrees (at : AddressTranslator) (e : TlbEntry) : Type 0 where
  pub in_table : e.page_num < at.page_table_size
  pub mapped : (at.page_table e.page_num).valid ≡ true
  pub same : e.frame_num ≡ (at.page_table e.page_num).frame_num

pub record IsCoherent (at : AddressTranslator) : Type 0 where
  pub agrees : (i : ℕ) → i < at.tlb_size → (at.tlb i).valid ≡ true → Agrees at (at.tlb i)

pub initialize_address_translator-IsCoherent : IsCoherent initialize_address_translator
unfolding initialize_address_translator
initialize_address_translator-IsCoherent = record { agrees = λ i lt e. cc }

update-IsCoherent :
    (at : AddressTranslator) (k : ℕ) (e : TlbEntry) (clock : ℕ)
    → IsCoherent at
    → (k < at.tlb_size → Agrees at e)
    → IsCoherent (record at { tlb = update at.tlb k e; clock = clock })
update-IsCoherent at k e clock c fine = record {
  agrees = λ i lt v. elim (Bool-cases (k == i)) [
    | inl this ↦
        let eq : k ≡ i = ground arith in
        let a : Agrees at e = fine (omega arith) in
        rw this (record { in_table = a.in_table; mapped = a.mapped; same = a.same })
    | inr other ↦
        let a : Agrees at (at.tlb i) = c.agrees i lt (rw other at v) in
        rw other (record { in_table = a.in_table; mapped = a.mapped; same = a.same })
  ];
}

module _ (at : AddressTranslator) (c : IsCoherent at) (a : ℕ) where
  hit-Agrees :
      (i : ℕ)
      → find_entry at (a / 4096) ≡ some i
      → Agrees at (at.tlb i) × (i < at.tlb_size) × ((at.tlb i).page_num ≡ a / 4096)
  unfolding find_entry
  hit-Agrees i found =
      let (_, lt, hit) = find_range-some at.tlb_size 0 _ i found in
      (c.agrees i (omega arith) (ground arith), omega arith, ground arith)

  -- With a coherent TLB an address translates as by the page table alone, errors included.
  pub translate_address-eq-walk : (translate_address at a).0 ≡ walk at a
  unfolding translate_address
  translate_address-eq-walk = elim (Option-cases (find_entry at (a / 4096))) [
    | inr (i, found) ↦
        let (g, _, page) = hit-Agrees i found in
        rw (found, translate_address) (ground (arith, page, g.in_table, g.mapped, g.same))
    | inl missed ↦ rw (missed, translate_address) (ground arith)
  ]

  -- A translation leaves the TLB coherent, whether it hits, misses or fails.
  pub translate_address-IsCoherent : IsCoherent (translate_address at a).1
  unfolding translate_address update_tlb
  translate_address-IsCoherent = elim (Option-cases (find_entry at (a / 4096))) [
    | inr (i, found) ↦
        let (g, _, _) = hit-Agrees i found in
        rw (found, translate_address)
          (update-IsCoherent at i _ _ c
            (λ _. record { in_table = g.in_table; mapped = g.mapped; same = g.same }))
    | inl missed ↦ elim (Bool-cases (leb at.page_table_size (a / 4096))) [
      | inl out ↦ rw (missed, out, translate_address) c
      | inr inside ↦ elim (Bool-cases (not (at.page_table (a / 4096)).valid)) [
        | inl absent ↦ rw (missed, inside, absent, translate_address) c
        | inr present ↦
            rw (missed, inside, present, translate_address)
              (update-IsCoherent at (find_lru at).1 _ _ c
                (λ _. record { in_table = ground arith; mapped = ground arith; same = refl }))
      ]
    ]
  ]
