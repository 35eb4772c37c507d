-- ===== src/Memory/Tlb.antt =====
-- d16_Logical_vs_Physical_Address_Space/Translation_mechanism.c: translation through a TLB with
-- least-recently-used replacement. Unsigned values are below 2 ^ 32; `clock++` wraps.
-- `(frame_num << 12) | offset` joins disjoint bits, hence the sum.
mod Coherence
mod Tests
use os_exploring.Common.{
  ℕ, ◌+◌, ◌-◌, ◌*◌, ◌/◌, ◌%◌, ◌^◌, Bool, true, false, not, ◌&&◌, Option, none, some, ltb, leb, ◌==◌,
  if◌then◌else◌, update, for_range, find_range,
}

pub record TlbEntry : Type 0 where
  pub page_num : ℕ
  pub frame_num : ℕ
  pub valid : Bool
  pub access_time : ℕ

pub record PageTableEntry : Type 0 where
  pub frame_num : ℕ
  pub valid : Bool
  pub protection_bits : ℕ

pub record AddressTranslator : Type 0 where
  pub tlb : ℕ → TlbEntry
  pub page_table : ℕ → PageTableEntry
  pub tlb_size : ℕ
  pub page_table_size : ℕ
  pub clock : ℕ

-- `calloc` clears both tables.
unfoldable pub initialize_address_translator : AddressTranslator
initialize_address_translator = record {
  tlb = λ _. record { page_num = 0; frame_num = 0; valid = false; access_time = 0 };
  page_table = λ _. record { frame_num = 0; valid = false; protection_bits = 0 };
  tlb_size = 16;
  page_table_size = 1024;
  clock = 0;
}

-- The loop of `updateTLB`: `min_time` and `lru_idx`.
unfoldable pub find_lru : AddressTranslator → ℕ × ℕ
unfolding for_range
find_lru at =
    for_range (at.tlb_size - 1) 1
      (λ i s. if ltb (at.tlb i).access_time s.0 then ((at.tlb i).access_time, i) else s)
      ((at.tlb 0).access_time, 0)

abbrev pub tick : ℕ → ℕ
tick clock = (clock + 1) % 2 ^ 32

unfoldable pub update_tlb : AddressTranslator → ℕ → ℕ → AddressTranslator
unfolding find_lru
update_tlb at page_num frame_num = record at {
  tlb =
      update at.tlb (find_lru at).1 (record {
        page_num = page_num;
        frame_num = frame_num;
        valid = true;
        access_time = at.clock;
      });
  clock = tick at.clock;
}

-- `return -1`, as an unsigned int.
abbrev pub no_address : ℕ
no_address = 2 ^ 32 - 1

abbrev pub join_address : ℕ → ℕ → ℕ
join_address frame_num offset = frame_num * 4096 % 2 ^ 32 + offset

-- The search of the TLB.
unfoldable pub find_entry : AddressTranslator → ℕ → Option ℕ
unfolding find_range
find_entry at page_num =
    find_range at.tlb_size 0 (λ i. (at.tlb i).valid && ((at.tlb i).page_num == page_num))

unfoldable pub translate_address : AddressTranslator → ℕ → ℕ × AddressTranslator
unfolding find_entry update_tlb
translate_address at logical_address =
    let page_num = logical_address / 4096 in
    let offset = logical_address % 4096 in
    elim (find_entry at page_num) [
      | some i ↦ (
        join_address (at.tlb i).frame_num offset,
        record at {
          tlb = update at.tlb i (record (at.tlb i) { access_time = at.clock });
          clock = tick at.clock;
        },
      )
      | none ↦
          if leb at.page_table_size page_num
          then (no_address, at)
          else if not (at.page_table page_num).valid
          then (no_address, at)
          else (
            join_address (at.page_table page_num).frame_num offset,
            update_tlb at page_num (at.page_table page_num).frame_num,
          )
    ]
