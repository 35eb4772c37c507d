-- ===== src/Memory/AddressMap.antt =====
-- d16_Logical_vs_Physical_Address_Space/AddressTranslator.c: pages mapped to frames in the order in
-- which they are asked for. The addresses are unsigned; `none` is -1. The memory itself is never used.
pub mod Frames
mod Tests
use Prim.Native.Nat.{bit_and}
use os_exploring.Common.{
  ℕ, ◌+◌, ◌*◌, ◌/◌, ◌%◌, Bool, true, false, not, Option, none, some, ltb, leb, ◌==◌, if◌then◌else◌,
  update, for_range, write_range,
}

abbrev pub logical_memory_size : ℕ
logical_memory_size = 1024

abbrev pub physical_memory_size : ℕ
physical_memory_size = 2048

abbrev pub map_page_size : ℕ
map_page_size = 256

pub record AddressMapping : Type 0 where
  pub logical_address : ℕ
  pub physical_address : ℕ
  pub valid : Bool
  pub protection : ℕ

pub record Translator : Type 0 where
  pub address_map : ℕ → AddressMapping
  pub map_size : ℕ
  pub used_physical_memory : ℕ

-- malloc leaves `raw` in the map.
unfoldable pub initialize_translator : (ℕ → AddressMapping) → Translator
unfolding for_range
initialize_translator raw = record {
  address_map =
      write_range
        (λ i _. record {
          logical_address = i * map_page_size;
          physical_address = 0;
          valid = false;
          protection = 0;
        })
        (logical_memory_size / map_page_size) 0 raw;
  map_size = logical_memory_size / map_page_size;
  used_physical_memory = 0;
}

abbrev pub map_page : Translator → ℕ → ℕ → Translator
map_page t logical_address protection = record t {
  address_map = update t.address_map (logical_address / map_page_size) (record {
    logical_address = logical_address;
    physical_address = t.used_physical_memory;
    valid = true;
    protection = protection;
  });
  used_physical_memory = t.used_physical_memory + map_page_size;
}

-- Whether the page was mapped, and the translator afterwards.
unfoldable pub create_address_mapping : Translator → ℕ → ℕ → Bool × Translator
create_address_mapping t logical_address protection =
    if leb t.map_size (logical_address / map_page_size)
    then (false, t)
    else if ltb physical_memory_size (t.used_physical_memory + map_page_size)
    then (false, t)
    else (true, map_page t logical_address protection)

abbrev pub mapping_of : Translator → ℕ → AddressMapping
mapping_of t logical_address = t.address_map (logical_address / map_page_size)

abbrev pub permits : AddressMapping → ℕ → Bool
permits m access_type = bit_and access_type m.protection == access_type

unfoldable pub translate_logical : Translator → ℕ → ℕ → Option ℕ
translate_logical t logical_address access_type =
    let mapping = mapping_of t logical_address in
    if leb t.map_size (logical_address / map_page_size)
    then none
    else if not mapping.valid
    then none
    else if not (permits mapping access_type)
    then none
    else some (mapping.physical_address + logical_address % map_page_size)
