-- ===== src/Memory/AddressMap/Tests.antt =====
-- Two pages mapped, the second one first.
use os_exploring.Common.{
  ℕ, ◌+◌, ◌/◌, ◌%◌, ◌<◌, ◌≤◌, ◌≡◌, ◌≢◌, ◌⊎◌, refl, true, false, some, arith, for_range,
}
use os_exploring.Memory.AddressMap.{
  AddressMapping, Translator, map_page_size, physical_memory_size, initialize_translator, map_page,
  create_address_mapping, mapping_of, permits, translate_logical,
}
use os_exploring.Memory.AddressMap.Frames.{
  IsPlaced, initialize_translator-IsPlaced, map_page-IsPlaced, create_address_mapping_lem,
  translate_logical-IsPlaced,
}

abbrev garbage : ℕ → AddressMapping
garbage _ = record { logical_address = 7; physical_address = 7; valid = true; protection = 7 }

abbrev empty_map : Translator
empty_map = initialize_translator garbage

abbrev one_page : Translator
one_page = map_page empty_map 300 3

one_page-IsPlaced : IsPlaced one_page
unfolding initialize_translator
one_page-IsPlaced =
    map_page-IsPlaced empty_map 300 3 (omega arith) (initialize_translator-IsPlaced garbage)

first_address : translate_logical one_page 260 1 ≡ some 4
unfolding translate_logical initialize_translator for_range
first_address = refl

second_address : translate_logical one_page 300 2 ≡ some 44
unfolding translate_logical initialize_translator for_range
second_address = refl

create_address_mapping_run :
    ((create_address_mapping one_page 10 1 ≡ (false, one_page))
      × ((one_page.map_size ≤ 10 / map_page_size)
          ⊎ (physical_memory_size < one_page.used_physical_memory + map_page_size)))
    ⊎ ((create_address_mapping one_page 10 1 ≡ (true, map_page one_page 10 1))
        × IsPlaced (map_page one_page 10 1)
        × ((m access : ℕ)
            → m / map_page_size ≡ 10 / map_page_size
            → permits (mapping_of (map_page one_page 10 1) m) access ≡ true
            → translate_logical (map_page one_page 10 1) m access
              ≡ some (one_page.used_physical_memory + m % map_page_size)))
create_address_mapping_run = create_address_mapping_lem one_page 10 1 one_page-IsPlaced

translate_logical-IsPlaced_example : ◌<◌ 4 2048 × (◌≢◌ {A = ℕ} 260 300 → ◌≢◌ {A = ℕ} 4 44)
translate_logical-IsPlaced_example =
    translate_logical-IsPlaced one_page 260 300 1 2 4 44 one_page-IsPlaced first_address
      second_address
