-- ===== src/Memory/Tlb/Tests.antt =====
-- Runs of Translation_mechanism.c, and its theorems on a TLB of two entries.
use os_exploring.Common.{◌≡◌, refl, true, false, arith, update, ◌+◌}
use os_exploring.Memory.Tlb.{AddressTranslator, translate_address}
use os_exploring.Memory.Tlb.Coherence.{
  IsCoherent, walk, translate_address-eq-walk, translate_address-IsCoherent,
}

abbrev mapped : AddressTranslator
mapped = record {
  tlb =
      update (λ _. record { page_num = 0; frame_num = 0; valid = false; access_time = 0 }) 1
        (record { page_num = 3; frame_num = 7; valid = true; access_time = 5 });
  page_table = λ p. record { frame_num = p + 4; valid = true; protection_bits = 0 };
  tlb_size = 2;
  page_table_size = 10;
  clock = 6;
}

mapped-IsCoherent : IsCoherent mapped
mapped-IsCoherent = record {
  agrees = λ i lt v. record { in_table = ground arith; mapped = refl; same = ground arith };
}

hit : (translate_address mapped 12345).0 ≡ 28729
unfolding translate_address
hit = refl

miss : (translate_address mapped 5000).0 ≡ 21384
unfolding translate_address
miss = refl

translate_address-eq-walk_example : (translate_address mapped 12345).0 ≡ walk mapped 12345
translate_address-eq-walk_example = translate_address-eq-walk mapped mapped-IsCoherent 12345

translate_address-IsCoherent_run : IsCoherent (translate_address mapped 5000).1
translate_address-IsCoherent_run = translate_address-IsCoherent mapped mapped-IsCoherent 5000
