-- ===== src/Memory/CustomHeap/Tests.antt =====
-- A heap of 8192 bytes, and one with two blocks in use.
use os_exploring.Common.{ℕ, ◌≡◌, ◌⊎◌, refl, true, false, Option, none, some, [], ◌∷◌, arith}
use os_exploring.Memory.CustomHeap.{
  CustomBlock, CustomHeap, align, init_heap, custom_malloc, free_header, custom_free,
}
use os_exploring.Memory.CustomHeap.Sums.{IsCounted, NoRoom, AllSmall, Gave, custom_malloc_lem}
use os_exploring.Memory.CustomHeap.Faults.{free_header-IsCounted, custom_free-custom_malloc}

abbrev no_heap : CustomHeap
no_heap = record { free_list = []; used_list = []; total_size = 0; used_size = 0 }

abbrev fresh : CustomHeap
fresh = init_heap no_heap (some 4096) 8190

fresh-IsCounted : IsCounted fresh
unfolding init_heap align
fresh-IsCounted = record { used = refl; total = refl }

fresh-AllSmall : AllSmall fresh.free_list
unfolding init_heap align
fresh-AllSmall = (omega arith, tt)

first_pointer : (custom_malloc fresh none 100).0 ≡ some 4128
unfolding custom_malloc init_heap
first_pointer = refl

abbrev no_memory : Option ℕ
no_memory = none

custom_malloc_example :
    ((custom_malloc fresh none 100 ≡ (none, fresh))
      × (◌≡◌ {A = ℕ} 100 0 ⊎ (NoRoom (align 140) fresh.free_list × (no_memory ≡ none))))
    ⊎ Gave fresh (custom_malloc fresh none 100).1 (align 140) (custom_malloc fresh none 100).0
custom_malloc_example = custom_malloc_lem fresh none 100 fresh-IsCounted fresh-AllSmall

custom_free-custom_malloc_run : custom_free (custom_malloc fresh none 100).1 4128 ≡ none
unfolding init_heap
custom_free-custom_malloc_run =
    custom_free-custom_malloc fresh none 100 4128 fresh-IsCounted fresh-AllSmall first_pointer
      (omega arith) (omega arith) tt

-- A block with its address and size.
abbrev in_use : ℕ → ℕ → CustomBlock
in_use address size = record { address = address; is_free = false; size = size }

abbrev left_block : CustomBlock
left_block = in_use 4096 64

abbrev right_block : CustomBlock
right_block = in_use 4160 96

abbrev far_block : CustomBlock
far_block = record { address = 9000; is_free = true; size = 128 }

abbrev two_used : CustomHeap
two_used = record {
  free_list = far_block ∷ [];
  used_list = left_block ∷ right_block ∷ [];
  total_size = 288;
  used_size = 160;
}

abbrev one_used : CustomHeap
one_used = record {
  free_list = record { address = 4160; is_free = true; size = 224 } ∷ [];
  used_list = left_block ∷ [];
  total_size = 288;
  used_size = 64;
}

right_freed : free_header two_used 4160 ≡ some one_used
unfolding free_header
right_freed = refl

free_header-IsCounted_run : IsCounted one_used
free_header-IsCounted_run =
    free_header-IsCounted two_used 4160 one_used (record { used = refl; total = refl }) right_freed
