-- ===== src/Memory/Heap/Tests.antt =====
-- A heap of 1024 bytes at address 4096, from which 128 bytes are allocated and freed again.
use os_exploring.Common.{ℕ, ◌+◌, ◌≤◌, ◌≡◌, refl, ◌⊎◌, true, false, none, some, [], ◌∷◌, arith}
use os_exploring.Memory.Heap.{
  HeapManager, header, initialize_memory_manager, memory_alloc, find_block, memory_free,
}
use os_exploring.Memory.Heap.Layout.{IsHeap, initialize_memory_manager-IsHeap}
use os_exploring.Memory.Heap.Alloc.{IsFirstFit, InUse, HasRoom, memory_alloc-IsHeap}
use os_exploring.Memory.Heap.Free.{memory_free-IsHeap}

abbrev new_heap : HeapManager
unfolding initialize_memory_manager
new_heap = initialize_memory_manager 4096 1024

new_heap-IsHeap : IsHeap new_heap
unfolding new_heap
new_heap-IsHeap = initialize_memory_manager-IsHeap 4096 1024 (omega arith) (omega arith)

abbrev one_used : HeapManager
one_used = record {
  memory = 4096;
  free_list =
      record { address = 4096; size = 128; is_allocated = true }
      ∷ record { address = 4256; size = 832; is_allocated = false }
      ∷ [];
  total_size = 1024;
  used_size = 160;
}

served : memory_alloc new_heap 128 ≡ (some 4128, one_used)
unfolding memory_alloc new_heap initialize_memory_manager
served = refl

too_large : (memory_alloc one_used 833).0 ≡ none
unfolding memory_alloc
too_large = refl

-- Freeing the block merges it with the rest.
merged_again : memory_free one_used 4128 ≡ new_heap
unfolding memory_free new_heap initialize_memory_manager
merged_again = refl

memory_alloc-IsHeap_example :
    IsHeap (memory_alloc new_heap 128).1
    × ((((memory_alloc new_heap 128).0 ≡ none) × ¬ HasRoom new_heap.free_list 128)
        ⊎ ((p : ℕ) × ((memory_alloc new_heap 128).0 ≡ some (p + header))
            × IsFirstFit 128 p new_heap.free_list
            × InUse 128 p (memory_alloc new_heap 128).1.free_list
            × (new_heap.memory ≤ p)
            × (p + header + 128 ≤ new_heap.memory + new_heap.total_size)
            × (new_heap.used_size + header + 128 ≤ (memory_alloc new_heap 128).1.used_size)))
memory_alloc-IsHeap_example = memory_alloc-IsHeap new_heap 128 new_heap-IsHeap

one_used-IsHeap : IsHeap one_used
one_used-IsHeap = record { tiles = (refl, (refl, refl)); merged = (refl, (tt, tt)); counted = refl }

memory_free-IsHeap_example :
    IsHeap (memory_free one_used 4128)
    × ((memory_free one_used 4128).used_size + (128 + header) ≡ 160)
unfolding find_block
memory_free-IsHeap_example =
    memory_free-IsHeap one_used 4128 (record { address = 4096; size = 128; is_allocated = true })
      one_used-IsHeap (omega arith) refl refl
