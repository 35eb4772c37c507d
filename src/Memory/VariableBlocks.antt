-- ===== src/Memory/VariableBlocks.antt =====
-- Memory_Allocators.c: best fit over a list of blocks of any size, with splitting. No block is freed.
-- The list that the `next` pointers make is a list; a block has the address of its header. Sizes are
-- far below 2 ^ 64, where size_t would wrap, but for the size of the first block.
pub mod BestFit
pub mod Splitting
mod Tests
use os_exploring.Common.{
  ℕ, ◌+◌, ◌-◌, ◌%◌, ◌^◌, Bool, true, false, not, ◌&&◌, Option, none, some, List, [], ◌∷◌, ltb, leb,
  ◌==◌, if◌then◌else◌,
}

-- sizeof(VariableBlock), with 8-byte pointers and sizes.
abbrev pub variable_header : ℕ
variable_header = 32

pub record VariableBlock : Type 0 where
  pub address : ℕ
  pub size : ℕ
  pub is_allocated : Bool

pub record VariableAllocator : Type 0 where
  pub memory : ℕ
  pub free_list : List VariableBlock
  pub total_size : ℕ

-- `memory` is what malloc returns, untested.
unfoldable pub init_variable_allocator : ℕ → ℕ → VariableAllocator
init_variable_allocator memory size = record {
  memory = memory;
  free_list =
      record {
        address = memory;
        size = (size + 2 ^ 64 - variable_header) % 2 ^ 64;
        is_allocated = false;
      }
      ∷ [];
  total_size = size;
}

-- `min_diff` and `best_fit`.
abbrev pub Best : Type 0
Best = ℕ × Option VariableBlock

-- The body of the search loop.
unfoldable pub closer : ℕ → VariableBlock → Best → Best
closer size curr s =
    let diff = curr.size - size in
    if not curr.is_allocated && leb size curr.size && ltb diff s.0 then (diff, some curr) else s

unfoldable pub best_from : List VariableBlock → ℕ → Best → Best
unfolding closer
best_from [] size s = s
best_from (curr ∷ rest) size s = best_from rest size (closer size curr s)

-- What stands in the place of the block that is handed out.
unfoldable pub split_best : VariableBlock → ℕ → List VariableBlock → List VariableBlock
split_best b size rest =
    let new_block : VariableBlock = record {
      address = b.address + variable_header + size;
      size = b.size - size - variable_header;
      is_allocated = false;
    } in
    if ltb (size + variable_header + 64) b.size
    then record b { size = size; is_allocated = true } ∷ new_block ∷ rest
    else record b { is_allocated = true } ∷ rest

-- The list, when the block with that address is handed out.
unfoldable pub hand_out_at : ℕ → ℕ → List VariableBlock → List VariableBlock
unfolding split_best
hand_out_at p size [] = []
hand_out_at p size (b ∷ bs) =
    let later = b ∷ hand_out_at p size bs in if b.address == p then split_best b size bs else later

-- The pointer returned is the address behind the header; `none` is NULL.
unfoldable pub allocate_variable_block : VariableAllocator → ℕ → Option ℕ × VariableAllocator
unfolding best_from hand_out_at
allocate_variable_block a size = elim (best_from a.free_list size (a.total_size, none)).1 [
  | none ↦ (none, a)
  | some b ↦ (
    some (b.address + variable_header),
    record a { free_list = hand_out_at b.address size a.free_list },
  )
]
