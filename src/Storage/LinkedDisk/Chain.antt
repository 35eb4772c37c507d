-- ===== src/Storage/LinkedDisk/Chain.antt =====
-- A file as the chain of its blocks, and what adding a block does to it.
use os_exploring.Common.{
  NotIn, IsDistinct, ℕ, ◌-◌, ◌<◌, ◌≡◌, ◌≢◌, inl, inr, true, Option, none, some, List, [], ◌∷◌,
  arith, ◌==◌, update, update_self, update_ne, ap, for_range_inv, Bool-cases,
}
use os_exploring.Storage.LinkedDisk.{
  LinkedBlock, zero_block, LinkedAllocator, fill_free_list, init_linked_allocator, link_previous,
  allocate_linked_block,
}

-- The blocks, the last one first, are linked each to the one before it in the list, and the first
-- to `next`.
abbrev pub IsChain : (ℕ → LinkedBlock) → Option ℕ → List ℕ → Type 0
IsChain disk next [] = Unit
IsChain disk next (b ∷ bs) = ((disk b).next_block ≡ next) × IsChain disk (some b) bs

-- The last block of the file.
abbrev pub last_of : List ℕ → Option ℕ
last_of [] = none
last_of (b ∷ bs) = some b

-- The file with the blocks `bs`, the last one first, on a disk whose stack of free blocks is sound.
pub record IsFile (a : LinkedAllocator) (bs : List ℕ) : Type 0 where
  pub linked : IsChain a.disk_blocks none bs
  pub distinct : IsDistinct bs
  pub apart : (k : ℕ) → k < a.free_blocks → NotIn (a.free_list k) bs
  pub once : (i j : ℕ) → i < j → j < a.free_blocks → a.free_list i ≢ a.free_list j
  pub inside : (k : ℕ) → k < a.free_blocks → a.free_list k < a.total_blocks

IsChain-update :
    (disk : ℕ → LinkedBlock) (x : ℕ) (v : LinkedBlock) (next : Option ℕ) (bs : List ℕ)
    → NotIn x bs
    → IsChain disk next bs
    → IsChain (update disk x v) next bs
IsChain-update disk x v next [] n c = tt
IsChain-update disk x v next (b ∷ bs) (ne, n) (e, c) =
    (rw (update_ne disk x b v ne) e, IsChain-update disk x v (some b) bs n c)

-- Linking the last block to a new one.
link_previous-IsChain :
    (disk : ℕ → LinkedBlock) (new_block : ℕ) (bs : List ℕ)
    → IsDistinct bs
    → IsChain disk none bs
    → IsChain (link_previous (last_of bs) new_block disk) (some new_block) bs
unfolding link_previous
link_previous-IsChain disk new_block [] d c = tt
link_previous-IsChain disk new_block (b ∷ bs) (n, d) (e, c) = (
  ap (λ (x : LinkedBlock). x.next_block)
      (update_self disk b (record (disk b) { next_block = some new_block })),
  IsChain-update disk b (record (disk b) { next_block = some new_block }) (some b) bs n c,
)

-- If the allocation after the last block of a file returns a block, it lies on the disk and was not
-- part of the file; it is the file's last block now, and the stack of free blocks stays sound.
pub allocate_linked_block-IsFile :
    (a : LinkedAllocator) (bs : List ℕ) (new_block : ℕ)
    → IsFile a bs
    → (allocate_linked_block a (last_of bs)).0 ≡ some new_block
    → (new_block < a.total_blocks)
      × NotIn new_block bs
      × IsFile (allocate_linked_block a (last_of bs)).1 (new_block ∷ bs)
unfolding allocate_linked_block
allocate_linked_block-IsFile a bs new_block f e = elim (Bool-cases (a.free_blocks == 0)) [
  | inl full ↦ absurd (cc (rw (full, allocate_linked_block) at e))
  | inr room ↦
      let at : a.free_list (a.free_blocks - 1) ≡ new_block =
        cc (rw (room, allocate_linked_block) at e) in
      let below : a.free_blocks - 1 < a.free_blocks = ground arith in
      let disk = link_previous (last_of bs) new_block a.disk_blocks in
      let block : LinkedBlock = record (disk new_block) {
        block_num = new_block;
        next_block = none;
      } in
      let new : NotIn new_block bs = rw (← at) (f.apart (a.free_blocks - 1) below) in
      let inside : new_block < a.total_blocks = rw (← at) (f.inside (a.free_blocks - 1) below) in
      let chain = link_previous-IsChain a.disk_blocks new_block bs f.distinct f.linked in
      rw (room, at, allocate_linked_block)
        (
          inside,
          new,
          record {
            linked = (
              ap (λ (x : LinkedBlock). x.next_block) (update_self disk new_block block),
              IsChain-update disk new_block block (some new_block) bs new chain,
            );
            distinct = (new, f.distinct);
            apart = λ k l. (
              λ same. f.once k (a.free_blocks - 1) l below (cc (same, at)),
              f.apart k (omega arith),
            );
            once = λ i j l m. f.once i j l (omega arith);
            inside = λ k l. f.inside k (omega arith);
          },
        )
]

-- The entries of the free list that the loop has filled.
abbrev IsFilled : ℕ → (ℕ → ℕ) × (ℕ → LinkedBlock) → Type 0
IsFilled n st = (k : ℕ) → k < n → st.0 k ≡ k

fill_free_list-IsFilled :
    (total : ℕ) (st : (ℕ → ℕ) × (ℕ → LinkedBlock)) → IsFilled total (fill_free_list total st)
unfolding fill_free_list
fill_free_list-IsFilled total st =
    for_range_inv IsFilled
      (λ i (list, disk). (update list i i, update disk i (record (disk i) { next_block = none })))
      total (λ i (list, disk) l f k below. ground (arith, f k)) total 0 st (omega arith)
      (λ k l. absurd (omega arith))

-- On a new disk the stack of free blocks is sound, for the file without blocks.
pub init_linked_allocator-IsFile :
    (raw : ℕ → ℕ) (total : ℕ) (a : LinkedAllocator)
    → init_linked_allocator true raw total ≡ some a
    → IsFile a []
unfolding init_linked_allocator
init_linked_allocator-IsFile raw total a e =
    let st = fill_free_list total (raw, λ _. zero_block) in
    let f = fill_free_list-IsFilled total (raw, λ _. zero_block) in
    let b : LinkedAllocator = record {
      disk_blocks = st.1;
      total_blocks = total;
      free_blocks = total;
      free_list = st.0;
    } in
    let at : b ≡ a = cc e in
    rw (← at) (record {
      linked = tt;
      distinct = tt;
      apart = λ k l. tt;
      once = λ i j l m same. absurd (omega (arith, same, f i (omega arith), f j m));
      inside = λ k l. omega (arith, f k l);
    })
