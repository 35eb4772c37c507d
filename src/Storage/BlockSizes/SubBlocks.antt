-- ===== src/Storage/BlockSizes/SubBlocks.antt =====
-- A sub-block is handed out once.
use os_exploring.Common.{
  ℕ, zero, suc, ◌+◌, ◌<◌, ◌≤◌, ◌≡◌, ◌∙◌, ap, sym, subst, refl, inl, inr, Bool, Bool-cases,
  Option-cases, true, false, not, arith, leb, ltb, ℕ_discrete, Option, some, none, update,
  update_ne, update_self, find_range-some, find_range-none, count_range, count_range-update,
  count_range-le, some_pair,
}
use os_exploring.Storage.BlockSizes.{
  SubBlockGroup, BlockSizeManager, find_in_group, find_sub_block, mark_sub_block, sub_block_address,
  or_later, mark_in, take_found, allocate_optimal_block,
}

abbrev pub is_marked : BlockSizeManager → ℕ → ℕ → Bool
is_marked m i j = (m.sub_block_groups i).bitmap j

-- The counter of a group of `n` is right.
abbrev pub IsRight : ℕ → SubBlockGroup → Type 0
IsRight n g = g.free_sub_blocks + count_range n g.bitmap ≡ n

pub record IsCounted (m : BlockSizeManager) : Type 0 where
  pub group : (i : ℕ) → i < m.group_count → IsRight m.blocks_per_group (m.sub_block_groups i)

find_in_group-some :
    (m : BlockSizeManager) (i j : ℕ)
    → find_in_group m (m.sub_block_groups i) ≡ some j
    → (j < m.blocks_per_group) × (is_marked m i j ≡ false)
unfolding find_in_group
find_in_group-some m i j e = elim (Bool-cases (ltb 0 (m.sub_block_groups i).free_sub_blocks)) [
  | inr empty ↦ absurd (ground (arith, e, empty))
  | inl some_ ↦
      let found = find_range-some m.blocks_per_group 0 (λ k. not (is_marked m i k)) j in
      let (_, inside, free) = found (rw some_ at e) in (omega arith, ground (arith, free))
]

-- If the search of a group fails, all its sub-blocks are in use, since its counter is right.
find_in_group-none :
    (m : BlockSizeManager) (i : ℕ)
    → IsCounted m
    → i < m.group_count
    → find_in_group m (m.sub_block_groups i) ≡ none
    → (j : ℕ) → j < m.blocks_per_group
    → is_marked m i j ≡ true
unfolding find_in_group
find_in_group-none m i c below e j inside =
    elim (Bool-cases (ltb 0 (m.sub_block_groups i).free_sub_blocks)) [
      | inl some_ ↦
          let gone =
            find_range-none m.blocks_per_group 0 (λ k. not (is_marked m i k)) j (rw some_ at e)
              (omega arith) (omega arith) in
          ground (arith, gone)
      | inr empty ↦ elim (Bool-cases (is_marked m i j)) [
        | inl marked ↦ marked
        | inr free ↦
            let more = count_range-update m.blocks_per_group (is_marked m i) j inside free in
            let most = count_range-le m.blocks_per_group (update (is_marked m i) j true) in
            absurd (ground (arith, c.group i below, empty, more, most))
      ]
    ]

find_sub_block-some :
    (left i : ℕ) (m : BlockSizeManager) (a b : ℕ)
    → find_sub_block left i m ≡ some (a, b)
    → (a < i + left) × (b < m.blocks_per_group) × (is_marked m a b ≡ false)
unfolding find_sub_block or_later
find_sub_block-some zero i m a b e = cc
find_sub_block-some (suc left) i m a b e =
    elim (Option-cases (find_in_group m (m.sub_block_groups i))) [
      | inl none_ ↦
          let (to, inside, free) =
            find_sub_block-some left (i + 1) m a b (rw (none_, find_sub_block) at e) in
          (omega arith, inside, free)
      | inr (j, found) ↦
          let (inside, free) = find_in_group-some m i j found in
          let (here, place) = some_pair (rw (found, find_sub_block) at e) in
          (
            omega arith,
            omega arith,
            subst (λ k. is_marked m k b ≡ false) here
                (subst (λ k. is_marked m i k ≡ false) place free),
          )
    ]

find_sub_block-none :
    (left i : ℕ) (m : BlockSizeManager)
    → IsCounted m
    → i + left ≤ m.group_count
    → find_sub_block left i m ≡ none
    → (a b : ℕ) → i ≤ a
    → a < i + left
    → b < m.blocks_per_group
    → is_marked m a b ≡ true
unfolding find_sub_block or_later
find_sub_block-none zero i m c within e a b from to inside = absurd (omega arith)
find_sub_block-none (suc left) i m c within e a b from to inside =
    elim (Option-cases (find_in_group m (m.sub_block_groups i))) [
      | inr (j, found) ↦ absurd (cc (rw (found, find_sub_block) at e))
      | inl none_ ↦ elim (ℕ_discrete i a) [
        | yes here ↦
            subst (λ k. is_marked m k b ≡ true) here
              (find_in_group-none m i c (omega arith) none_ b inside)
        | no later ↦
            find_sub_block-none left (i + 1) m c (omega arith) (rw (none_, find_sub_block) at e) a b
              (omega arith) (omega arith) inside
      ]
    ]

-- Marking a free sub-block keeps the counters right.
mark_sub_block-IsCounted :
    (i j : ℕ) (m : BlockSizeManager)
    → IsCounted m
    → i < m.group_count
    → j < m.blocks_per_group
    → is_marked m i j ≡ false
    → IsCounted (mark_sub_block i j m)
unfolding mark_sub_block
mark_sub_block-IsCounted i j m c below inside free =
    let g = m.sub_block_groups i in
    let n = m.blocks_per_group in
    let more = count_range-update n g.bitmap j inside free in
    let most = count_range-le n (update g.bitmap j true) in
    let right : IsRight n (mark_in j g) = omega (arith, more, most, c.group i below) in
    record {
      group = λ k low. elim (ℕ_discrete i k) [
        | yes same ↦
            let there : update m.sub_block_groups i (mark_in j g) k ≡ mark_in j g =
              ground (arith, same) in
            subst (IsRight n) (sym there) right
        | no differ ↦
            subst (IsRight n) (sym (update_ne m.sub_block_groups i k (mark_in j g) differ))
              (c.group k low)
      ];
    }

mark_sub_block-is_marked :
    (i j : ℕ) (m : BlockSizeManager) → is_marked (mark_sub_block i j m) i j ≡ true
unfolding mark_sub_block
mark_sub_block-is_marked i j m =
    ap (λ g. g.bitmap j) (update_self m.sub_block_groups i (mark_in j (m.sub_block_groups i)))
    ∙ update_self (m.sub_block_groups i).bitmap j true

-- What a small request gets: a sub-block that was free, or, when all are in use, a standard block.
pub data Served (size : ℕ) (malloc : Option ℕ) (m : BlockSizeManager) : Type 0 where
  from_group :
      (i j : ℕ)
      → i < m.group_count
      → j < m.blocks_per_group
      → is_marked m i j ≡ false
      → is_marked (mark_sub_block i j m) i j ≡ true
      → IsCounted (mark_sub_block i j m)
      → allocate_optimal_block size malloc m
        ≡ (some (sub_block_address i j m), mark_sub_block i j m)
      → Served size malloc m
  from_system :
      ((i j : ℕ) → i < m.group_count → j < m.blocks_per_group → is_marked m i j ≡ true)
      → allocate_optimal_block size malloc m ≡ (malloc, m)
      → Served size malloc m

-- If the counters of free sub-blocks are right, a request of at most a sub-block's size gets a
-- sub-block that was free and is in use afterwards, and the counters stay right; only if all
-- sub-blocks are in use, it gets what malloc gives, and nothing changes.
pub allocate_optimal_block-Served :
    (size : ℕ) (malloc : Option ℕ) (m : BlockSizeManager)
    → IsCounted m
    → size ≤ m.sub_block_size
    → Served size malloc m
unfolding allocate_optimal_block take_found
allocate_optimal_block-Served size malloc m c small =
    let fits : leb size m.sub_block_size ≡ true = ground arith in
    elim (Option-cases (find_sub_block m.group_count 0 m)) [
      | inl none_ ↦
          from_system
            (λ i j low inside.
              find_sub_block-none m.group_count 0 m c (omega arith) none_ i j (omega arith)
                (omega arith) inside)
            (rw (fits, none_) refl)
      | inr ((i, j), found) ↦
          let (low, inside, free) = find_sub_block-some m.group_count 0 m i j found in
          from_group i j (omega arith) inside free (mark_sub_block-is_marked i j m)
            (mark_sub_block-IsCounted i j m c (omega arith) inside free) (rw (fits, found) refl)
    ]
