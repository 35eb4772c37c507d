-- ===== src/Storage/MultiLevel/Addresses.antt =====
-- Which blocks of a file get an address of their own.
use os_exploring.Common.{
  ℕ, ◌+◌, ◌-◌, ◌*◌, ◌/◌, ◌%◌, ◌<◌, ◌≡◌, ◌≢◌, ◌⊎◌, inl, inr, refl, ap, sym, ◌∙◌, Bool-cases, true,
  false, arith, some, ltb,
}
use os_exploring.Storage.MultiLevel.{
  direct_blocks, indirect_blocks, MultiLevelIndex, MultiLevelAllocator, triple_address,
  double_address, single_address, get_block_address,
}

-- The blocks below the triple indirect ones.
abbrev pub double_limit : ℕ
double_limit = direct_blocks + indirect_blocks + indirect_blocks * indirect_blocks

-- The indirect blocks of a file: the single, the double, and those that the double one points to.
abbrev pub IsIndirect : MultiLevelAllocator → MultiLevelIndex → ℕ → Type 0
IsIndirect a idx b =
    (b ≡ idx.single_indirect)
    ⊎ (b ≡ idx.double_indirect)
    ⊎ ((k : ℕ) × (k < indirect_blocks) × (b ≡ a.blocks idx.double_indirect k))

-- The pointers of the index and of the file's indirect blocks lead to blocks of the disk, and no two
-- of them are the same.
pub record IsTree (a : MultiLevelAllocator) (idx : MultiLevelIndex) : Type 0 where
  pub entries :
      (b c i j : ℕ)
      → IsIndirect a idx b
      → IsIndirect a idx c
      → i < indirect_blocks
      → j < indirect_blocks
      → a.blocks b i ≡ a.blocks c j
      → (b ≡ c) × (i ≡ j)
  pub direct_distinct :
      (i j : ℕ) → i < direct_blocks → j < direct_blocks → idx.direct i ≡ idx.direct j → i ≡ j
  pub apart :
      (i b j : ℕ)
      → IsIndirect a idx b
      → i < direct_blocks
      → j < indirect_blocks
      → idx.direct i ≢ a.blocks b j
  pub root : (j : ℕ) → j < indirect_blocks → idx.single_indirect ≢ a.blocks idx.double_indirect j
  pub direct_low : (i : ℕ) → i < direct_blocks → idx.direct i < a.total_blocks
  pub low : (b i : ℕ) → IsIndirect a idx b → i < indirect_blocks → a.blocks b i < a.total_blocks

-- Where the address of a block stands: in the index, or in an indirect block that is one of
-- the index's, or one of the double indirect block's.
data Place (a : MultiLevelAllocator) (idx : MultiLevelIndex) (n : ℕ) : Type 0 where
  in_index : n < direct_blocks → get_block_address a idx n ≡ some (idx.direct n) → Place a idx n
  in_single :
      (i : ℕ)
      → i < indirect_blocks
      → n ≡ direct_blocks + i
      → get_block_address a idx n ≡ some (a.blocks idx.single_indirect i)
      → Place a idx n
  in_double :
      (k i : ℕ)
      → k < indirect_blocks
      → i < indirect_blocks
      → n ≡ direct_blocks + indirect_blocks + indirect_blocks * k + i
      → get_block_address a idx n ≡ some (a.blocks (a.blocks idx.double_indirect k) i)
      → Place a idx n

get_block_address-Place :
    (a : MultiLevelAllocator) (idx : MultiLevelIndex) (n : ℕ) → n < double_limit → Place a idx n
unfolding get_block_address single_address double_address
get_block_address-Place a idx n low = elim (Bool-cases (ltb n direct_blocks)) [
  | inl here ↦ in_index (ground (arith, here)) (rw here refl)
  | inr on ↦
      let m = n - direct_blocks in
      elim (Bool-cases (ltb m indirect_blocks)) [
        | inl here ↦ in_single m (ground (arith, here)) (ground (arith, on)) (rw (on, here) refl)
        | inr further ↦
            let r = m - indirect_blocks in
            let fits : ltb r (indirect_blocks * indirect_blocks) ≡ true =
              ground (arith, on, further) in
            in_double (r / indirect_blocks) (r % indirect_blocks) (omega (arith, low)) (omega arith)
              (ground (arith, on, further)) (rw (on, further, fits) refl)
      ]
]

get_block_address-injective :
    (a : MultiLevelAllocator) (idx : MultiLevelIndex) (m n : ℕ)
    → IsTree a idx
    → m < double_limit
    → n < double_limit
    → get_block_address a idx m ≡ get_block_address a idx n
    → m ≡ n
get_block_address-injective a idx m n tree low_m low_n same =
    agree (get_block_address-Place a idx m low_m) (get_block_address-Place a idx n low_n)
  where
    single : IsIndirect a idx idx.single_indirect
    single = inl refl

    double : IsIndirect a idx idx.double_indirect
    double = inr (inl refl)

    row : (k : ℕ) → k < indirect_blocks → IsIndirect a idx (a.blocks idx.double_indirect k)
    row k low = inr (inr (k, low, refl))

    agree : Place a idx m → Place a idx n → m ≡ n
    agree (in_index l e) (in_index k f) = tree.direct_distinct m n l k cc
    agree (in_index l e) (in_single i k h f) =
        absurd (tree.apart m idx.single_indirect i single l k cc)
    agree (in_index l e) (in_double q i o k h f) =
        absurd (tree.apart m (a.blocks idx.double_indirect q) i (row q o) l k cc)
    agree (in_single i l g e) (in_index k f) =
        absurd (tree.apart n idx.single_indirect i single k l cc)
    agree (in_double p i o l g e) (in_index k f) =
        absurd (tree.apart n (a.blocks idx.double_indirect p) i (row p o) k l cc)
    agree (in_single i l g e) (in_single j k h f) =
        let (_, there) =
          tree.entries idx.single_indirect idx.single_indirect i j single single l k cc in
        omega (arith, g, h, there)
    agree (in_single i l g e) (in_double q j o k h f) =
        let at = a.blocks idx.double_indirect q in
        let (there, _) = tree.entries idx.single_indirect at i j single (row q o) l k cc in
        absurd (tree.root q o there)
    agree (in_double p i o l g e) (in_single j k h f) =
        let at = a.blocks idx.double_indirect p in
        let (there, _) = tree.entries idx.single_indirect at j i single (row p o) k l cc in
        absurd (tree.root p o there)
    agree (in_double p i o l g e) (in_double q j s k h f) =
        let d = idx.double_indirect in
        let (at, there) =
          tree.entries (a.blocks d p) (a.blocks d q) i j (row p o) (row q s) l k cc in
        let (_, same_row) = tree.entries d d p q double double o s at in
        omega (arith, g, h, there, same_row)

get_block_address-low :
    (a : MultiLevelAllocator) (idx : MultiLevelIndex) (n : ℕ)
    → IsTree a idx
    → Place a idx n
    → (x : ℕ) × (get_block_address a idx n ≡ some x) × (x < a.total_blocks)
get_block_address-low a idx n tree (in_index l e) = (idx.direct n, e, tree.direct_low n l)
get_block_address-low a idx n tree (in_single i l g e) =
    (a.blocks idx.single_indirect i, e, tree.low idx.single_indirect i (inl refl) l)
get_block_address-low a idx n tree (in_double k i o l g e) =
    let at = a.blocks idx.double_indirect k in
    (a.blocks at i, e, tree.low at i (inr (inr (k, o, refl))) l)

-- If the pointers of the index and of the file's single and double indirect blocks lead to blocks of
-- the disk and no two of them are the same, then two different blocks of the file, as far as the
-- double indirect blocks go, both have addresses on the disk, and these differ.
pub get_block_address-distinct :
    (a : MultiLevelAllocator) (idx : MultiLevelIndex) (m n : ℕ)
    → IsTree a idx
    → m < double_limit
    → n < double_limit
    → m ≢ n
    → (x y : ℕ) × (get_block_address a idx m ≡ some x)
      × (get_block_address a idx n ≡ some y)
      × (x < a.total_blocks)
      × (y < a.total_blocks)
      × (x ≢ y)
get_block_address-distinct a idx m n tree low_m low_n differ =
    let (x, at_x, low_x) =
      get_block_address-low a idx m tree (get_block_address-Place a idx m low_m) in
    let (y, at_y, low_y) =
      get_block_address-low a idx n tree (get_block_address-Place a idx n low_n) in
    (
      x,
      y,
      at_x,
      at_y,
      low_x,
      low_y,
      λ same.
          differ (
            get_block_address-injective a idx m n tree low_m low_n
              (at_x ∙ ap some same ∙ sym at_y)),
    )

-- The number of a block of the triple indirect range, by the group, the row and the place in the row.
abbrev pub triple_block : ℕ → ℕ → ℕ → ℕ
triple_block group row i =
    direct_blocks
    + 2 * indirect_blocks
    + (indirect_blocks * indirect_blocks * group + indirect_blocks * row + i)

get_block_address-triple :
    (a : MultiLevelAllocator) (idx : MultiLevelIndex) (group row i : ℕ)
    → 0 < group
    → group < indirect_blocks
    → row < indirect_blocks
    → i < indirect_blocks
    → get_block_address a idx (triple_block group row i)
      ≡ some (a.blocks (a.blocks idx.triple_indirect group) i)
unfolding get_block_address single_address double_address triple_address
get_block_address-triple a idx group row i some_ low_g low_r low =
    let r = indirect_blocks * indirect_blocks * group + indirect_blocks * row + i in
    let past_direct : ltb (triple_block group row i) direct_blocks ≡ false = ground arith in
    let rest : triple_block group row i - direct_blocks ≡ 2 * indirect_blocks + r = omega arith in
    let past_single : ltb (2 * indirect_blocks + r) indirect_blocks ≡ false = ground arith in
    let after : 2 * indirect_blocks + r - indirect_blocks ≡ indirect_blocks + r = omega arith in
    let past_double : ltb (indirect_blocks + r) (indirect_blocks * indirect_blocks) ≡ false =
      ground arith in
    let last : indirect_blocks + r - indirect_blocks ≡ r = omega arith in
    let inside : ltb r (indirect_blocks * indirect_blocks * indirect_blocks) ≡ true =
      ground arith in
    let at_group : r / indirect_blocks / indirect_blocks ≡ group = omega arith in
    let at_place : r % indirect_blocks % indirect_blocks ≡ i = omega arith in
    rw (past_direct, rest, past_single, after, past_double, last, inside, at_group, at_place) refl

-- The blocks of the triple indirect range do not have addresses of their own: within a group of
-- 238 * 238 blocks, those that have the same place in their rows of 238 share one.
pub get_block_address-shared :
    (a : MultiLevelAllocator) (idx : MultiLevelIndex) (group row other i : ℕ)
    → 0 < group
    → group < indirect_blocks
    → row < indirect_blocks
    → other < indirect_blocks
    → i < indirect_blocks
    → get_block_address a idx (triple_block group row i)
      ≡ get_block_address a idx (triple_block group other i)
get_block_address-shared a idx group row other i some_ low_g low_r low_o low =
    get_block_address-triple a idx group row i some_ low_g low_r low
    ∙ sym (get_block_address-triple a idx group other i some_ low_g low_o low)
