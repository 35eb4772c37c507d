-- ===== src/Storage/MultiLevel/Tests.antt =====
-- A file whose pointers are all different.
use os_exploring.Common.{
  ℕ, inl, inr, ◌⊎◌, ◌-◌, ◌<◌, ◌≤◌, ◌==◌, if◌then◌else◌, ◌+◌, ◌*◌, ◌≡◌, ◌≢◌, refl, arith, none, some,
}
use os_exploring.Storage.MultiLevel.{
  indirect_blocks, MultiLevelIndex, MultiLevelAllocator, get_block_address, single_address,
  double_address, triple_address,
}
use os_exploring.Storage.MultiLevel.Addresses.{
  IsIndirect, IsTree, triple_block, get_block_address-distinct, get_block_address-shared,
}

abbrev index : MultiLevelIndex
index = record {
  direct = λ i. i;
  single_indirect = 12;
  double_indirect = 13;
  triple_indirect = 0;
  file_size = 0;
}

-- The indirect blocks point to the blocks 14 to 251 and 252 to 489, and the latter to those behind.
abbrev cells : ℕ → ℕ → ℕ
cells b i =
    if b == 12 then 14 + i else if b == 13 then 252 + i else 490 + (indirect_blocks * (b - 252) + i)

abbrev disk : MultiLevelAllocator
disk = record {
  idx_table = λ _. index;
  blocks = cells;
  total_blocks = 60000;
  free_blocks = 0;
  free_list = λ i. i;
}

indirect_places : (b : ℕ) → IsIndirect disk index b → (b ≡ 12) ⊎ (b ≡ 13) ⊎ ((252 ≤ b) × (b < 490))
indirect_places b (inl e) = inl e
indirect_places b (inr (inl e)) = inr (inl e)
indirect_places b (inr (inr (k, low, e))) = inr (inr (omega (arith, e), omega (arith, e, low)))

cells-injective :
    (b c i j : ℕ)
    → (b ≡ 12) ⊎ (b ≡ 13) ⊎ ((252 ≤ b) × (b < 490))
    → (c ≡ 12) ⊎ (c ≡ 13) ⊎ ((252 ≤ c) × (c < 490))
    → i < indirect_blocks
    → j < indirect_blocks
    → cells b i ≡ cells c j
    → (b ≡ c) × (i ≡ j)
cells-injective b c i j p q l k e = (ground (arith, p, q, e, l, k), ground (arith, p, q, e, l, k))

disk-IsTree : IsTree disk index
disk-IsTree = record {
  entries = λ b c i j p q l k e.
      cells-injective b c i j (indirect_places b p) (indirect_places c q) l k e;
  direct_distinct = λ i j l k e. e;
  apart = λ i b j p l k e. let at = indirect_places b p in ground (arith, at, e, l, k);
  root = λ j l e. omega (arith, e);
  direct_low = λ i l. omega (arith, l);
  low = λ b i p l. let at = indirect_places b p in ground (arith, at, l);
}

-- The first block behind the direct ones.
first_single : get_block_address disk index 12 ≡ some 14
unfolding get_block_address single_address
first_single = refl

-- The first block that no address is given for.
beyond : get_block_address disk index (488 + 238 * 238 * 238) ≡ none
unfolding get_block_address single_address double_address triple_address
beyond = refl

get_block_address-distinct_example :
    (x y : ℕ) × (get_block_address disk index 20 ≡ some x)
    × (get_block_address disk index 300 ≡ some y)
    × (x < 60000)
    × (y < 60000)
    × (x ≢ y)
get_block_address-distinct_example =
    get_block_address-distinct disk index 20 300 disk-IsTree (omega arith) (omega arith)
      (λ e. absurd (omega arith))

get_block_address-shared_example :
    get_block_address disk index (triple_block 3 1 5)
    ≡ get_block_address disk index (triple_block 3 2 5)
get_block_address-shared_example =
    get_block_address-shared disk index 3 1 2 5 (omega arith) (omega arith) (omega arith)
      (omega arith) (omega arith)
