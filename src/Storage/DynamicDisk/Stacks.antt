-- ===== src/Storage/DynamicDisk/Stacks.antt =====
-- What the stacks hold, and what allocating takes from them.
use os_exploring.Common.{
  ℕ, zero, suc, ◌+◌, ◌-◌, ◌≤◌, ◌<◌, ◌≡◌, ◌≢◌, refl, ap, ◌⊎◌, inl, inr, Bool, true, false, none,
  some, List, arith, ltb, Bool-cases, update, update_self, length, NotIn, IsDistinct, write_range,
  write_range_lem, lt→in_range,
}
use os_exploring.Storage.DynamicDisk.{
  DynamicAllocator, init_dynamic_allocator, take_dynamic, take_all, allocate_blocks,
}

-- The blocks on the stacks are free, each is there once, and `free_blocks` counts them.
pub record IsStacked (a : DynamicAllocator) : Type 0 where
  pub counted : a.free_blocks ≡ a.free_list.count + a.recently_freed.count
  pub free : (i : ℕ) → i < a.free_list.count → a.disk_blocks (a.free_list.blocks i) ≡ false
  pub freed :
      (i : ℕ) → i < a.recently_freed.count → a.disk_blocks (a.recently_freed.blocks i) ≡ false
  pub once :
      (i j : ℕ)
      → i < a.free_list.count
      → j < a.free_list.count
      → a.free_list.blocks i ≡ a.free_list.blocks j
      → i ≡ j
  pub once_freed :
      (i j : ℕ)
      → i < a.recently_freed.count
      → j < a.recently_freed.count
      → a.recently_freed.blocks i ≡ a.recently_freed.blocks j
      → i ≡ j
  pub apart :
      (i j : ℕ)
      → i < a.free_list.count
      → j < a.recently_freed.count
      → a.free_list.blocks i ≢ a.recently_freed.blocks j

-- A new allocator is sound.
pub init_dynamic_allocator-IsStacked :
    (raw raw_recent : ℕ → ℕ) (n : ℕ) (a : DynamicAllocator)
    → init_dynamic_allocator true raw raw_recent n ≡ some a
    → IsStacked a
unfolding init_dynamic_allocator
init_dynamic_allocator-IsStacked raw raw_recent n a e =
    let new : DynamicAllocator = record {
      disk_blocks = λ _. false;
      total_blocks = n;
      free_blocks = n;
      free_list = record { blocks = write_range (λ i _. i) n 0 raw; count = n };
      recently_freed = record { blocks = raw_recent; count = 0 };
    } in
    let same : new ≡ a = cc e in
    let at : (i : ℕ) → i < n → write_range (λ i _. i) n 0 raw i ≡ i =
      λ i l. rw (write_range_lem (λ i _. i) n 0 raw i, lt→in_range n i l) refl in
    let made : IsStacked new = record {
      counted = omega arith;
      free = λ i l. refl;
      freed = λ i l. refl;
      once = λ i j l m e. cc (at i l, at j m, e);
      once_freed = λ i j l m e. absurd (omega arith);
      apart = λ i j l m. absurd (omega arith);
    } in
    rw (← same) made

-- One block is taken: it was free, it is in use afterwards, and nothing else changes on the disk.
pub record Takes (a : DynamicAllocator) (b : ℕ) (now : DynamicAllocator) : Type 0 where
  pub was_free : a.disk_blocks b ≡ false
  pub disk : now.disk_blocks ≡ update a.disk_blocks b true
  pub fewer : now.free_blocks + 1 ≡ a.free_blocks
  pub stacked : IsStacked now

take_dynamic-Takes :
    (a : DynamicAllocator)
    → IsStacked a
    → 0 < a.free_blocks
    → Takes a (take_dynamic a).0 (take_dynamic a).1
unfolding take_dynamic
take_dynamic-Takes a s some_ = elim (Bool-cases (ltb 0 a.recently_freed.count)) [
  | inl recent ↦
      let last = a.recently_freed.count - 1 in
      let low : last < a.recently_freed.count = ground (arith, recent) in
      rw recent (record {
        was_free = s.freed last low;
        disk = refl;
        fewer = omega arith;
        stacked = record {
          counted = omega (arith, s.counted, low);
          free = λ i l. ground (arith, s.free i l, s.apart i last l low);
          freed =
              λ i l. ground (arith, s.freed i (omega arith), s.once_freed i last (omega arith) low);
          once = s.once;
          once_freed = λ i j l m. s.once_freed i j (omega arith) (omega arith);
          apart = λ i j l m. s.apart i j l (omega arith);
        };
      })
  | inr older ↦
      let last = a.free_list.count - 1 in
      let low : last < a.free_list.count = ground (arith, older, s.counted) in
      rw older (record {
        was_free = s.free last low;
        disk = refl;
        fewer = omega arith;
        stacked = record {
          counted = ground (arith, s.counted, low);
          free = λ i l. ground (arith, s.free i (omega arith), s.once i last (omega arith) low);
          freed = λ i l. absurd (ground (arith, older));
          once = λ i j l m. s.once i j (omega arith) (omega arith);
          once_freed = s.once_freed;
          apart = λ i j l m. s.apart i j (omega arith) m;
        };
      })
]

-- The blocks of the list: none in use before, no two the same. Blocks in use stay so.
pub record Gives (n : ℕ) (a : DynamicAllocator) (bs : List ℕ) (now : DynamicAllocator)
    : Type 0 where
  pub as_many : length bs ≡ n
  pub distinct : IsDistinct bs
  pub were_free : (b : ℕ) → a.disk_blocks b ≡ true → NotIn b bs × (now.disk_blocks b ≡ true)
  pub fewer : now.free_blocks + n ≡ a.free_blocks
  pub stacked : IsStacked now

take_all-Gives :
    (n : ℕ) (a : DynamicAllocator)
    → IsStacked a
    → n ≤ a.free_blocks
    → Gives n a (take_all n a).0 (take_all n a).1
unfolding take_all
take_all-Gives zero a s enough = record {
  as_many = refl;
  distinct = tt;
  were_free = λ b used. (tt, used);
  fewer = omega arith;
  stacked = s;
}
take_all-Gives (suc n) a s enough =
    let t = take_dynamic-Takes a s (omega arith) in
    let b = (take_dynamic a).0 in
    let now = (take_dynamic a).1 in
    let g = take_all-Gives n now t.stacked (omega (arith, t.fewer)) in
    let used : now.disk_blocks b ≡ true = rw t.disk (update_self a.disk_blocks b true) in
    let (new, _) = g.were_free b used in
    record {
      as_many = omega (arith, g.as_many);
      distinct = (new, g.distinct);
      were_free = λ c busy.
          let other : c ≢ b = λ e. absurd (cc (busy, t.was_free, ap a.disk_blocks e)) in
          let still : now.disk_blocks c ≡ true = rw t.disk (ground (arith, busy)) in
          let (fresh, end) = g.were_free c still in ((other, fresh), end);
      fewer = omega (arith, g.fewer, t.fewer);
      stacked = g.stacked;
    }

-- A request for more blocks than are free, or without room for the result, gets NULL and changes nothing.
-- Every other gets as many blocks as it asks for, all different and none in use before; blocks in use
-- stay so, and the count of free blocks is lower by as many.
pub allocate_blocks-Gives :
    (room : Bool) (a : DynamicAllocator) (count : ℕ)
    → IsStacked a
    → ((allocate_blocks room a count ≡ (none, a)) × ((a.free_blocks < count) ⊎ (room ≡ false)))
      ⊎ ((bs : List ℕ) × ((allocate_blocks room a count).0 ≡ some bs)
          × Gives count a bs (allocate_blocks room a count).1)
unfolding allocate_blocks
allocate_blocks-Gives room a count s = elim (Bool-cases (ltb a.free_blocks count)) [
  | inl many ↦ inl (rw many, inl (ground (arith, many)))
  | inr enough ↦ elim (Bool-cases room) [
    | inr no_room ↦ inl (rw (enough, no_room), inr no_room)
    | inl has_room ↦ inr (
      (take_all count a).0,
      rw (enough, has_room) refl,
      rw (enough, has_room) (take_all-Gives count a s (ground (arith, enough))),
    )
  ]
]
