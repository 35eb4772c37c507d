-- ===== src/Memory/VariableBlocks/Splitting.antt =====
-- What allocate_variable_block does to the blocks.
use os_exploring.Common.{
  ℕ, ◌+◌, ◌-◌, ◌≤◌, ◌<◌, ◌≡◌, ◌≢◌, ◌^◌, refl, ap, ◌⊎◌, inl, inr, true, false, none, some, List, [],
  ◌∷◌, arith, ltb, ◌==◌, Bool-cases, Option-cases,
}
use os_exploring.Memory.VariableBlocks.{
  VariableBlock, VariableAllocator, variable_header, init_variable_allocator, best_from, split_best,
  hand_out_at, allocate_variable_block,
}
use os_exploring.Memory.VariableBlocks.BestFit.{In, CanHold, best_from-IsBest}

-- The blocks lie one behind the other, each with its header, from `a` to `e`.
abbrev pub Tiles : ℕ → List VariableBlock → ℕ → Type 0
Tiles a [] e = a ≡ e
Tiles a (b ∷ bs) e = (b.address ≡ a) × Tiles (a + variable_header + b.size) bs e

pub record IsTiled (a : VariableAllocator) : Type 0 where
  pub tiles : Tiles a.memory a.free_list (a.memory + a.total_size)

pub init_variable_allocator-IsTiled :
    (memory size : ℕ) → 32 ≤ size → size < 2 ^ 64 → IsTiled (init_variable_allocator memory size)
unfolding init_variable_allocator
init_variable_allocator-IsTiled memory size room small = record { tiles = (refl, omega arith) }

Tiles-le : (a e : ℕ) (bs : List VariableBlock) → Tiles a bs e → a ≤ e
Tiles-le a e [] t = omega arith
Tiles-le a e (b ∷ bs) (at, t) = omega (arith, Tiles-le (a + variable_header + b.size) e bs t)

-- A block of a tiled stretch lies inside it.
In-Tiles :
    (a e : ℕ) (b : VariableBlock) (bs : List VariableBlock)
    → Tiles a bs e
    → In b bs
    → (a ≤ b.address) × (b.address + variable_header + b.size ≤ e)
In-Tiles a e b [] t i = elim i [ ]
In-Tiles a e b (c ∷ cs) (at, t) (inl same) =
    let le = Tiles-le (a + variable_header + c.size) e cs t in
    rw same (omega arith, omega (arith, le))
In-Tiles a e b (c ∷ cs) (at, t) (inr later) =
    let (low, high) = In-Tiles (a + variable_header + c.size) e b cs t later in
    (omega (arith, low), high)

split_best-Tiles :
    (b : VariableBlock) (size a e : ℕ) (rest : List VariableBlock)
    → Tiles a (b ∷ rest) e
    → Tiles a (split_best b size rest) e
unfolding split_best
split_best-Tiles b size a e rest (at, t) =
    elim (Bool-cases (ltb (size + variable_header + 64) b.size)) [
      | inr whole ↦ rw whole (at, t)
      | inl split ↦
          let end : a + variable_header + size + variable_header + (b.size - size - variable_header)
              ≡ a + variable_header + b.size =
            ground (arith, split) in
          rw split (at, (omega arith, rw end t))
    ]

hand_out_at-Tiles :
    (p size a e : ℕ) (bs : List VariableBlock) → Tiles a bs e → Tiles a (hand_out_at p size bs) e
unfolding hand_out_at
hand_out_at-Tiles p size a e [] t = t
hand_out_at-Tiles p size a e (b ∷ bs) (at, t) = elim (Bool-cases (b.address == p)) [
  | inl here ↦ rw here (split_best-Tiles b size a e bs (at, t))
  | inr there ↦ rw there (at, hand_out_at-Tiles p size (a + variable_header + b.size) e bs t)
]

-- A block that is handed out.
pub record IsServed (p size : ℕ) (b : VariableBlock) : Type 0 where
  pub at : b.address ≡ p
  pub taken : b.is_allocated ≡ true
  pub room : size ≤ b.size

split_best-IsServed :
    (b : VariableBlock) (size : ℕ) (rest : List VariableBlock)
    → size ≤ b.size
    → (c : VariableBlock) × In c (split_best b size rest) × IsServed b.address size c
unfolding split_best
split_best-IsServed b size rest fits =
    elim (Bool-cases (ltb (size + variable_header + 64) b.size)) [
      | inr whole ↦ (
        record b { is_allocated = true },
        rw whole (inl refl),
        record { at = refl; taken = refl; room = fits },
      )
      | inl split ↦ (
        record b { size = size; is_allocated = true },
        rw split (inl refl),
        record { at = refl; taken = refl; room = omega arith },
      )
    ]

hand_out_at-IsServed :
    (b : VariableBlock) (size a e : ℕ) (bs : List VariableBlock)
    → Tiles a bs e
    → In b bs
    → size ≤ b.size
    → (c : VariableBlock) × In c (hand_out_at b.address size bs) × IsServed b.address size c
unfolding hand_out_at
hand_out_at-IsServed b size a e [] t i fits = elim i [ ]
hand_out_at-IsServed b size a e (d ∷ ds) (at, t) (inl same) fits =
    let here : (d.address == b.address) ≡ true =
      ground (arith, ap (λ (x : VariableBlock). x.address) same) in
    let room : size ≤ d.size = omega (arith, fits, ap (λ (x : VariableBlock). x.size) same) in
    let (c, is_in, served) = split_best-IsServed d size ds room in
    (c, rw here is_in, rw same served)
hand_out_at-IsServed b size a e (d ∷ ds) (at, t) (inr later) fits =
    let (low, _) = In-Tiles (a + variable_header + d.size) e b ds t later in
    let there : (d.address == b.address) ≡ false = ground (arith, low) in
    let (c, is_in, served) =
      hand_out_at-IsServed b size (a + variable_header + d.size) e ds t later fits in
    (c, rw there (inr is_in), served)

hand_out_at-In :
    (p size : ℕ) (c : VariableBlock) (bs : List VariableBlock)
    → In c bs
    → c.address ≢ p
    → In c (hand_out_at p size bs)
unfolding hand_out_at split_best
hand_out_at-In p size c [] i other = elim i [ ]
hand_out_at-In p size c (b ∷ bs) (inl same) other =
    let there : (b.address == p) ≡ false =
      ground (arith, ap (λ (x : VariableBlock). x.address) same, other) in
    rw there (inl same)
hand_out_at-In p size c (b ∷ bs) (inr later) other = elim (Bool-cases (b.address == p)) [
  | inr there ↦ rw there (inr (hand_out_at-In p size c bs later other))
  | inl here ↦ elim (Bool-cases (ltb (size + variable_header + 64) b.size)) [
    | inl split ↦ rw (here, split) (inr (inr later))
    | inr whole ↦ rw (here, whole) (inr later)
  ]
]

-- How a request is served: from the free block `b`, the smallest with room; the blocks elsewhere stay.
pub record Serves (a : VariableAllocator) (size : ℕ) (b : VariableBlock) : Type 0 where
  pub from : In b a.free_list × CanHold size b
  pub smallest : (c : VariableBlock) → In c a.free_list → CanHold size c → b.size ≤ c.size
  pub pointer : (allocate_variable_block a size).0 ≡ some (b.address + variable_header)
  pub served :
      (c : VariableBlock) × In c (allocate_variable_block a size).1.free_list
      × IsServed b.address size c
  pub others :
      (c : VariableBlock)
      → In c a.free_list
      → c.address ≢ b.address
      → In c (allocate_variable_block a size).1.free_list

-- The blocks tile the memory after a request as before. Either no free block has room, and nothing
-- changes, or the smallest that has is handed out, and the blocks elsewhere stay as they are.
pub allocate_variable_block_lem :
    (a : VariableAllocator) (size : ℕ)
    → IsTiled a
    → IsTiled (allocate_variable_block a size).1
      × ((((b : VariableBlock) → In b a.free_list → ¬ CanHold size b)
            × (allocate_variable_block a size ≡ (none, a)))
          ⊎ ((b : VariableBlock) × Serves a size b))
unfolding allocate_variable_block
allocate_variable_block_lem a size h =
    let search = best_from a.free_list size (a.total_size, none) in
    let best =
      best_from-IsBest a.free_list size (λ b. ⊥) a.total_size (a.total_size, none)
        (record {
          least = λ b seen can. absurd seen;
          at_most = omega arith;
          found = λ b e. absurd (cc e);
          missed = λ e. refl;
        }) in
    elim (Option-cases search.1) [
      | inl nothing ↦
          let ran : allocate_variable_block a size ≡ (none, a) =
            rw (nothing, allocate_variable_block) refl in
          rw ran (
            h,
            inl (
              λ b is_in can.
                  let (low, high) =
                    In-Tiles a.memory (a.memory + a.total_size) b a.free_list h.tiles is_in in
                  let least = best.least b (inr is_in) can in
                  absurd (omega (arith, least, low, high, best.missed nothing)),
              refl,
            ),
          )
      | inr (b, is_) ↦
          let (seen, can, at) = best.found b is_ in
          let is_in : In b a.free_list = elim seen [ inl no_ ↦ absurd no_ | inr i ↦ i ] in
          let end = a.memory + a.total_size in
          let ran : allocate_variable_block a size ≡ (
            some (b.address + variable_header),
            record a { free_list = hand_out_at b.address size a.free_list },
          ) =
            rw (is_, allocate_variable_block) refl in
          (
            rw ran (record {
              tiles = hand_out_at-Tiles b.address size a.memory end a.free_list h.tiles;
            }),
            inr (
              b,
              record {
                from = (is_in, can);
                smallest = λ c i k. omega (arith, best.least c (inr i) k, at, can.room, k.room);
                pointer = rw ran refl;
                served =
                    rw ran
                      (hand_out_at-IsServed b size a.memory end a.free_list h.tiles is_in can.room);
                others = λ c i o. rw ran (hand_out_at-In b.address size c a.free_list i o);
              },
            ),
          )
    ]
