-- ===== src/Memory/Contiguous/Fit.antt =====
-- What the three searches of Memory_Allocation_Algo.c find.
use os_exploring.Common.{
  ℕ, zero, suc, ◌+◌, ◌-◌, ◌≤◌, ◌<◌, ◌≡◌, refl, sym, ap, ◌∙◌, ◌⊎◌, inl, inr, true, false, ◌&&◌,
  arith, Option, none, some, List, [], ◌∷◌, ltb, Bool-cases, get_or, ◌==◌,
}
use os_exploring.Memory.Contiguous.{
  MemoryBlock, MemoryManager, fits, first_fit_from, first_fit, best_fit_from, best_fit,
  worst_fit_from, worst_fit, select_block, no_block,
}

-- The block at position `k` is free and has room for `size` bytes.
abbrev pub Fits : ℕ → ℕ → List MemoryBlock → Type 0
Fits size k [] = ⊥
Fits size zero (b ∷ bs) = (b.is_allocated ≡ false) × (size ≤ b.size)
Fits size (suc k) (b ∷ bs) = Fits size k bs

abbrev pub size_at : List MemoryBlock → ℕ → ℕ
size_at bs k = (get_or bs k no_block).size

pub Fits-room : (size k : ℕ) (bs : List MemoryBlock) → Fits size k bs → size ≤ size_at bs k
Fits-room size k [] f = absurd f
Fits-room size zero (b ∷ bs) f = f.1
Fits-room size (suc k) (b ∷ bs) f = Fits-room size k bs f

-- What the loop makes of the best block so far, `best`, which leaves `smallest` bytes over.
record Best (i : ℕ) (bs : List MemoryBlock) (size smallest : ℕ) (best r : Option ℕ) : Type 0 where
  bound : ℕ
  least : (m : ℕ) → Fits size m bs → bound ≤ size_at bs m - size
  below : bound ≤ smallest
  result :
      ((r ≡ best) × (bound ≡ smallest))
      ⊎ ((k : ℕ) × (r ≡ some (i + k))
          × Fits size k bs
          × (size_at bs k - size ≡ bound)
          × (bound < smallest))

-- The first block joins those that come after it.
least_cons :
    (size bound : ℕ) (b : MemoryBlock) (bs : List MemoryBlock)
    → (b.is_allocated ≡ false → size ≤ b.size → bound ≤ b.size - size)
    → ((m : ℕ) → Fits size m bs → bound ≤ size_at bs m - size)
    → (m : ℕ) → Fits size m (b ∷ bs)
    → bound ≤ size_at (b ∷ bs) m - size
least_cons size bound b bs here there zero f = here f.0 f.1
least_cons size bound b bs here there (suc m) f = there m f

Best-taken :
    (i : ℕ) (b : MemoryBlock) (bs : List MemoryBlock) (size smallest : ℕ) (best r : Option ℕ)
    → (fits b size && ltb (b.size - size) smallest) ≡ true
    → Best (i + 1) bs size (b.size - size) (some i) r
    → Best i (b ∷ bs) size smallest best r
Best-taken i b bs size smallest best r better h = record {
  bound = h.bound;
  least = least_cons size h.bound b bs (λ _ _. h.below) h.least;
  below = ground (arith, h.below);
  result = elim h.result [
    | inl this ↦ inr (
      0,
      this.0 ∙ ap some (omega arith),
      (ground arith, ground arith),
      sym this.1,
      ground (arith, this.1),
    )
    | inr later ↦
        inr
          (suc later.0, later.1 ∙ ap some (omega arith), later.2, later.3, ground (arith, later.4))
  ];
}

Best-passed :
    (i : ℕ) (b : MemoryBlock) (bs : List MemoryBlock) (size smallest : ℕ) (best r : Option ℕ)
    → (fits b size && ltb (b.size - size) smallest) ≡ false
    → Best (i + 1) bs size smallest best r
    → Best i (b ∷ bs) size smallest best r
Best-passed i b bs size smallest best r worse h = record {
  bound = h.bound;
  least = least_cons size h.bound b bs (λ free room. ground (arith, h.below)) h.least;
  below = h.below;
  result = elim h.result [
    | inl same ↦ inl same
    | inr later ↦ inr (suc later.0, later.1 ∙ ap some (omega arith), later.2, later.3, later.4)
  ];
}

best_fit_from-Best :
    (i : ℕ) (bs : List MemoryBlock) (size smallest : ℕ) (best : Option ℕ)
    → Best i bs size smallest best (best_fit_from i bs size smallest best)
unfolding best_fit_from
best_fit_from-Best i [] size smallest best = record {
  bound = smallest;
  least = λ m f. absurd f;
  below = omega arith;
  result = inl (refl, refl);
}
best_fit_from-Best i (b ∷ bs) size smallest best =
    elim (Bool-cases (fits b size && ltb (b.size - size) smallest)) [
      | inl better ↦ rw better (
          Best-taken i b bs size smallest best _ better
            (best_fit_from-Best (i + 1) bs size (b.size - size) (some i)))
      | inr worse ↦ rw worse (
          Best-passed i b bs size smallest best _ worse
            (best_fit_from-Best (i + 1) bs size smallest best))
    ]

best_fit_choice :
    (m : MemoryManager) (size k : ℕ)
    → best_fit m size ≡ some k
    → Fits size k m.blocks
      × ((j : ℕ) → Fits size j m.blocks → size_at m.blocks k ≤ size_at m.blocks j)
unfolding best_fit
best_fit_choice m size k e =
    let h = best_fit_from-Best 0 m.blocks size m.total_size none in
    elim h.result [
      | inl nothing ↦ absurd (cc (sym nothing.0 ∙ e))
      | inr (j, found, fit, left, _) ↦
          let same : j ≡ k = ground (arith, found, e) in
          (
            rw (← same) fit,
            λ j' f'. rw (← same) (
                omega (
                  arith,
                  h.least j' f',
                  Fits-room size j' m.blocks f',
                  Fits-room size j m.blocks fit,
                )),
          )
    ]

-- Best fit returns a free block with room, and no block `j` that is free and has room is smaller.
pub best_fit_smallest :
    (m : MemoryManager) (size k j : ℕ)
    → best_fit m size ≡ some k
    → Fits size j m.blocks
    → Fits size k m.blocks × (size_at m.blocks k ≤ size_at m.blocks j)
best_fit_smallest m size k j e f = let (fit, least) = best_fit_choice m size k e in (fit, least j f)

-- A search returns what it was given, or a block further on that is free and has room.
abbrev Found : ℕ → List MemoryBlock → ℕ → Option ℕ → Option ℕ → Type 0
Found i bs size start r = (r ≡ start) ⊎ ((k : ℕ) × (r ≡ some (i + k)) × Fits size k bs)

Found-cons :
    (i : ℕ) (b : MemoryBlock) (bs : List MemoryBlock) (size : ℕ) (start r : Option ℕ)
    → Found (i + 1) bs size start r
    → Found i (b ∷ bs) size start r
Found-cons i b bs size start r (inl e) = inl e
Found-cons i b bs size start r (inr (k, e, f)) = inr (suc k, e ∙ ap some (omega arith), f)

Found-here :
    (i : ℕ) (b : MemoryBlock) (bs : List MemoryBlock) (size : ℕ) (start r : Option ℕ)
    → fits b size ≡ true
    → Found (i + 1) bs size (some i) r
    → Found i (b ∷ bs) size start r
Found-here i b bs size start r fit (inl e) =
    inr (0, e ∙ ap some (omega arith), (ground arith, ground arith))
Found-here i b bs size start r fit (inr (k, e, f)) = inr (suc k, e ∙ ap some (omega arith), f)

first_fit_from-Found :
    (i : ℕ) (bs : List MemoryBlock) (size : ℕ) → Found i bs size none (first_fit_from i bs size)
unfolding first_fit_from
first_fit_from-Found i [] size = inl refl
first_fit_from-Found i (b ∷ bs) size = elim (Bool-cases (fits b size)) [
  | inl fit ↦ rw fit (Found-here i b bs size none (some i) fit (inl refl))
  | inr unfit ↦ rw unfit (Found-cons i b bs size none _ (first_fit_from-Found (i + 1) bs size))
]

worst_fit_from-Found :
    (i : ℕ) (bs : List MemoryBlock) (size largest : ℕ) (worst : Option ℕ)
    → Found i bs size worst (worst_fit_from i bs size largest worst)
unfolding worst_fit_from
worst_fit_from-Found i [] size largest worst = inl refl
worst_fit_from-Found i (b ∷ bs) size largest worst =
    elim (Bool-cases (fits b size && ltb largest (b.size - size))) [
      | inl better ↦ rw better (
          Found-here i b bs size worst _ (ground arith)
            (worst_fit_from-Found (i + 1) bs size (b.size - size) (some i)))
      | inr not_better ↦
          rw not_better
            (Found-cons i b bs size worst _ (worst_fit_from-Found (i + 1) bs size largest worst))
    ]

Found-Fits :
    (bs : List MemoryBlock) (size k : ℕ) (r : Option ℕ)
    → r ≡ some k
    → Found 0 bs size none r
    → Fits size k bs
Found-Fits bs size k r e (inl nothing) = absurd (cc (sym nothing ∙ e))
Found-Fits bs size k r e (inr (j, found, f)) =
    let same : j ≡ k = ground (arith, found, e) in rw (← same) f

-- Whatever the strategy, the block that `allocMemory` selects is free and has room.
pub select_block-Fits :
    (m : MemoryManager) (size k : ℕ) → select_block m size ≡ some k → Fits size k m.blocks
unfolding select_block
select_block-Fits m size k e = elim (Bool-cases (m.allocated_strategy == 1)) [
  | inl first ↦ by_first (rw (first, select_block) at e)
  | inr other ↦ elim (Bool-cases (m.allocated_strategy == 2)) [
    | inl best ↦ (best_fit_choice m size k (rw (other, best, select_block) at e)).0
    | inr third ↦ elim (Bool-cases (m.allocated_strategy == 3)) [
      | inl worst ↦ by_worst (rw (other, third, worst, select_block) at e)
      | inr default ↦ by_first (rw (other, third, default, select_block) at e)
    ]
  ]
]
  where
    by_first : first_fit m size ≡ some k → Fits size k m.blocks
    by_first e' =
        unfold first_fit in Found-Fits m.blocks size k _ e' (first_fit_from-Found 0 m.blocks size)

    by_worst : worst_fit m size ≡ some k → Fits size k m.blocks
    by_worst e' =
        unfold worst_fit in
        Found-Fits m.blocks size k _ e' (worst_fit_from-Found 0 m.blocks size 0 none)

exact_from :
    (i : ℕ) (bs : List MemoryBlock) (size : ℕ)
    → ((k : ℕ) → Fits size k bs → size_at bs k ≡ size)
    → worst_fit_from i bs size 0 none ≡ none
unfolding worst_fit_from
exact_from i [] size h = refl
exact_from i (b ∷ bs) size h = ground (arith, h 0, exact_from (i + 1) bs size (λ k f. h (suc k) f))

-- Worst fit refuses a request if every free block with room has exactly the size asked for.
pub worst_fit_exact :
    (m : MemoryManager) (size : ℕ)
    → ((k : ℕ) → Fits size k m.blocks → size_at m.blocks k ≡ size)
    → worst_fit m size ≡ none
unfolding worst_fit
worst_fit_exact m size h = exact_from 0 m.blocks size h
