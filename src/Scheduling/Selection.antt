-- ===== src/Scheduling/Selection.antt =====
-- The scan of the schedulers: the first index, among those that may run, with the least key.
use os_exploring.Common.{
  ℕ, ◌+◌, ◌<◌, ◌≡◌, refl, ◌⊎◌, inl, inr, Bool, true, ◌&&◌, Option, none, some, arith, ℤ, int_max,
  ltb_ℤ, ◌≤ℤ◌, Bool-cases, if◌then◌else◌, dec_lt, for_range, for_range_inv,
}

-- for (i = 0; i < n; i++) if (eligible(i) && key(i) < best) { best = key(i); selected = i; }
-- from `best` the limit and `selected` -1, which is `none`.
unfoldable pub select_below : ℤ → ℕ → (ℕ → Bool) → (ℕ → ℤ) → ℤ × Option ℕ
unfolding for_range
select_below limit n eligible key =
    for_range n 0 (λ i s. if eligible i && ltb_ℤ (key i) s.0 then (key i, some i) else s)
      (limit, none)

-- The scan of the schedulers, from INT_MAX.
abbrev pub select_min : ℕ → (ℕ → Bool) → (ℕ → ℤ) → ℤ × Option ℕ
select_min = select_below int_max

record Selected (limit : ℤ) (eligible : ℕ → Bool) (key : ℕ → ℤ) (k : ℕ) (s : ℤ × Option ℕ)
    : Type 0 where
  least : (j : ℕ) → j < k → eligible j ≡ true → s.0 ≤ℤ key j
  found :
      ((s.0 ≡ limit) × (s.1 ≡ none))
      ⊎ ((i : ℕ) × (i < k) × (eligible i ≡ true) × (s.0 ≡ key i) × (s.1 ≡ some i))

Selected-step :
    (limit : ℤ) (eligible : ℕ → Bool) (key : ℕ → ℤ) (j : ℕ) (s : ℤ × Option ℕ)
    → Selected limit eligible key j s
    → Selected limit eligible key
        (j + 1)
        (if eligible j && ltb_ℤ (key j) s.0 then (key j, some j) else s)
Selected-step limit eligible key j s h = elim (Bool-cases (eligible j && ltb_ℤ (key j) s.0)) [
  | inl lower ↦ rw lower (record {
    least = λ i lt e. elim (dec_lt i j) [
      | yes old ↦ ground (arith, h.least i old e, lower)
      | no new ↦ let at : i ≡ j = omega arith in rw at (omega arith)
    ];
    found = inr (j, omega arith, ground (arith, lower), refl, refl);
  })
  | inr higher ↦ rw higher (record {
    least = λ i lt e. elim (dec_lt i j) [
      | yes old ↦ h.least i old e
      | no new ↦
          let at : i ≡ j = omega arith in
          let run : eligible j ≡ true = rw (← at) e in rw at (ground (arith, run, higher))
    ];
    found = elim h.found [
      | inl none_yet ↦ inl none_yet
      | inr (i, lt, e, v, at) ↦ inr (i, omega arith, e, v, at)
    ];
  })
]

select_below-Selected :
    (limit : ℤ) (n : ℕ) (eligible : ℕ → Bool) (key : ℕ → ℤ)
    → Selected limit eligible key n (select_below limit n eligible key)
unfolding select_below
select_below-Selected limit n eligible key =
    for_range_inv (Selected limit eligible key) _ n
      (λ j s _ h. Selected-step limit eligible key j s h) n 0 _ (omega arith)
      (record { least = λ j lt. absurd (omega arith); found = inl (refl, refl) })

pub select_below-some :
    (limit : ℤ) (n : ℕ) (eligible : ℕ → Bool) (key : ℕ → ℤ) (i : ℕ)
    → (select_below limit n eligible key).1 ≡ some i
    → (i < n) × (eligible i ≡ true) × ((j : ℕ) → j < n → eligible j ≡ true → key i ≤ℤ key j)
select_below-some limit n eligible key i e =
    let h = select_below-Selected limit n eligible key in
    elim h.found [
      | inl (_, no_one) ↦ absurd (cc (e, no_one))
      | inr (i', lt, run, v, at) ↦
          let same : i' ≡ i = cc (at, e) in rw (← same) (lt, run, λ j l r. rw (← v) (h.least j l r))
    ]

pub select_below-none :
    (limit : ℤ) (n : ℕ) (eligible : ℕ → Bool) (key : ℕ → ℤ) (j : ℕ)
    → (select_below limit n eligible key).1 ≡ none
    → j < n
    → eligible j ≡ true
    → limit ≤ℤ key j
select_below-none limit n eligible key j e lt run =
    let h = select_below-Selected limit n eligible key in
    elim h.found [
      | inl (v, _) ↦ ground (arith, v, h.least j lt run)
      | inr (i, l, r, v, at) ↦ absurd (cc (at, e))
    ]
