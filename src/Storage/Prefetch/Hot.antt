-- ===== src/Storage/Prefetch/Hot.antt =====
-- find_hot: the block that the loop over the heat map leaves is the hottest of the others.
use os_exploring.Common.{
  ℕ, ◌+◌, ◌<◌, ◌≡◌, ◌≢◌, ◌⊎◌, inl, inr, refl, true, false, arith, Option, none, some, ◌==◌,
  Bool-cases, ℕ_discrete, for_range_inv,
}
use os_exploring.Storage.Prefetch.{Heat, Hottest, hot_step, Optimizer, find_hot}

-- What holds of `>` on doubles, also where one is not a number.
pub record IsOrder {H : Type 0} (heat : Heat H) : Type 0 where
  pub not_itself : (a : H) → heat.above a a ≡ false
  pub between :
      (a b c : H) → heat.above a b ≡ false → heat.above c b ≡ true → heat.above a c ≡ false

-- The hottest of the blocks but `block_num`: `none` if none of them is warm.
abbrev pub IsHottest : {H : Type 0} → Heat H → ℕ → ℕ → (ℕ → H) → Option ℕ → Type 0
IsHottest heat block_num total_blocks heats none =
    (j : ℕ) → j < total_blocks → j ≢ block_num → heat.above (heats j) heat.cold ≡ false
IsHottest heat block_num total_blocks heats (some hot) =
    (hot < total_blocks)
    × (hot ≢ block_num)
    × (heat.above (heats hot) heat.cold ≡ true)
    × ((j : ℕ) → j < total_blocks → j ≢ block_num → heat.above (heats j) (heats hot) ≡ false)

module _ {H : Type 0} (heat : Heat H) (order : IsOrder heat) (block_num : ℕ) (heats : ℕ → H) where
  -- Where the hottest block before `i` comes from.
  abbrev IsFrom : ℕ → Hottest H → Type 0
  IsFrom i h =
      ((h.hot_block ≡ none) × (h.max_heat ≡ heat.cold))
      ⊎ ((hot : ℕ) × (h.hot_block ≡ some hot)
          × (h.max_heat ≡ heats hot)
          × (hot < i)
          × (hot ≢ block_num)
          × (heat.above (heats hot) heat.cold ≡ true))

  later : (i : ℕ) (h : Hottest H) → IsFrom i h → IsFrom (i + 1) h
  later i h (inl cold) = inl cold
  later i h (inr (hot, e, same, low, other, warm)) =
      inr (hot, e, same, omega (arith, low), other, warm)

  -- The loop before block `i`.
  record IsSearched (i : ℕ) (h : Hottest H) : Type 0 where
    top : (j : ℕ) → j < i → j ≢ block_num → heat.above (heats j) h.max_heat ≡ false
    from : IsFrom i h

  -- What is hotter than the hottest so far is warm.
  warm_lem :
      (i k : ℕ) (h : Hottest H)
      → IsFrom k h
      → heat.above (heats i) h.max_heat ≡ true
      → heat.above (heats i) heat.cold ≡ true
  warm_lem i k h (inl (_, cold)) hotter = rw cold at hotter
  warm_lem i k h (inr (hot, _, same, _, _, warm)) hotter =
      elim (Bool-cases (heat.above (heats i) heat.cold)) [
        | inl yes_ ↦ yes_
        | inr not_ ↦
            let less = order.between (heats i) heat.cold (heats hot) not_ warm in
            let more = rw same at hotter in absurd (cc (less, more))
      ]

  hot_step-IsSearched :
      (i : ℕ) (h : Hottest H)
      → IsSearched i h
      → IsSearched (i + 1) (hot_step heat block_num heats i h)
  unfolding hot_step
  hot_step-IsSearched i h s = elim (Bool-cases (i == block_num)) [
    | inl same ↦ rw same (record {
      top = λ j low other. s.top j (ground (arith, same, low, other)) other;
      from = later i h s.from;
    })
    | inr differ ↦ elim (Bool-cases (heat.above (heats i) h.max_heat)) [
      | inl hotter ↦
          rw (differ, hotter)
            (record {
              top = λ j low other. elim (ℕ_discrete j i) [
                | yes at ↦ rw at (order.not_itself (heats i))
                | no before ↦
                    order.between (heats j) h.max_heat (heats i) (s.top j (omega arith) other)
                      hotter
              ];
              from = inr (
                i,
                refl,
                refl,
                omega arith,
                ground (arith, differ),
                warm_lem i i h s.from hotter,
              );
            })
      | inr cooler ↦
          rw (differ, cooler)
            (record {
              top = λ j low other. elim (ℕ_discrete j i) [
                | yes at ↦ rw at cooler
                | no before ↦ s.top j (omega arith) other
              ];
              from = later i h s.from;
            })
    ]
  ]

  IsSearched-IsHottest :
      (n : ℕ) (h : Hottest H) → IsSearched n h → IsHottest heat block_num n heats h.hot_block
  IsSearched-IsHottest n h s = elim s.from [
    | inl (nothing, cold) ↦ rw nothing (λ j low other. rw (← cold) (s.top j low other))
    | inr (hot, found, same, low, other, warm) ↦
        rw found (low, other, warm, λ j below differ. rw (← same) (s.top j below differ))
  ]

pub find_hot-IsHottest :
    {H : Type 0} (heat : Heat H) (block_num : ℕ) (o : Optimizer H)
    → IsOrder heat
    → IsHottest heat block_num o.total_blocks o.block_heat_map (find_hot heat block_num o)
unfolding find_hot
find_hot-IsHottest heat block_num o order =
    let map_ = o.block_heat_map in
    IsSearched-IsHottest heat order block_num map_ o.total_blocks _ (
      for_range_inv (IsSearched heat order block_num map_) (hot_step heat block_num map_)
        o.total_blocks (λ i h low s. hot_step-IsSearched heat order block_num map_ i h s)
        o.total_blocks 0 (record { max_heat = heat.cold; hot_block = none }) (omega arith)
        (record { top = λ j low other. absurd (omega arith); from = inl (refl, refl) }))
