-- ===== src/Concurrency/Workers/Slices.antt =====
-- The slices are disjoint, and cover the items.
use os_exploring.Common.{
  ℕ, zero, suc, ◌+◌, ◌-◌, ◌*◌, ◌<◌, ◌≤◌, ◌≡◌, true, false, arith, ◌==◌, dec_lt,
}
use native.Mathlib.Nat.{mul-le-mul_right, mul-div-le}
use os_exploring.Concurrency.Workers.{num_items, items_per_thread, start_index, end_index}

module _ (n : ℕ) (some_ : 0 < n) where
  all_items : n * items_per_thread n ≤ num_items
  unfolding items_per_thread
  all_items = mul-div-le num_items n

  pub start_index-end_index : (t : ℕ) → t < n → start_index n t ≤ end_index n t
  unfolding start_index end_index
  start_index-end_index t low =
      let upto : t * items_per_thread n ≤ n * items_per_thread n =
        mul-le-mul_right (items_per_thread n) (omega arith) in
      let one : t * items_per_thread n ≤ (t + 1) * items_per_thread n =
        mul-le-mul_right (items_per_thread n) (omega arith) in
      ground (arith, all_items, upto, one)

  pub end_index-start_index : (t u : ℕ) → t < u → u < n → end_index n t ≤ start_index n u
  unfolding start_index end_index
  end_index-start_index t u less low =
      let not_last : (t == n - 1) ≡ false = ground arith in
      let upto : (t + 1) * items_per_thread n ≤ u * items_per_thread n =
        mul-le-mul_right (items_per_thread n) (omega arith) in
      rw not_last upto

  pub end_index-num_items : (t : ℕ) → t < n → end_index n t ≤ num_items
  unfolding end_index
  end_index-num_items t low =
      let upto : (t + 1) * items_per_thread n ≤ n * items_per_thread n =
        mul-le-mul_right (items_per_thread n) (omega arith) in
      ground (arith, all_items, upto)

  -- An item of the first `j` slices of equal size is in one of them.
  slice_of : (j m k : ℕ) → k < j * m → (t : ℕ) × (t < j) × (t * m ≤ k) × (k < (t + 1) * m)
  slice_of zero m k low = absurd (omega arith)
  slice_of (suc j) m k low = elim (dec_lt k (j * m)) [
    | yes before ↦ let (t, less, from, to) = slice_of j m k before in (t, omega arith, from, to)
    | no last ↦
        let one : suc j ≡ j + 1 = omega arith in (j, omega arith, omega arith, rw one at low)
  ]

  pub owner :
      (k : ℕ) → k < num_items → (t : ℕ) × (t < n) × (start_index n t ≤ k) × (k < end_index n t)
  unfolding start_index end_index
  owner k low = elim (dec_lt k ((n - 1) * items_per_thread n)) [
    | yes before ↦
        let (t, less, from, to) = slice_of (n - 1) (items_per_thread n) k before in
        let not_last : (t == n - 1) ≡ false = ground arith in (t, omega arith, from, rw not_last to)
    | no after ↦
        let last : (n - 1 == n - 1) ≡ true = ground arith in
        (n - 1, omega arith, omega arith, rw last low)
  ]
