-- ===== src/Common/Sums.antt =====
-- Sums of a function over the numbers below a bound.
use Prim.Native.Nat.{ℕ, zero, suc, ◌+◌, ◌*◌, ◌≤◌, ◌<◌}
use mathlib.Core.Path.{◌≡◌, refl}
use mathlib.Core.Logic.{◌≢◌}
use native.Mathlib.Decide.{dec_lt}
use native.Mathlib.Omega.{arith}
use os_exploring.Common.Loops.{update}

unfoldable pub sum_range : ℕ → (ℕ → ℕ) → ℕ
sum_range zero f = 0
sum_range (suc n) f = sum_range n f + f n

pub sum_range-ext :
    (n : ℕ) (f g : ℕ → ℕ) → ((i : ℕ) → i < n → f i ≡ g i) → sum_range n f ≡ sum_range n g
unfolding sum_range
sum_range-ext zero f g h = refl
sum_range-ext (suc n) f g h = rw (h n (omega arith), sum_range-ext n f g (λ i a. h i (omega arith)))

pub sum_range-update :
    (n : ℕ) (f : ℕ → ℕ) (p v : ℕ) → p < n → sum_range n (update f p v) + f p ≡ sum_range n f + v
unfolding sum_range
sum_range-update zero f p v h = absurd (omega arith)
sum_range-update (suc n) f p v h = elim (dec_lt p n) [
  | yes below ↦ ground (arith, sum_range-update n f p v below)
  | no last ↦
      let same : sum_range n (update f p v) ≡ sum_range n f =
        sum_range-ext n (update f p v) f (λ i a. ground arith) in
      ground (arith, same)
]

-- Two functions that agree everywhere but at `i`.
pub sum_range-replace :
    (n : ℕ) (f g : ℕ → ℕ) (i : ℕ)
    → i < n
    → ((k : ℕ) → k ≢ i → f k ≡ g k)
    → sum_range n f + g i ≡ sum_range n g + f i
unfolding sum_range
sum_range-replace zero f g i below agree = absurd (omega arith)
sum_range-replace (suc n) f g i below agree = elim (dec_lt i n) [
  | yes low ↦
      omega (arith, sum_range-replace n f g i low agree, agree n (λ e. absurd (omega arith)))
  | no last ↦
      let same = sum_range-ext n f g (λ k l. agree k (λ e. absurd (omega arith))) in
      let at : i ≡ n = omega arith in ground (arith, same, at)
]

pub sum_range-zero : (n : ℕ) (f : ℕ → ℕ) → ((i : ℕ) → i < n → f i ≡ 0) → sum_range n f ≡ 0
unfolding sum_range
sum_range-zero zero f h = refl
sum_range-zero (suc n) f h =
    omega (arith, h n (omega arith), sum_range-zero n f (λ i l. h i (omega arith)))

pub sum_range-const :
    (n : ℕ) (f : ℕ → ℕ) (c : ℕ) → ((i : ℕ) → i < n → f i ≡ c) → sum_range n f ≡ n * c
unfolding sum_range
sum_range-const zero f c h = omega arith
sum_range-const (suc n) f c h =
    grind (arith, h n (omega arith), sum_range-const n f c (λ i l. h i (omega arith)))

pub sum_range_mono :
    (n : ℕ) (f g : ℕ → ℕ) → ((i : ℕ) → i < n → f i ≤ g i) → sum_range n f ≤ sum_range n g
unfolding sum_range
sum_range_mono zero f g h = omega arith
sum_range_mono (suc n) f g h =
    omega (arith, h n (omega arith), sum_range_mono n f g (λ i l. h i (omega arith)))
