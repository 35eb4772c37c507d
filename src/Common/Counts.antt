-- ===== src/Common/Counts.antt =====
-- How `count_range` changes with its test.
use Prim.Native.Nat.{ℕ, zero, suc, ◌+◌, ◌≤◌, ◌<◌}
use mathlib.Core.Path.{◌≡◌, refl}
use mathlib.Core.Bool.{Bool, true, false}
use mathlib.Core.Logic.{inl, inr, ◌≢◌}
use native.Mathlib.Decide.{dec_lt}
use native.Mathlib.Omega.{arith}
use os_exploring.Common.Tests.{Bool-cases, if◌then◌else◌}
use os_exploring.Common.Loops.{update, count_range}

pub count_range-ext :
    (n : ℕ) (f g : ℕ → Bool) → ((i : ℕ) → i < n → f i ≡ g i) → count_range n f ≡ count_range n g
unfolding count_range
count_range-ext zero f g h = refl
count_range-ext (suc n) f g h =
    rw (h n (omega arith), count_range-ext n f g (λ i a. h i (omega arith)))

pub count_range-le : (n : ℕ) (f : ℕ → Bool) → count_range n f ≤ n
unfolding count_range
count_range-le zero f = omega arith
count_range-le (suc n) f = ground (arith, count_range-le n f)

pub count_range_mono :
    (n : ℕ) (f g : ℕ → Bool)
    → ((i : ℕ) → i < n → f i ≡ true → g i ≡ true)
    → count_range n f ≤ count_range n g
unfolding count_range
count_range_mono zero f g h = omega arith
count_range_mono (suc n) f g h =
    ground (arith, h n (omega arith), count_range_mono n f g (λ i a. h i (omega arith)))

count_range-update_of_le :
    (n : ℕ) (f : ℕ → Bool) (p : ℕ) (b : Bool)
    → n ≤ p
    → count_range n (update f p b) ≡ count_range n f
count_range-update_of_le n f p b h = count_range-ext n (update f p b) f (λ i a. ground arith)

pub count_range-update :
    (n : ℕ) (f : ℕ → Bool) (p : ℕ)
    → p < n
    → f p ≡ false
    → count_range n (update f p true) ≡ count_range n f + 1
unfolding count_range
count_range-update zero f p h e = absurd (omega arith)
count_range-update (suc n) f p h e = elim (dec_lt p n) [
  | yes below ↦ ground (arith, count_range-update n f p below e)
  | no last ↦ ground (arith, count_range-update_of_le n f p true)
]

pub count_range-clear :
    (n : ℕ) (f : ℕ → Bool) (p : ℕ)
    → p < n
    → f p ≡ true
    → count_range n (update f p false) + 1 ≡ count_range n f
unfolding count_range
count_range-clear zero f p h e = absurd (omega arith)
count_range-clear (suc n) f p h e = elim (dec_lt p n) [
  | yes below ↦ ground (arith, count_range-clear n f p below e)
  | no last ↦ ground (arith, count_range-update_of_le n f p false)
]

pub count_range-all : (n : ℕ) (f : ℕ → Bool) → ((i : ℕ) → i < n → f i ≡ true) → count_range n f ≡ n
unfolding count_range
count_range-all zero f h = refl
count_range-all (suc n) f h =
    ground (arith, h n (omega arith), count_range-all n f (λ i a. h i (omega arith)))

pub count_range-none :
    (n : ℕ) (f : ℕ → Bool) → ((i : ℕ) → i < n → f i ≡ false) → count_range n f ≡ 0
unfolding count_range
count_range-none zero f h = refl
count_range-none (suc n) f h =
    ground (arith, h n (omega arith), count_range-none n f (λ i a. h i (omega arith)))

pub count_range-pos :
    (n : ℕ) (f : ℕ → Bool) → 0 < count_range n f → (i : ℕ) × (i < n) × (f i ≡ true)
unfolding count_range
count_range-pos zero f h = absurd (omega arith)
count_range-pos (suc n) f h = elim (Bool-cases (f n)) [
  | inl here ↦ (n, omega arith, here)
  | inr gone ↦ let (i, lt, e) = count_range-pos n f (ground arith) in (i, omega arith, e)
]

pub count_range-some : (n : ℕ) (f : ℕ → Bool) (i : ℕ) → i < n → f i ≡ true → 0 < count_range n f
count_range-some n f i below e = omega (arith, count_range-clear n f i below e)

-- Two indices that pass the test make the count two at least.
pub count_range-pair :
    (n : ℕ) (f : ℕ → Bool) (i j : ℕ)
    → i < n
    → j < n
    → i ≢ j
    → f i ≡ true
    → f j ≡ true
    → 1 < count_range n f
count_range-pair n f i j low_i low_j differ e_i e_j =
    let rest = count_range-some n (update f i false) j low_j (ground (arith, e_j)) in
    omega (arith, rest, count_range-clear n f i low_i e_i)

abbrev pub one_if : Bool → ℕ
one_if b = if b then 1 else 0

-- Two tests that agree everywhere but at `i`.
pub count_range-replace :
    (n : ℕ) (f g : ℕ → Bool) (i : ℕ)
    → i < n
    → ((k : ℕ) → k ≢ i → f k ≡ g k)
    → count_range n f + one_if (g i) ≡ count_range n g + one_if (f i)
unfolding count_range
count_range-replace zero f g i below agree = absurd (omega arith)
count_range-replace (suc n) f g i below agree = elim (dec_lt i n) [
  | yes low ↦
      ground (arith, count_range-replace n f g i low agree, agree n (λ e. absurd (omega arith)))
  | no last ↦
      let same = count_range-ext n f g (λ k l. agree k (λ e. absurd (omega arith))) in
      let at : i ≡ n = omega arith in ground (arith, same, at)
]
