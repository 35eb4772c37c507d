-- ===== src/Common/Arrays.antt =====
-- Loops that write an array cell by cell, and matrices as functions of two indices.
use Prim.Native.Nat.{ℕ, zero, suc, ◌+◌, ◌<◌}
use mathlib.Core.Path.{◌≡◌}
use mathlib.Core.Bool.{Bool, true, ◌&&◌}
use native.Mathlib.Omega.{arith}
use os_exploring.Common.Tests.{ltb, leb, ◌==◌, if◌then◌else◌}
use os_exploring.Common.Loops.{update, for_range}

abbrev pub in_range : ℕ → ℕ → ℕ → Bool
in_range i n k = leb i k && ltb k (i + n)

abbrev pub update2 {ℓ} : {A : Type ℓ} → (ℕ → ℕ → A) → ℕ → ℕ → A → ℕ → ℕ → A
update2 f i j v = update f i (update (f i) j v)

-- for (k = i; k < i + n; k++) f[k] = g(k, f[k])
abbrev pub write_range {ℓ} : {A : Type ℓ} → (ℕ → A → A) → ℕ → ℕ → (ℕ → A) → ℕ → A
write_range g n i = for_range n i (λ k f. update f k (g k (f k)))

pub write_range_lem {ℓ} :
    {A : Type ℓ} (g : ℕ → A → A) (n i : ℕ) (f : ℕ → A) (k : ℕ)
    → write_range g n i f k ≡ (if in_range i n k then g k (f k) else f k)
unfolding for_range
write_range_lem g zero i f k = ground arith
write_range_lem g (suc n) i f k =
    ground (arith, write_range_lem g n (i + 1) (update f i (g i (f i))) k)

module _ {ℓ} {A : Type ℓ} (v : ℕ → ℕ → A) where
  -- for (k = j; k < j + m; k++) f[i][k] = v(i, k)
  abbrev pub fill_row : ℕ → ℕ → ℕ → (ℕ → ℕ → A) → ℕ → ℕ → A
  fill_row m j i = for_range m j (λ k f. update2 f i k (v i k))

  -- The loop over the rows `i`, …, `i + n - 1`.
  abbrev pub fill_table : ℕ → ℕ → ℕ → (ℕ → ℕ → A) → ℕ → ℕ → A
  fill_table n i m = for_range n i (λ k. fill_row m 0 k)

  fill_row_lem :
      (m j i : ℕ) (f : ℕ → ℕ → A) (a b : ℕ)
      → fill_row m j i f a b ≡ (if (i == a) && in_range j m b then v a b else f a b)
  unfolding for_range
  fill_row_lem zero j i f a b = ground arith
  fill_row_lem (suc m) j i f a b =
      ground (arith, fill_row_lem m (j + 1) i (update2 f i j (v i j)) a b)

  pub fill_table_lem :
      (n i m : ℕ) (f : ℕ → ℕ → A) (a b : ℕ)
      → fill_table n i m f a b ≡ (if in_range i n a && in_range 0 m b then v a b else f a b)
  unfolding for_range
  fill_table_lem zero i m f a b = ground arith
  fill_table_lem (suc n) i m f a b =
      ground (arith, fill_table_lem n (i + 1) m (fill_row m 0 i f) a b, fill_row_lem m 0 i f a b)

pub lt→in_range : (n i : ℕ) → i < n → in_range 0 n i ≡ true
lt→in_range n i h = ground arith
