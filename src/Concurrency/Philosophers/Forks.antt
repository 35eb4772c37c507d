-- ===== src/Concurrency/Philosophers/Forks.antt =====
-- Who holds which fork, and the order in which a philosopher takes its two.
use os_exploring.Common.{
  ◌≡◌, refl, ℕ, zero, suc, ◌<◌, Bool, true, false, ◌||◌, arith, ◌==◌, if◌then◌else◌, ltb,
  count_range, ltb→lt,
}
use os_exploring.Concurrency.Philosophers.{
  Activity, thinking, has_first, eating, has_second, first_fork, second_fork, left, right,
  num_philosophers,
}

abbrev pub holds_fork : ℕ → ℕ → Activity → Bool
holds_fork fork i thinking = false
holds_fork fork i has_first = fork == first_fork i
holds_fork fork i eating = (fork == first_fork i) || (fork == second_fork i)
holds_fork fork i has_second = fork == second_fork i

abbrev pub holders : ℕ → (ℕ → Activity) → ℕ
holders fork philosophers = count_range num_philosophers (λ i. holds_fork fork i (philosophers i))

-- The order of the forks that every philosopher keeps to: 4, then 1 and 2, then 3, then 0.
abbrev pub rank : ℕ → ℕ
rank fork = if fork == 4 then 0 else (if fork == 0 then 3 else (if fork == 3 then 2 else 1))

below_five {ℓ} :
    (P : ℕ → Type ℓ) → P 0 → P 1 → P 2 → P 3 → P 4 → (i : ℕ) → i < num_philosophers → P i
below_five P a b c d e zero h = a
below_five P a b c d e (suc zero) h = b
below_five P a b c d e (suc (suc zero)) h = c
below_five P a b c d e (suc (suc (suc zero))) h = d
below_five P a b c d e (suc (suc (suc (suc zero)))) h = e
below_five P a b c d e (suc (suc (suc (suc (suc i))))) h = absurd (omega arith)

pub rank_grows : (i : ℕ) → i < num_philosophers → rank (first_fork i) < rank (second_fork i)
unfolding first_fork second_fork left right
rank_grows i h = ltb→lt _ _ (
    below_five (λ k. ltb (rank (first_fork k)) (rank (second_fork k)) ≡ true) refl refl refl refl
      refl i h)
