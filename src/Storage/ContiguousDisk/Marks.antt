-- ===== src/Storage/ContiguousDisk/Marks.antt =====
-- What marking a run as allocated does to the disk and to the count of free blocks.
use os_exploring.Common.{
  ℕ, ◌+◌, ◌≤◌, ◌<◌, ◌≡◌, refl, false, arith, ◌==◌, update, for_range_inv, count_range,
  count_range-ext, count_range-clear,
}
use os_exploring.Storage.ContiguousDisk.{mark_run}
use os_exploring.Storage.ContiguousDisk.Runs.{IsFree}

-- The number of free blocks among the first `total`.
abbrev pub free_count : ℕ → (ℕ → ℕ) → ℕ
free_count total disk = count_range total (λ k. disk k == 0)

free_count-update :
    (total : ℕ) (disk : ℕ → ℕ) (j : ℕ)
    → j < total
    → disk j ≡ 0
    → free_count total (update disk j 1) + 1 ≡ free_count total disk
free_count-update total disk j below e =
    let same : free_count total (update disk j 1)
        ≡ count_range total (update (λ k. disk k == 0) j false) =
      count_range-ext total (λ k. update disk j 1 k == 0) (update (λ k. disk k == 0) j false)
        (λ i a. ground arith) in
    rw same (count_range-clear total (λ k. disk k == 0) j below (ground (arith, e)))

-- The disk when the marking loop comes to block `k`.
pub record Marked (total : ℕ) (disk : ℕ → ℕ) (start k : ℕ) (now : ℕ → ℕ) : Type 0 where
  pub reached : start ≤ k
  pub before : (m : ℕ) → m < start → now m ≡ disk m
  pub marked : (m : ℕ) → start ≤ m → m < k → now m ≡ 1
  pub after : (m : ℕ) → k ≤ m → now m ≡ disk m
  pub counted : free_count total now + k ≡ free_count total disk + start

Marked-update :
    (total : ℕ) (disk : ℕ → ℕ) (start n : ℕ)
    → IsFree disk start n
    → start + n ≤ total
    → (k : ℕ) (now : ℕ → ℕ) → k < start + n
    → Marked total disk start k now
    → Marked total disk start (k + 1) (update now k 1)
Marked-update total disk start n free fits k now below m =
    let was : now k ≡ 0 = cc (m.after k (omega arith), free k m.reached below) in
    record {
      reached = omega (arith, m.reached);
      before = λ j a. ground (arith, m.before j a, m.reached);
      marked = λ j a b. ground (arith, m.marked j a);
      after = λ j a. ground (arith, m.after j);
      counted = omega (arith, m.counted, free_count-update total now k (omega arith) was);
    }

pub mark_run_lem :
    (total : ℕ) (disk : ℕ → ℕ) (start n : ℕ)
    → IsFree disk start n
    → start + n ≤ total
    → Marked total disk start (start + n) (mark_run n start disk)
unfolding mark_run
mark_run_lem total disk start n free fits =
    for_range_inv (Marked total disk start) (λ j now. update now j 1) (start + n)
      (Marked-update total disk start n free fits) n start disk refl
      (record {
        reached = omega arith;
        before = λ m a. refl;
        marked = λ m a b. absurd (omega arith);
        after = λ m a. refl;
        counted = refl;
      })
