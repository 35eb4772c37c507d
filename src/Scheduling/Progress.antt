-- ===== src/Scheduling/Progress.antt =====
-- The time that is left to run, and how one tick of a process lowers it.
use os_exploring.Common.{
  sum_range, ℕ, ◌+◌, ◌-◌, ◌≤◌, ◌<◌, ◌≡◌, inl, inr, true, not, arith, ◌==◌, Bool-cases, Option-cases,
  if◌then◌else◌, update, count_range, count_range-ext, count_range-le, count_range-update,
  count_range-all, find_range, find_range-some, find_range-none,
}

-- How many of the first `n` have nothing left.
abbrev pub zeros : ℕ → (ℕ → ℕ) → ℕ
zeros n left = count_range n (λ i. left i == 0)

pub zeros-update :
    (n : ℕ) (left : ℕ → ℕ) (i v : ℕ)
    → i < n
    → 0 < left i
    → zeros n (update left i v) ≡ zeros n left + (if v == 0 then 1 else 0)
zeros-update n left i v below busy = elim (Bool-cases (v == 0)) [
  | inl done ↦
      let same =
        count_range-ext n (λ k. update left i v k == 0) (update (λ k. left k == 0) i true)
          (λ k l. ground (arith, done)) in
      let more = count_range-update n (λ k. left k == 0) i below (ground arith) in
      rw done (cc (same, more))
  | inr on ↦
      let same =
        count_range-ext n (λ k. update left i v k == 0) (λ k. left k == 0)
          (λ k l. ground (arith, on)) in
      rw on (omega (arith, same))
]

-- If not all are done, one has something left.
pub zeros-lt : (n : ℕ) (left : ℕ → ℕ) → zeros n left < n → (i : ℕ) × (i < n) × (0 < left i)
zeros-lt n left less = elim (Option-cases (find_range n 0 (λ i. not (left i == 0)))) [
  | inl no_one ↦
      let all =
        count_range-all n (λ i. left i == 0)
          (λ i l. ground (
            arith,
            find_range-none n 0 (λ i. not (left i == 0)) i no_one (omega arith) (omega arith),
          )) in
      absurd (omega (arith, all))
  | inr (i, found) ↦
      let (_, below, busy) = find_range-some n 0 (λ i. not (left i == 0)) i found in
      (i, omega arith, ground (arith, busy))
]

-- If all are done, none has anything left.
pub zeros-all : (n : ℕ) (left : ℕ → ℕ) (i : ℕ) → n ≤ zeros n left → i < n → left i ≡ 0
zeros-all n left i all below = elim (Bool-cases (left i == 0)) [
  | inl done ↦ ground arith
  | inr busy ↦
      let more = count_range-update n (λ k. left k == 0) i below busy in
      absurd (omega (arith, more, count_range-le n (update (λ k. left k == 0) i true)))
]

-- The rounds that a scheduler may still need at time `now`, if all have arrived by `last`.
abbrev pub rounds_left : ℕ → ℕ → ℕ → (ℕ → ℕ) → ℕ
rounds_left n last now left = sum_range n left + (last - now)
