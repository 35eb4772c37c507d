-- ===== src/Storage/ContiguousDisk/Runs.antt =====
-- The search for a run of free blocks is sound and complete.
use os_exploring.Common.{
  ℕ, zero, suc, ◌+◌, ◌≤◌, ◌<◌, ◌≡◌, inl, inr, some, arith, ◌==◌, Bool-cases, if◌then◌else◌, dec_lt,
}
use os_exploring.Storage.ContiguousDisk.{find_run}

-- The blocks from `s` on, `n` of them, are free.
abbrev pub IsFree : (ℕ → ℕ) → ℕ → ℕ → Type 0
IsFree disk s n = (k : ℕ) → s ≤ k → k < s + n → disk k ≡ 0

-- The run at hand when the loop comes to block `i`.
record Counting (disk : ℕ → ℕ) (i curr start needed : ℕ) : Type 0 where
  short : curr < needed
  begun : 0 < curr → start + curr ≡ i
  free : 0 < curr → IsFree disk start curr

Counting-step :
    (disk : ℕ → ℕ) (i curr start needed : ℕ)
    → disk i ≡ 0
    → Counting disk i curr start needed
    → let start' = if curr == 0 then i else start in
      (start' + (curr + 1) ≡ i + 1) × IsFree disk start' (curr + 1)
Counting-step disk i zero start needed e c =
    (omega arith, λ k a b. let at : i ≡ k = omega arith in ground (arith, e, at))
Counting-step disk i (suc n) start needed e c =
    let kept : (if suc n == 0 then i else start) ≡ start = ground arith in
    let sum_ : start + (suc n + 1) ≡ i + 1 = omega (arith, c.begun (omega arith)) in
    let free : IsFree disk start (suc n + 1) = λ k a b. elim (dec_lt k (start + suc n)) [
      | yes old ↦ c.free (omega arith) k a old
      | no new ↦ let at : i ≡ k = omega (arith, c.begun (omega arith)) in ground (arith, e, at)
    ] in
    rw kept (sum_, free)

find_run_sound :
    (left i curr start : ℕ) (disk : ℕ → ℕ) (needed s : ℕ)
    → Counting disk i curr start needed
    → find_run left i curr start disk needed ≡ some s
    → (s + needed ≤ i + left) × IsFree disk s needed
unfolding find_run
find_run_sound zero i curr start disk needed s c e = cc
find_run_sound (suc left) i curr start disk needed s c e = elim (Bool-cases (disk i == 0)) [
  | inr used ↦
      let (fits, free) =
        find_run_sound left (i + 1) 0 start disk needed s
          (record {
            short = omega (arith, c.short);
            begun = λ l. absurd (omega arith);
            free = λ l. absurd (omega arith);
          })
          (rw (used, find_run) at e) in
      (omega (arith, fits), free)
  | inl unused ↦
      let (sum_, free) = Counting-step disk i curr start needed (ground arith) c in
      elim (Bool-cases (curr + 1 == needed)) [
        | inl done ↦
            let n : curr + 1 ≡ needed = ground arith in
            let at : (if curr == 0 then i else start) ≡ s =
              ground (arith, (rw (unused, done, find_run) at e)) in
            (omega (arith, sum_, at), rw (← at, ← n) free)
        | inr more ↦
            let (fits, free') =
              find_run_sound left (i + 1) (curr + 1) (if curr == 0 then i else start) disk needed s
                (record { short = ground (arith, c.short); begun = λ _. sum_; free = λ _. free })
                (rw (unused, more, find_run) at e) in
            (omega (arith, fits), free')
      ]
]

-- A run found starts a stretch of free blocks inside the disk.
pub find_run_lem :
    (total : ℕ) (disk : ℕ → ℕ) (needed s : ℕ)
    → 0 < needed
    → find_run total 0 0 0 disk needed ≡ some s
    → (s + needed ≤ total) × IsFree disk s needed
find_run_lem total disk needed s positive e =
    let (fits, free) =
      find_run_sound total 0 0 0 disk needed s
        (record {
          short = positive;
          begun = λ l. absurd (omega arith);
          free = λ l. absurd (omega arith);
        })
        e in
    (omega (arith, fits), free)

find_run_complete :
    (left i curr start : ℕ) (disk : ℕ → ℕ) (needed s : ℕ)
    → IsFree disk s needed
    → s + needed ≤ i + left
    → i ≤ s + curr
    → curr < needed
    → i < s + needed
    → (r : ℕ) × (find_run left i curr start disk needed ≡ some r)
unfolding find_run
find_run_complete zero i curr start disk needed s free fits near short ahead = absurd (omega arith)
find_run_complete (suc left) i curr start disk needed s free fits near short ahead =
    elim (Bool-cases (disk i == 0)) [
      | inr used ↦ elim (dec_lt i s) [
        | no reached ↦ absurd (ground (arith, free i (omega arith) ahead))
        | yes before ↦
            let (r, e) =
              find_run_complete left (i + 1) 0 start disk needed s free (omega arith) (omega arith)
                (omega arith) (omega arith) in
            (r, rw (used, find_run) e)
      ]
      | inl unused ↦ elim (Bool-cases (curr + 1 == needed)) [
        | inl done ↦ (if curr == 0 then i else start, rw (unused, done, find_run))
        | inr more ↦
            let (r, e) =
              find_run_complete left (i + 1) (curr + 1) (if curr == 0 then i else start) disk needed
                s free (omega arith) (omega arith) (ground arith) (ground arith) in
            (r, rw (unused, more, find_run) e)
      ]
    ]

-- If there is a run of free blocks, one is found.
pub find_run-ne-none :
    (total : ℕ) (disk : ℕ → ℕ) (needed s : ℕ)
    → 0 < needed
    → s + needed ≤ total
    → IsFree disk s needed
    → (r : ℕ) × (find_run total 0 0 0 disk needed ≡ some r)
find_run-ne-none total disk needed s positive fits free =
    find_run_complete total 0 0 0 disk needed s free (omega arith) (omega arith) positive
      (omega arith)
