-- ===== src/Concurrency/Race/Outcome.antt =====
-- increment_with_mutex: no round is lost, and no schedule gets stuck.
use os_exploring.Common.{
  ◌≡◌, refl, ◌∙◌, ◌⊎◌, Option-cases, not, find_range, find_range-some, find_range-none,
  count_range-pos, inl, inr, ℕ, ◌*◌, ◌<◌, ltb, Bool, true, false, some, arith, update,
  sum_range-const, Bool-cases,
}
use os_exploring.Concurrency.Race.Stores.{stores, all_stores}
use os_exploring.Concurrency.Race.{
  Progress, before, looping, loaded, returned, Counting, start_threads, load_counter, store_counter,
  increment_with_mutex, Counted,
}
use os_exploring.Concurrency.Race.Locked.{inside, insiders, IsExact, Counted-IsExact}

abbrev has_returned : Progress → Bool
has_returned returned = true
has_returned _ = false

returned-stores : (count : ℕ) (p : Progress) → has_returned p ≡ true → stores count p ≡ count
returned-stores count before h = cc
returned-stores count (looping i) h = cc
returned-stores count (loaded i v) h = cc
returned-stores count returned h = refl

free-step :
    (count : ℕ) (p : Progress) (t : ℕ) (s : Counting)
    → s.mutex ≡ false
    → has_returned p ≡ false
    → (u : Counting) × (increment_with_mutex count p t s ≡ some u)
unfolding increment_with_mutex load_counter store_counter
free-step count before t s free on =
    (record s { mutex = true; threads = update s.threads t (looping 0) }, rw free)
free-step count (looping i) t s free on = elim (Bool-cases (ltb i count)) [
  | inl less ↦ (record s { threads = update s.threads t (loaded i s.shared_counter) }, rw less refl)
  | inr over ↦ (record s { mutex = false; threads = update s.threads t returned }, rw over)
]
free-step count (loaded i v) t s free on = (_, refl)
free-step count returned t s free on = cc

inside-step :
    (count : ℕ) (p : Progress) (t : ℕ) (s : Counting)
    → inside p ≡ true
    → (u : Counting) × (increment_with_mutex count p t s ≡ some u)
unfolding increment_with_mutex load_counter store_counter
inside-step count before t s h = cc
inside-step count (looping i) t s h = elim (Bool-cases (ltb i count)) [
  | inl less ↦ (record s { threads = update s.threads t (loaded i s.shared_counter) }, rw less refl)
  | inr over ↦ (record s { mutex = false; threads = update s.threads t returned }, rw over)
]
inside-step count (loaded i v) t s h = (_, refl)
inside-step count returned t s h = cc

-- Some thread can step.
abbrev CanStep : ℕ → ℕ → Counting → Type 0
CanStep n count s =
    (t : ℕ) × (t < n) × ((u : Counting) × (increment_with_mutex count (s.threads t) t s ≡ some u))

some-CanStep :
    (n count : ℕ) (s : Counting) (t : ℕ)
    → IsExact n count s
    → t < n
    → has_returned (s.threads t) ≡ false
    → CanStep n count s
some-CanStep n count s t b below on = elim (Bool-cases s.mutex) [
  | inr free ↦ (t, below, free-step count (s.threads t) t s free on)
  | inl held ↦
      let one : 0 < insiders n s.threads = ground (arith, b.alone, held) in
      let (k, low, h) = count_range-pos n (λ j. inside (s.threads j)) one in
      (k, low, inside-step count (s.threads k) k s h)
]

-- However the threads with the mutex are interleaved, the counter is at every moment the number of
-- rounds they have finished, and either it is the number of threads times `count`, or some thread can
-- still step.
pub Counted-exact :
    (n count : ℕ) {s : Counting}
    → Counted (increment_with_mutex count) n start_threads s
    → (s.shared_counter ≡ all_stores n count s.threads)
      × ((s.shared_counter ≡ n * count)
          ⊎ ((t : ℕ) × (t < n)
              × ((u : Counting) × (increment_with_mutex count (s.threads t) t s ≡ some u))))
Counted-exact n count {s} r =
    let b = Counted-IsExact n count r in
    let running = λ (t : ℕ). not (has_returned (s.threads t)) in
    (
      b.counted,
      elim (Option-cases (find_range n 0 running)) [
        | inl no_one ↦ inl (
            b.counted
            ∙ sum_range-const n (λ t. stores count (s.threads t)) count
                (λ t low. returned-stores count (s.threads t) (
                  ground
                    (arith, find_range-none n 0 running t no_one (omega arith) (omega arith)))))
        | inr (t, found) ↦
            let (_, below, on) = find_range-some n 0 running t found in
            inr (some-CanStep n count s t b (omega arith) (ground (arith, on)))
      ],
    )
