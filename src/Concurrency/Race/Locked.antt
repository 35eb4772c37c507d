-- ===== src/Concurrency/Race/Locked.antt =====
-- increment_with_mutex: the loop of a thread runs alone.
use os_exploring.Common.{
  ◌≡◌, refl, ap, sym, ◌∙◌, subst, inl, inr, ◌≢◌, ℕ, ◌+◌, ◌≤◌, ◌<◌, ltb, Bool, true, false, some,
  arith, ℕ_discrete, update, update_ne, update_self, sum_range-zero, Bool-cases, one_if,
  count_range, count_range-replace, count_range-none, count_range-pair, count_range-some,
}
use os_exploring.Concurrency.Race.Stores.{stores, all_stores, all_stores-update}
use os_exploring.Concurrency.Race.{
  Progress, before, looping, loaded, returned, Counting, start_threads, load_counter, store_counter,
  increment_with_mutex, step, Counted, here, next,
}

-- The thread has the mutex.
abbrev pub inside : Progress → Bool
inside before = false
inside (looping i) = true
inside (loaded i v) = true
inside returned = false

abbrev pub insiders : ℕ → (ℕ → Progress) → ℕ
insiders n threads = count_range n (λ t. inside (threads t))

-- What a thread has read is the counter as it is.
abbrev ReadNow : ℕ → ℕ → Progress → Type 0
ReadNow count now before = Unit
ReadNow count now (looping i) = i ≤ count
ReadNow count now (loaded i v) = (i < count) × (v ≡ now)
ReadNow count now returned = Unit

ReadNow-outside : (p : Progress) (count now : ℕ) → inside p ≡ false → ReadNow count now p
ReadNow-outside before count now out = tt
ReadNow-outside (looping i) count now out = cc
ReadNow-outside (loaded i v) count now out = cc
ReadNow-outside returned count now out = tt

pub record IsExact (n count : ℕ) (s : Counting) : Type 0 where
  pub counted : s.shared_counter ≡ all_stores n count s.threads
  pub alone : insiders n s.threads ≡ one_if s.mutex
  pub each : (t : ℕ) → t < n → ReadNow count s.shared_counter (s.threads t)

module _ (n count : ℕ) (s : Counting) (exact : IsExact n count s) (t : ℕ) (below : t < n)
    (old : Progress) (at : s.threads t ≡ old) where
  insiders-update :
      (new : Progress)
      → insiders n (update s.threads t new) + one_if (inside old)
        ≡ insiders n s.threads + one_if (inside new)
  insiders-update new =
      let change =
        count_range-replace n (λ k. inside (update s.threads t new k)) (λ k. inside (s.threads k)) t
          below (λ k differ. ap inside (update_ne s.threads t k new (λ e. differ (sym e)))) in
      let there = ap inside (update_self s.threads t new) in
      let gone = ap inside at in ground (arith, change, there, gone)

  -- While thread `t` has the mutex, what the others have read does not matter.
  others_outside : inside old ≡ true → (k : ℕ) → k < n → t ≢ k → inside (s.threads k) ≡ false
  others_outside has k low differ = elim (Bool-cases (inside (s.threads k))) [
    | inr out ↦ out
    | inl in_too ↦
        let two =
          count_range-pair n (λ j. inside (s.threads j)) t k below low differ (ap inside at ∙ has)
            in_too in
        absurd (ground (arith, exact.alone, two))
  ]

  -- The step of `t` to `new` leaves the books exact.
  IsExact-move :
      (new : Progress) (c : ℕ) (m : Bool)
      → c + stores count old ≡ s.shared_counter + stores count new
      → one_if m + one_if (inside old) ≡ one_if s.mutex + one_if (inside new)
      → ReadNow count c new
      → ((k : ℕ) → k < n → t ≢ k → ReadNow count c (s.threads k))
      → IsExact n count (record { shared_counter = c; mutex = m; threads = update s.threads t new })
  IsExact-move new c m stored held read others = record {
    counted =
        omega
          (arith, all_stores-update n count s.threads t old new below at, exact.counted, stored);
    alone = omega (arith, insiders-update new, exact.alone, held);
    each = λ k low. elim (ℕ_discrete t k) [
      | yes same ↦
          let there : update s.threads t new k ≡ new = ground (arith, same) in rw there read
      | no differ ↦ rw (update_ne s.threads t k new differ) (others k low differ)
    ];
  }

increment_with_mutex-IsExact :
    (n count : ℕ) (p : Progress) (t : ℕ) (s u : Counting)
    → t < n
    → s.threads t ≡ p
    → increment_with_mutex count p t s ≡ some u
    → IsExact n count s
    → IsExact n count u
unfolding increment_with_mutex load_counter store_counter
increment_with_mutex-IsExact n count before t s u below at e b = elim (Bool-cases s.mutex) [
  | inl held ↦ absurd (ground (arith, e, held))
  | inr free ↦
      let moved =
        IsExact-move n count s b t below before at (looping 0) s.shared_counter true (omega arith)
          (ground (arith, free)) (omega arith) (λ k low _. b.each k low) in
      subst (IsExact n count) (cc) moved
]
increment_with_mutex-IsExact n count (looping i) t s u below at e b =
    let within : i ≤ count = subst (ReadNow count s.shared_counter) at (b.each t below) in
    let held : s.mutex ≡ true =
      ground
        (arith, b.alone, count_range-some n (λ k. inside (s.threads k)) t below (ap inside at)) in
    elim (Bool-cases (ltb i count)) [
      | inl on ↦
          let moved =
            IsExact-move n count s b t below (looping i) at (loaded i s.shared_counter)
              s.shared_counter s.mutex (omega arith) (omega arith) (ground (arith, on), refl)
              (λ k low _. b.each k low) in
          subst (IsExact n count) (cc) moved
      | inr off ↦
          let moved =
            IsExact-move n count s b t below (looping i) at returned s.shared_counter false
              (ground (arith, within, off)) (ground (arith, held)) tt (λ k low _. b.each k low) in
          subst (IsExact n count) (cc) moved
    ]
increment_with_mutex-IsExact n count (loaded i v) t s u below at e b =
    let read = subst (ReadNow count s.shared_counter) at (b.each t below) in
    let moved =
      IsExact-move n count s b t below (loaded i v) at (looping (i + 1)) (v + 1) s.mutex
        (omega (arith, read.1)) (omega arith) (omega (arith, read.0))
        (λ k low differ.
          ReadNow-outside (s.threads k) count (v + 1)
            (others_outside n count s b t below (loaded i v) at refl k low differ)) in
    subst (IsExact n count) (cc) moved
increment_with_mutex-IsExact n count returned t s u below at e b = absurd (ground (arith, e))

start_threads-IsExact : (n count : ℕ) → IsExact n count start_threads
unfolding start_threads
start_threads-IsExact n count = record {
  counted = sym (sum_range-zero n (λ _. 0) (λ t low. refl));
  alone = count_range-none n (λ _. false) (λ t low. refl);
  each = λ t low. tt;
}

pub Counted-IsExact :
    (n count : ℕ) {s : Counting}
    → Counted (increment_with_mutex count) n start_threads s
    → IsExact n count s
Counted-IsExact n count here = start_threads-IsExact n count
Counted-IsExact n count {s} (next {u} r (step t below e)) =
    increment_with_mutex-IsExact n count (u.threads t) t u s below refl e
      (Counted-IsExact n count r)
