-- ===== src/Concurrency/Race/Unlocked.antt =====
-- increment_without_mutex: the counter never runs ahead of the stores.
use os_exploring.Common.{
  ◌≡◌, refl, subst, inl, inr, ℕ, ◌+◌, ◌*◌, ◌≤◌, ◌<◌, ltb, Bool, some, arith, ℕ_discrete, update,
  update_ne, sum_range_mono, sum_range-const, Bool-cases,
}
use os_exploring.Concurrency.Race.Stores.{stores, all_stores, all_stores-update}
use os_exploring.Concurrency.Race.{
  Progress, before, looping, loaded, returned, Counting, start_threads, load_counter, store_counter,
  increment_without_mutex, step, Counted, here, next,
}

-- A thread is within its rounds, and has read no more than what was stored.
abbrev AtMost : ℕ → ℕ → Progress → Type 0
AtMost count stored before = Unit
AtMost count stored (looping i) = i ≤ count
AtMost count stored (loaded i v) = (i < count) × (v ≤ stored)
AtMost count stored returned = Unit

AtMost-mono :
    (p : Progress) (count stored more : ℕ)
    → stored ≤ more
    → AtMost count stored p
    → AtMost count more p
AtMost-mono before count stored more le a = a
AtMost-mono (looping i) count stored more le a = a
AtMost-mono (loaded i v) count stored more le a = (a.0, omega (arith, a.1))
AtMost-mono returned count stored more le a = a

stores-le : (count stored : ℕ) (p : Progress) → AtMost count stored p → stores count p ≤ count
stores-le count stored before a = omega arith
stores-le count stored (looping i) a = a
stores-le count stored (loaded i v) a = omega (arith, a.0)
stores-le count stored returned a = omega arith

record IsBehind (n count : ℕ) (s : Counting) : Type 0 where
  counted : s.shared_counter ≤ all_stores n count s.threads
  each : (t : ℕ) → t < n → AtMost count (all_stores n count s.threads) (s.threads t)

IsBehind-move :
    (n count : ℕ) (s : Counting) (t : ℕ) (old new : Progress) (c : ℕ) (m : Bool)
    → IsBehind n count s
    → t < n
    → s.threads t ≡ old
    → stores count old ≤ stores count new
    → c ≤ all_stores n count (update s.threads t new)
    → AtMost count (all_stores n count s.threads) new
    → IsBehind n count (record { shared_counter = c; mutex = m; threads = update s.threads t new })
IsBehind-move n count s t old new c m behind below at more fits read =
    let change = all_stores-update n count s.threads t old new below at in
    let grows : all_stores n count s.threads ≤ all_stores n count (update s.threads t new) =
      omega (arith, change, more) in
    record {
      counted = fits;
      each = λ k low. elim (ℕ_discrete t k) [
        | yes same ↦
            let there : update s.threads t new k ≡ new = ground (arith, same) in
            rw there (AtMost-mono new count _ _ grows read)
        | no differ ↦
            rw (update_ne s.threads t k new differ)
              (AtMost-mono (s.threads k) count _ _ grows (behind.each k low))
      ];
    }

increment_without_mutex-IsBehind :
    (n count : ℕ) (p : Progress) (t : ℕ) (s u : Counting)
    → t < n
    → s.threads t ≡ p
    → increment_without_mutex count p t s ≡ some u
    → IsBehind n count s
    → IsBehind n count u
unfolding increment_without_mutex load_counter store_counter
increment_without_mutex-IsBehind n count before t s u below at e b =
    let m = all_stores-update n count s.threads t before (looping 0) below at in
    let moved =
      IsBehind-move n count s t before (looping 0) s.shared_counter s.mutex b below at (omega arith)
        (omega (arith, m, b.counted)) (omega arith) in
    subst (IsBehind n count) (cc) moved
increment_without_mutex-IsBehind n count (looping i) t s u below at e b =
    let within : i ≤ count =
      subst (AtMost count (all_stores n count s.threads)) at (b.each t below) in
    elim (Bool-cases (ltb i count)) [
      | inl on ↦
          let m =
            all_stores-update n count s.threads t (looping i) (loaded i s.shared_counter) below
              at in
          let moved =
            IsBehind-move n count s t (looping i) (loaded i s.shared_counter) s.shared_counter
              s.mutex b below at (omega arith) (omega (arith, m, b.counted))
              (ground (arith, on), b.counted) in
          subst (IsBehind n count) (cc) moved
      | inr off ↦
          let m = all_stores-update n count s.threads t (looping i) returned below at in
          let moved =
            IsBehind-move n count s t (looping i) returned s.shared_counter s.mutex b below at
              (omega (arith, within)) (omega (arith, m, b.counted, within)) tt in
          subst (IsBehind n count) (cc) moved
    ]
increment_without_mutex-IsBehind n count (loaded i v) t s u below at e b =
    let m = all_stores-update n count s.threads t (loaded i v) (looping (i + 1)) below at in
    let read : AtMost count (all_stores n count s.threads) (loaded i v) =
      subst (AtMost count (all_stores n count s.threads)) at (b.each t below) in
    let moved =
      IsBehind-move n count s t (loaded i v) (looping (i + 1)) (v + 1) s.mutex b below at
        (omega arith) (omega (arith, m, read.1)) (omega (arith, read.0)) in
    subst (IsBehind n count) (cc) moved
increment_without_mutex-IsBehind n count returned t s u below at e b = absurd (ground (arith, e))

start_threads-IsBehind : (n count : ℕ) → IsBehind n count start_threads
unfolding start_threads
start_threads-IsBehind n count = record { counted = omega arith; each = λ t low. tt }

Counted-IsBehind :
    (n count : ℕ) {s : Counting}
    → Counted (increment_without_mutex count) n start_threads s
    → IsBehind n count s
Counted-IsBehind n count here = start_threads-IsBehind n count
Counted-IsBehind n count {s} (next {u} r (step t below e)) =
    increment_without_mutex-IsBehind n count (u.threads t) t u s below refl e
      (Counted-IsBehind n count r)

-- However the threads without the mutex are interleaved, the counter never exceeds the number of rounds
-- they have finished, and so never the number of threads times `count`.
pub Counted-AtMost :
    (n count : ℕ) {s : Counting}
    → Counted (increment_without_mutex count) n start_threads s
    → (s.shared_counter ≤ all_stores n count s.threads) × (s.shared_counter ≤ n * count)
Counted-AtMost n count {s} r =
    let b = Counted-IsBehind n count r in
    let all =
      sum_range_mono n (λ t. stores count (s.threads t)) (λ _. count)
        (λ t low. stores-le count _ (s.threads t) (b.each t low)) in
    (b.counted, omega (arith, b.counted, all, sum_range-const n (λ _. count) count (λ _ _. refl)))
