-- ===== src/Storage/Prefetch/Queue.antt =====
-- The queue keeps the last entries.
use os_exploring.Common.{
  ℕ, zero, suc, ◌+◌, ◌-◌, ◌<◌, ◌≤◌, ◌≡◌, ◌∙◌, ap, refl, inl, inr, Bool-cases, true, false, arith,
  some, ltb, leb, ◌==◌, if◌then◌else◌, update_ne, write_range_lem, lt→in_range, in_range,
  ℕ_discrete, sym, subst,
}
use os_exploring.Storage.Prefetch.{PrefetchQueue, put_last, drop_oldest, queue_prefetch, queue_all}

-- Of `n` blocks queued so far, `history` in order, the queue holds the last ones, as many as fit.
pub record IsWindow (history : ℕ → ℕ) (n : ℕ) (q : PrefetchQueue) : Type 0 where
  pub counted : q.count ≡ (if ltb n q.capacity then n else q.capacity)
  pub kept : (i : ℕ) → i < q.count → q.blocks i ≡ history (n - q.count + i)

put_last-IsWindow :
    (history : ℕ → ℕ) (n : ℕ) (q : PrefetchQueue)
    → IsWindow history n q
    → q.count < q.capacity
    → IsWindow history (n + 1) (put_last (history n) q)
unfolding put_last
put_last-IsWindow history n q w room = record {
  counted = ground (arith, w.counted);
  kept = λ i low. elim (ℕ_discrete q.count i) [
    | yes last ↦
        let at : n + 1 - (q.count + 1) + i ≡ n = ground (arith, w.counted) in
        rw at (ground (arith, last))
    | no before ↦
        let at : n + 1 - (q.count + 1) + i ≡ n - q.count + i = omega arith in
        rw at (update_ne q.blocks q.count i (history n) before ∙ w.kept i (omega arith))
  ];
}

-- Without its oldest entry a full queue holds one entry less, and these are still the last ones.
drop_oldest-kept :
    (history : ℕ → ℕ) (n : ℕ) (q : PrefetchQueue)
    → IsWindow history n q
    → q.capacity ≤ q.count
    → (i : ℕ) → i < q.capacity - 1
    → (drop_oldest q).blocks i ≡ history (n - (q.capacity - 1) + i)
unfolding drop_oldest
drop_oldest-kept history n q w full i low =
    let moved = write_range_lem (λ k _. q.blocks (k + 1)) (q.capacity - 1) 0 q.blocks i in
    let inside : in_range 0 (q.capacity - 1) i ≡ true = lt→in_range (q.capacity - 1) i low in
    let there = w.kept (i + 1) (omega arith) in
    let at : n - q.count + (i + 1) ≡ n - (q.capacity - 1) + i = ground (arith, w.counted) in
    moved ∙ rw inside (there ∙ ap history at)

put_last-drop_oldest :
    (history : ℕ → ℕ) (n : ℕ) (q : PrefetchQueue)
    → IsWindow history n q
    → 0 < q.capacity
    → q.capacity ≤ q.count
    → IsWindow history (n + 1) (put_last (history n) (drop_oldest q))
unfolding put_last drop_oldest
put_last-drop_oldest history n q w some_ full = record {
  counted = ground (arith, w.counted);
  kept = λ i low. elim (ℕ_discrete (q.capacity - 1) i) [
    | yes last ↦
        let at : n + 1 - (q.capacity - 1 + 1) + i ≡ n = ground (arith, w.counted) in
        rw at (ground (arith, last))
    | no before ↦
        let at : n + 1 - (q.capacity - 1 + 1) + i ≡ n - (q.capacity - 1) + i =
          ground (arith, w.counted) in
        rw at (
          update_ne (drop_oldest q).blocks (q.capacity - 1) i (history n) before
          ∙ drop_oldest-kept history n q w full i (omega arith))
  ];
}

pub queue_prefetch-IsWindow :
    (history : ℕ → ℕ) (n : ℕ) (q : PrefetchQueue)
    → IsWindow history n q
    → 0 < q.capacity
    → (next : PrefetchQueue) × (queue_prefetch (history n) q ≡ some next)
      × IsWindow history (n + 1) next
      × (next.capacity ≡ q.capacity)
unfolding queue_prefetch put_last drop_oldest
queue_prefetch-IsWindow history n q w some_ = elim (Bool-cases (leb q.capacity q.count)) [
  | inl full ↦
      let not_none : (q.capacity == 0) ≡ false = ground arith in
      (
        put_last (history n) (drop_oldest q),
        rw (full, not_none) refl,
        put_last-drop_oldest history n q w some_ (ground (arith, full)),
        refl,
      )
  | inr room ↦ (
    put_last (history n) q,
    rw room refl,
    put_last-IsWindow history n q w (ground (arith, room)),
    refl,
  )
]

-- The loop over `left` predictions, the last entries of the history.
pub queue_all-IsWindow :
    (history predict_blocks : ℕ → ℕ) (n left i : ℕ) (q : PrefetchQueue)
    → IsWindow history (n + i) q
    → 0 < q.capacity
    → ((k : ℕ) → history (n + k) ≡ predict_blocks k)
    → (last : PrefetchQueue) × (queue_all left i predict_blocks q ≡ some last)
      × IsWindow history (n + (i + left)) last
      × (last.capacity ≡ q.capacity)
unfolding queue_all
queue_all-IsWindow history predict_blocks n zero i q w some_ same =
    let all : n + i ≡ n + (i + 0) = omega arith in
    (q, refl, subst (λ k. IsWindow history k q) all w, refl)
queue_all-IsWindow history predict_blocks n (suc left) i q w some_ same =
    let (next, e, on, kept) = queue_prefetch-IsWindow history (n + i) q w some_ in
    let at : n + i + 1 ≡ n + (i + 1) = omega arith in
    let on_ : IsWindow history (n + (i + 1)) next = subst (λ k. IsWindow history k next) at on in
    let (last, ended, all, capacity) =
      queue_all-IsWindow history predict_blocks n left (i + 1) next on_ (omega (arith, kept, some_))
        same in
    let count : n + (i + 1 + left) ≡ n + (i + suc left) = omega arith in
    let e_ : queue_prefetch (predict_blocks i) q ≡ some next =
      ap (λ b. queue_prefetch b q) (sym (same i)) ∙ e in
    (
      last,
      rw (e_, queue_all) ended,
      subst (λ k. IsWindow history k last) count all,
      capacity ∙ kept,
    )
