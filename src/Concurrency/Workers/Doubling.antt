-- ===== src/Concurrency/Workers/Doubling.antt =====
-- Every item is doubled once, in any interleaving.
use os_exploring.Common.{
  ℕ, ◌+◌, ◌*◌, ◌<◌, ◌≤◌, ◌≡◌, ◌≢◌, ◌∙◌, subst, refl, ◌⊎◌, inl, inr, Bool, Bool-cases, Option-cases,
  true, false, not, arith, if◌then◌else◌, dec_lt, ltb, ℕ_discrete, some, update, update_ne,
  find_range, find_range-some, find_range-none,
}
use os_exploring.Concurrency.Workers.Slices.{start_index-end_index, end_index-start_index, owner}
use os_exploring.Concurrency.Workers.{
  num_items, start_index, end_index, Worker, at_item, has_item, SharedWork, thread_initialize,
  thread_worker, step, Worked, here, next,
}

-- The first item that the thread has not stored yet.
abbrev pub reached : Worker → ℕ
reached (at_item i) = i
reached (has_item i v) = i

-- A value that is loaded and not stored yet is that of the item, which is not doubled yet.
abbrev HasFresh : ℕ → Worker → Type 0
HasFresh end_ (at_item i) = Unit
HasFresh end_ (has_item i v) = (i < end_) × (v ≡ i)

-- What a thread has done to its slice.
record InSlice (n t : ℕ) (items : ℕ → ℕ) (w : Worker) : Type 0 where
  from : start_index n t ≤ reached w
  upto : reached w ≤ end_index n t
  fresh : HasFresh (end_index n t) w
  doubled :
      (k : ℕ)
      → start_index n t ≤ k
      → k < end_index n t
      → items k ≡ (if ltb k (reached w) then k * 2 else k)

slices_apart :
    (n t u i k : ℕ)
    → t < n
    → u < n
    → t ≢ u
    → start_index n t ≤ i
    → i < end_index n t
    → start_index n u ≤ k
    → k < end_index n u
    → i ≢ k
slices_apart n t u i k low_t low_u differ from_i to_i from_k to_k same = elim (dec_lt t u) [
  | yes before ↦
      absurd
        (omega (arith, end_index-start_index n (omega arith) t u before low_u, same, from_k, to_i))
  | no after ↦
      let less : u < t = ground (arith, differ) in
      absurd
        (omega (arith, end_index-start_index n (omega arith) u t less low_t, same, from_i, to_k))
]

abbrev AllInSlice : ℕ → SharedWork → Type 0
AllInSlice n s = (t : ℕ) → t < n → InSlice n t s.shared_data (s.workers t)

-- One thread moves, and the slices of the others stay as they are.
update-AllInSlice :
    (n t : ℕ) (items : ℕ → ℕ) (workers : ℕ → Worker) (w : Worker)
    → InSlice n t items w
    → ((k : ℕ) → k < n → t ≢ k → InSlice n k items (workers k))
    → AllInSlice n (record { shared_data = items; workers = update workers t w })
update-AllInSlice n t items workers w own others k low = elim (ℕ_discrete t k) [
  | yes same ↦
      let there : update workers t w k ≡ w = ground (arith, same) in
      rw there (subst (λ j. InSlice n j items w) same own)
  | no differ ↦ rw (update_ne workers t k w differ) (others k low differ)
]

thread_worker-InSlice :
    (n : ℕ) (w : Worker) (t : ℕ) (s u : SharedWork)
    → t < n
    → s.workers t ≡ w
    → thread_worker n w t s ≡ some u
    → AllInSlice n s
    → AllInSlice n u
unfolding thread_worker
thread_worker-InSlice n (at_item i) t s u below at e all =
    let own : InSlice n t s.shared_data (at_item i) =
      subst (InSlice n t s.shared_data) at (all t below) in
    elim (Bool-cases (ltb i (end_index n t))) [
      | inr off ↦ absurd (ground (arith, e, off))
      | inl on ↦
          let value = own.doubled i own.from (ground (arith, on)) in
          let moved =
            update-AllInSlice n t s.shared_data s.workers (has_item i (s.shared_data i))
              (record {
                from = own.from;
                upto = own.upto;
                fresh = (ground (arith, on), ground (arith, value));
                doubled = own.doubled;
              })
              (λ k low differ. all k low) in
          subst (AllInSlice n) (cc) moved
    ]
thread_worker-InSlice n (has_item i v) t s u below at e all =
    let own : InSlice n t s.shared_data (has_item i v) =
      subst (InSlice n t s.shared_data) at (all t below) in
    let items = update s.shared_data i (v * 2) in
    let moved =
      update-AllInSlice n t items s.workers (at_item (i + 1))
        (record {
          from = omega (arith, own.from);
          upto = omega (arith, own.fresh.0);
          fresh = tt;
          doubled = λ k lo hi. elim (ℕ_discrete i k) [
            | yes same ↦ ground (arith, same, own.fresh.1)
            | no differ ↦
                let kept = update_ne s.shared_data i k (v * 2) differ in
                ground (arith, kept, own.doubled k lo hi, differ)
          ];
        })
        (λ j low differ. record {
          from = (all j low).from;
          upto = (all j low).upto;
          fresh = (all j low).fresh;
          doubled = λ k lo hi.
              update_ne s.shared_data i k (v * 2)
                (slices_apart n t j i k below low differ own.from own.fresh.0 lo hi)
              ∙ (all j low).doubled k lo hi;
        }) in
    subst (AllInSlice n) (cc) moved

thread_initialize-InSlice : (n : ℕ) → AllInSlice n (thread_initialize n)
unfolding thread_initialize
thread_initialize-InSlice n t low = record {
  from = omega arith;
  upto = start_index-end_index n (omega arith) t low;
  fresh = tt;
  doubled = λ k lo hi. ground arith;
}

Worked-InSlice : (n : ℕ) {s : SharedWork} → Worked n (thread_initialize n) s → AllInSlice n s
Worked-InSlice n here = thread_initialize-InSlice n
Worked-InSlice n {s} (next {u} r (step t below e)) =
    thread_worker-InSlice n (u.workers t) t u s below refl e (Worked-InSlice n r)

abbrev is_done : ℕ → ℕ → Worker → Bool
is_done n t (at_item i) = not (ltb i (end_index n t))
is_done n t (has_item i v) = false

thread_worker-some :
    (n : ℕ) (w : Worker) (t : ℕ) (s : SharedWork)
    → is_done n t w ≡ false
    → (u : SharedWork) × (thread_worker n w t s ≡ some u)
unfolding thread_worker
thread_worker-some n (at_item i) t s on =
    let more : ltb i (end_index n t) ≡ true = ground (arith, on) in
    (record s { workers = update s.workers t (has_item i (s.shared_data i)) }, rw more refl)
thread_worker-some n (has_item i v) t s on = (_, refl)

done-reached : (n t : ℕ) (w : Worker) → is_done n t w ≡ true → end_index n t ≤ reached w
done-reached n t (at_item i) h = ground (arith, h)
done-reached n t (has_item i v) h = cc

-- However the threads are interleaved, at every moment each of the 1000 items has its first value or
-- twice that; and either all have been doubled, or some thread can still step. No mutex is needed, since
-- no two threads touch the same item.
pub Worked-doubled :
    (n : ℕ) {s : SharedWork}
    → 0 < n
    → Worked n (thread_initialize n) s
    → ((k : ℕ) → k < num_items → (s.shared_data k ≡ k) ⊎ (s.shared_data k ≡ k * 2))
      × (((k : ℕ) → k < num_items → s.shared_data k ≡ k * 2)
          ⊎ ((t : ℕ) × (t < n) × ((u : SharedWork) × (thread_worker n (s.workers t) t s ≡ some u))))
Worked-doubled n {s} some_ r =
    let all = Worked-InSlice n r in
    let busy = λ (t : ℕ). not (is_done n t (s.workers t)) in
    (
      λ k low.
          let (t, below, from, to) = owner n some_ k low in
          let value = (all t below).doubled k from to in
          elim (Bool-cases (ltb k (reached (s.workers t)))) [
            | inl past ↦ inr (ground (arith, value, past))
            | inr before ↦ inl (ground (arith, value, before))
          ],
      elim (Option-cases (find_range n 0 busy)) [
        | inr (t, found) ↦
            let (_, below, on) = find_range-some n 0 busy t found in
            inr (t, omega arith, thread_worker-some n (s.workers t) t s (ground (arith, on)))
        | inl no_one ↦ inl (λ k low.
            let (t, below, from, to) = owner n some_ k low in
            let off = find_range-none n 0 busy t no_one (omega arith) (omega arith) in
            let ended = done-reached n t (s.workers t) (ground (arith, off)) in
            ground (arith, (all t below).doubled k from to, ended, to))
      ],
    )
