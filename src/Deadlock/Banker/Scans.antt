-- ===== src/Deadlock/Banker/Scans.antt =====
-- The invariant of the loops of `isSafe`: `work` is the pool of the finished processes, and the
-- sequence so far is made of safe steps.
use os_exploring.Common.{
  ℕ, ◌+◌, ◌≤◌, ◌<◌, ◌≡◌, refl, sym, inl, inr, true, false, not, ◌&&◌, arith, Bool-cases, ℤ, pos,
  ◌+ℤ◌, ◌≤ℤ◌, +ℤ_zero, leb_ℤ, leb_ℤ-iff, update, for_range, for_range_inv, all_range_sound,
  write_range_lem, count_range, count_range-update, count_range-none, dec_lt, subst,
}
use os_exploring.Deadlock.Banker.{
  BankerSystem, Scan, can_allocate_resources, complete, visit, pass, start_scan,
}
use os_exploring.Deadlock.Banker.Spec.{
  pool, before, IsSafeStep, held-none, pool-update, pool-ext, before-update,
}

pub record ScanInv (bs : BankerSystem) (s : Scan) : Type 0 where
  pub work : (j : ℕ) → j < bs.resources → s.work j ≡ pool bs s.finished j
  pub marks : (i : ℕ) → i < bs.processes → s.finished i ≡ before s.safe_sequence s.completed i
  pub steps : (k : ℕ) → k < s.completed → IsSafeStep bs s.safe_sequence k
  pub number : s.completed ≡ count_range bs.processes s.finished

pub can_allocate_resources-sound :
    (bs : BankerSystem) (p : ℕ) (work : ℕ → ℤ)
    → can_allocate_resources bs p work ≡ true
    → (j : ℕ) → j < bs.resources
    → bs.need p j ≤ℤ work j
unfolding can_allocate_resources
can_allocate_resources-sound bs p work h j lt = (leb_ℤ-iff (bs.need p j) (work j)).0 (
    all_range_sound bs.resources 0 (λ i. leb_ℤ (bs.need p i) (work i)) j h (omega arith)
      (omega arith))

-- The step at `k` does not depend on the sequence past `k`.
IsSafeStep-update :
    (bs : BankerSystem) (seq : ℕ → ℕ) (k m p : ℕ)
    → k < m
    → IsSafeStep bs seq k
    → IsSafeStep bs (update seq m p) k
IsSafeStep-update bs seq k m p lt st = record {
  process = ground (arith, st.process);
  once = ground (arith, st.once, before-update seq k m p (update seq m p k));
  covered = λ j jlt. ground (
    arith,
    st.covered j jlt,
    pool-ext bs (before (update seq m p) k) (before seq k) j
        (λ i _. before-update seq k m p i (omega arith)),
  );
}

module _ (bs : BankerSystem) (i : ℕ) (s : Scan) (inv : ScanInv bs s) (lt : i < bs.processes)
    (fresh : s.finished i ≡ false) where
  complete-work :
      (j : ℕ) → j < bs.resources → (complete bs i s).work j ≡ pool bs (complete bs i s).finished j
  unfolding complete
  complete-work j jlt = ground (
    arith,
    write_range_lem (λ j w. w +ℤ bs.allocation i j) bs.resources 0 s.work j,
    inv.work j jlt,
    pool-update bs s.finished i j lt fresh,
  )

  complete-marks :
      (k : ℕ)
      → k < bs.processes
      → (complete bs i s).finished k ≡ before (complete bs i s).safe_sequence (s.completed + 1) k
  unfolding complete
  complete-marks k klt =
      ground (arith, inv.marks k klt, before-update s.safe_sequence s.completed s.completed i k)

  complete-steps :
      can_allocate_resources bs i s.work ≡ true
      → (k : ℕ) → k < s.completed + 1
      → IsSafeStep bs (complete bs i s).safe_sequence k
  unfolding complete
  complete-steps can k klt = elim (dec_lt k s.completed) [
    | yes old ↦ IsSafeStep-update bs s.safe_sequence k s.completed i old (inv.steps k old)
    | no new ↦
        let e : s.completed ≡ k = omega arith in
        subst (IsSafeStep bs (update s.safe_sequence s.completed i)) e (record {
          process = ground arith;
          once =
              ground
                (arith, inv.marks i lt, before-update s.safe_sequence s.completed s.completed i i);
          covered = λ j jlt. ground (
            arith,
            can_allocate_resources-sound bs i s.work can j jlt,
            inv.work j jlt,
            pool-ext bs s.finished (before (update s.safe_sequence s.completed i) s.completed) j
                (λ k klt. ground (
                  arith,
                  inv.marks k klt,
                  before-update s.safe_sequence s.completed s.completed i k,
                )),
          );
        })
  ]

  complete-ScanInv : can_allocate_resources bs i s.work ≡ true → ScanInv bs (complete bs i s)
  unfolding complete
  complete-ScanInv can = record {
    work = complete-work;
    marks = complete-marks;
    steps = complete-steps can;
    number = omega (arith, inv.number, count_range-update bs.processes s.finished i lt fresh);
  }

visit-ScanInv :
    (bs : BankerSystem) (i : ℕ) (s : Scan)
    → i < bs.processes
    → ScanInv bs s
    → ScanInv bs (visit bs i s)
unfolding visit
visit-ScanInv bs i s lt inv =
    elim (Bool-cases (not (s.finished i) && can_allocate_resources bs i s.work)) [
      | inl go ↦ rw go (complete-ScanInv bs i s inv lt (ground arith) (ground arith))
      | inr stay ↦ rw stay inv
    ]

-- A round keeps the invariant.
pub pass-ScanInv : (bs : BankerSystem) (s : Scan) → ScanInv bs s → ScanInv bs (pass bs s)
unfolding pass
pass-ScanInv bs s inv =
    for_range_inv (λ _ t. ScanInv bs t) (visit bs) bs.processes
      (λ i t lt h. visit-ScanInv bs i t lt h) bs.processes 0 (record s { found = false })
      (omega arith)
      (record { work = inv.work; marks = inv.marks; steps = inv.steps; number = inv.number })

pub start_scan-ScanInv : (bs : BankerSystem) → ScanInv bs (start_scan bs)
unfolding start_scan
start_scan-ScanInv bs = record {
  work = λ j lt. ground (
    arith,
    write_range_lem (λ i _. bs.available i) bs.resources 0 (λ _. pos 0) j,
    held-none bs.processes (λ i. bs.allocation i j) (start_scan bs).finished none_yet,
    +ℤ_zero (bs.available j),
  );
  marks = λ i lt. none_yet i lt;
  steps = λ k lt. absurd (omega arith);
  number = sym (count_range-none bs.processes _ none_yet);
}
  where
    none_yet : (i : ℕ) → i < bs.processes → (start_scan bs).finished i ≡ false
    none_yet i lt = ground (arith, write_range_lem (λ _ _. false) bs.processes 0 bs.finished i)

-- What a round did: nothing found means that it left the state alone, and that no process could
-- have completed; otherwise it completed a process.
pub record PassResult (bs : BankerSystem) (s t : Scan) : Type 0 where
  pub grown : t.found ≡ true → s.completed < t.completed
  pub same : t.found ≡ false → t ≡ record s { found = false }
  pub stuck :
      t.found ≡ false
      → (i : ℕ) → i < bs.processes
      → (not (s.finished i) && can_allocate_resources bs i s.work) ≡ false

record Progress (bs : BankerSystem) (s : Scan) (i : ℕ) (t : Scan) : Type 0 where
  kept : s.completed ≤ t.completed
  grown : t.found ≡ true → s.completed < t.completed
  same : t.found ≡ false → t ≡ record s { found = false }
  stuck :
      t.found ≡ false
      → (k : ℕ) → k < i
      → (not (s.finished k) && can_allocate_resources bs k s.work) ≡ false

visit-Progress :
    (bs : BankerSystem) (s : Scan) (i : ℕ) (t : Scan)
    → Progress bs s i t
    → Progress bs s (i + 1) (visit bs i t)
unfolding visit complete
visit-Progress bs s i t p =
    elim (Bool-cases (not (t.finished i) && can_allocate_resources bs i t.work)) [
      | inl go ↦ rw go (record {
        kept = omega (arith, p.kept);
        grown = λ _. omega (arith, p.kept);
        same = λ e. cc;
        stuck = λ e. cc;
      })
      | inr stay ↦ rw stay (record {
        kept = p.kept;
        grown = p.grown;
        same = p.same;
        stuck = λ e k lt. elim (dec_lt k i) [
          | yes old ↦ p.stuck e k old
          | no new ↦
              let at : k ≡ i = omega arith in
              let was : t ≡ record s { found = false } = p.same e in
              rw at (
                subst
                  (λ (u : Scan). (not (u.finished i) && can_allocate_resources bs i u.work) ≡ false)
                  was stay)
        ];
      })
    ]

pub pass_lem : (bs : BankerSystem) (s : Scan) → PassResult bs s (pass bs s)
unfolding pass
pass_lem bs s =
    let p : Progress bs s bs.processes
        (for_range bs.processes 0 (visit bs) (record s { found = false })) =
      for_range_inv (Progress bs s) (visit bs) bs.processes (λ i t _ h. visit-Progress bs s i t h)
        bs.processes 0 (record s { found = false }) (omega arith)
        (record {
          kept = omega arith;
          grown = λ e. cc;
          same = λ _. refl;
          stuck = λ _ k lt. absurd (omega arith);
        }) in
    record { grown = p.grown; same = p.same; stuck = p.stuck }
