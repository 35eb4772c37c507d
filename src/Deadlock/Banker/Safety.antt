-- ===== src/Deadlock/Banker/Safety.antt =====
-- `isSafe` of Banker_algorithm.c ends, and decides whether the state is safe.
use os_exploring.Common.{
  ℕ, zero, suc, ◌+◌, ◌-◌, ◌≤◌, ◌<◌, ◌≡◌, refl, sym, ◌∙◌, inl, inr, Bool, true, false, not, ◌&&◌,
  arith, some, some_pair, Option-cases, Bool-cases, ℤ, pos, ◌≤ℤ◌, int_laws, leb_ℤ, leb_ℤ-iff, ltb,
  ltb→lt, all_range_complete, count_range, count_range-update, count_range-none, count_range_mono,
}
use mathlib.Core.Path.{subst₂}
use os_exploring.Deadlock.Banker.{
  BankerSystem, Scan, can_allocate_resources, pass, search_safe, start_scan, is_safe, with_scan,
}
use os_exploring.Deadlock.Banker.Spec.{held-mono, before, IsSafeSequence}
use os_exploring.Deadlock.Banker.Scans.{ScanInv, pass_lem, pass-ScanInv, start_scan-ScanInv}

search_safe-continue :
    (bs : BankerSystem) (fuel : ℕ) (s : Scan)
    → ltb s.completed bs.processes ≡ true
    → (pass bs s).found ≡ true
    → search_safe bs (suc fuel) s ≡ search_safe bs fuel (pass bs s)
unfolding search_safe
search_safe-continue bs fuel s more some_ = ground arith

search_safe-stop :
    (bs : BankerSystem) (fuel : ℕ) (s : Scan)
    → ltb s.completed bs.processes ≡ true
    → (pass bs s).found ≡ false
    → search_safe bs (suc fuel) s ≡ some (false, pass bs s)
unfolding search_safe
search_safe-stop bs fuel s more none_ = ground arith

search_safe-total :
    (bs : BankerSystem) (fuel : ℕ) (s : Scan)
    → bs.processes - s.completed < fuel
    → (r : Bool × Scan) × (search_safe bs fuel s ≡ some r)
unfolding search_safe
search_safe-total bs zero s h = absurd (omega arith)
search_safe-total bs (suc fuel) s h = elim (Bool-cases (ltb s.completed bs.processes)) [
  | inr done ↦ ((true, s), rw done)
  | inl more ↦ elim (Bool-cases (pass bs s).found) [
    | inr none_ ↦ ((false, pass bs s), search_safe-stop bs fuel s more none_)
    | inl some_ ↦
        let (r, e) =
          search_safe-total bs fuel (pass bs s)
            (omega (arith, (pass_lem bs s).grown some_, ltb→lt s.completed bs.processes more)) in
        (r, search_safe-continue bs fuel s more some_ ∙ e)
  ]
]

-- `isSafe` returns, whatever the state.
pub is_safe-total : (bs : BankerSystem) → (r : Bool × BankerSystem) × (is_safe bs ≡ some r)
unfolding is_safe with_scan
is_safe-total bs =
    let (r, e) = search_safe-total bs (bs.processes + 1) (start_scan bs) (omega arith) in
    (with_scan bs r, rw (e, is_safe))

-- No unfinished process can complete.
abbrev Stuck : BankerSystem → Scan → Type 0
Stuck bs s =
    (i : ℕ) → i < bs.processes → (not (s.finished i) && can_allocate_resources bs i s.work) ≡ false

pub record Outcome (bs : BankerSystem) (safe : Bool) (t : Scan) : Type 0 where
  pub inv : ScanInv bs t
  pub all_done : safe ≡ true → bs.processes ≤ t.completed
  pub some_left : safe ≡ false → t.completed < bs.processes
  pub stuck : safe ≡ false → Stuck bs t

search_safe-Outcome :
    (bs : BankerSystem) (fuel : ℕ) (s : Scan) (safe : Bool) (t : Scan)
    → ScanInv bs s
    → search_safe bs fuel s ≡ some (safe, t)
    → Outcome bs safe t
unfolding search_safe
search_safe-Outcome bs zero s safe t inv e = cc
search_safe-Outcome bs (suc fuel) s safe t inv e =
    elim (Bool-cases (ltb s.completed bs.processes)) [
      | inr done ↦
          let eqs : (true ≡ safe) × (s ≡ t) = some_pair (rw done at e) in
          subst₂ (Outcome bs) eqs.0 eqs.1 (record {
            inv = inv;
            all_done = λ _. ground arith;
            some_left = λ f. cc;
            stuck = λ f. cc;
          })
      | inl more ↦ elim (Bool-cases (pass bs s).found) [
        | inr none_ ↦
            let eqs : (false ≡ safe) × (pass bs s ≡ t) =
              some_pair (sym (search_safe-stop bs fuel s more none_) ∙ e) in
            let here : pass bs s ≡ record s { found = false } = (pass_lem bs s).same none_ in
            subst₂ (Outcome bs) eqs.0 (sym here ∙ eqs.1) (record {
              inv = record {
                work = inv.work;
                marks = inv.marks;
                steps = inv.steps;
                number = inv.number;
              };
              all_done = λ f. cc;
              some_left = λ _. ground arith;
              stuck = λ _. (pass_lem bs s).stuck none_;
            })
        | inl some_ ↦
            search_safe-Outcome bs fuel (pass bs s) safe t (pass-ScanInv bs s inv)
              (sym (search_safe-continue bs fuel s more some_) ∙ e)
      ]
    ]

-- What `isSafe` reports is the outcome of the search from its start.
pub is_safe-Outcome :
    (bs : BankerSystem) (safe : Bool) (bs' : BankerSystem)
    → is_safe bs ≡ some (safe, bs')
    → (t : Scan) × Outcome bs safe t
      × (bs' ≡ record bs { safe_sequence = t.safe_sequence; finished = t.finished })
unfolding is_safe with_scan
is_safe-Outcome bs safe bs' e =
    elim (Option-cases (search_safe bs (bs.processes + 1) (start_scan bs))) [
      | inl out ↦ absurd (cc (rw (out, is_safe) at e))
      | inr (r, found) ↦
          let eqs : (r.0 ≡ safe)
              × (record bs { safe_sequence = r.1.safe_sequence; finished = r.1.finished } ≡ bs') =
            some_pair (rw (found, is_safe) at e) in
          (
            r.1,
            search_safe-Outcome bs (bs.processes + 1) (start_scan bs) safe r.1
                (start_scan-ScanInv bs) (rw (← eqs.0) found),
            sym eqs.1,
          )
    ]

-- If `isSafe` answers yes, the sequence that it leaves behind is a safe sequence.
pub is_safe_sound :
    (bs bs' : BankerSystem) → is_safe bs ≡ some (true, bs') → IsSafeSequence bs bs'.safe_sequence
is_safe_sound bs bs' e =
    let (t, out, eq) = is_safe-Outcome bs true bs' e in
    rw eq (λ k lt. out.inv.steps k (omega (arith, out.all_done refl)))

-- No process gives back a negative number of units.
abbrev pub NonNegative : BankerSystem → Type 0
NonNegative bs = (i j : ℕ) → i < bs.processes → j < bs.resources → pos 0 ≤ℤ bs.allocation i j

can_allocate_resources_complete :
    (bs : BankerSystem) (p : ℕ) (work : ℕ → ℤ)
    → ((j : ℕ) → j < bs.resources → bs.need p j ≤ℤ work j)
    → can_allocate_resources bs p work ≡ true
unfolding can_allocate_resources
can_allocate_resources_complete bs p work h =
    all_range_complete bs.resources 0 (λ i. leb_ℤ (bs.need p i) (work i))
      (λ k a b. (leb_ℤ-iff (bs.need p k) (work k)).1 (h k (omega arith)))

module _ (bs : BankerSystem) (seq : ℕ → ℕ) (safe : IsSafeSequence bs seq) where
  count-before : (k : ℕ) → k ≤ bs.processes → count_range bs.processes (before seq k) ≡ k
  count-before zero h = count_range-none bs.processes (λ _. false) (λ _ _. refl)
  count-before (suc k) h =
      let st = safe k (omega arith) in
      omega (
        arith,
        count-before k (omega arith),
        count_range-update bs.processes (before seq k) (seq k) st.process st.once,
      )

  module _ (nonneg : NonNegative bs) (t : Scan) (inv : ScanInv bs t) (stuck : Stuck bs t) where
    -- In a stuck state every process of a safe sequence is finished already.
    before-finished :
        (k : ℕ) → k ≤ bs.processes → (i : ℕ) → before seq k i ≡ true → t.finished i ≡ true
    before-finished zero h i e = cc
    before-finished (suc k) h i e =
        let st = safe k (omega arith) in
        let earlier = before-finished k (omega arith) in
        let enough : (j : ℕ) → j < bs.resources → bs.need (seq k) j ≤ℤ t.work j = λ j lt.
          rw (inv.work j lt) (
            omega (
              int_laws,
              st.covered j lt,
              held-mono bs.processes (λ m. bs.allocation m j) (before seq k) t.finished
                  (λ m mlt. nonneg m j mlt lt) (λ m _. earlier m),
            )) in
        ground (
          arith,
          stuck (seq k) st.process,
          can_allocate_resources_complete bs (seq k) t.work enough,
          earlier i,
        )

    stuck_complete : bs.processes ≤ t.completed
    stuck_complete = omega (
      arith,
      inv.number,
      count-before bs.processes (omega arith),
      count_range_mono bs.processes (before seq bs.processes) t.finished
          (λ i _. before-finished bs.processes (omega arith) i),
    )

-- If some safe sequence exists, and no allocation is negative, then `isSafe` answers yes.
pub is_safe_complete :
    (bs : BankerSystem) (seq : ℕ → ℕ)
    → NonNegative bs
    → IsSafeSequence bs seq
    → (bs' : BankerSystem) × (is_safe bs ≡ some (true, bs'))
is_safe_complete bs seq nonneg safe =
    let ((answer, bs'), e) = is_safe-total bs in decided answer bs' e
  where
    decided :
        (answer : Bool) (bs' : BankerSystem)
        → is_safe bs ≡ some (answer, bs')
        → (bs' : BankerSystem) × (is_safe bs ≡ some (true, bs'))
    decided true bs' e = (bs', e)
    decided false bs' e =
        let (t, out, _) = is_safe-Outcome bs false bs' e in
        absurd (
          omega (
            arith,
            out.some_left refl,
            stuck_complete bs seq safe nonneg t out.inv (out.stuck refl),
          ))
