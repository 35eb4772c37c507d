-- ===== src/Deadlock/Banker/Request.antt =====
-- `requestResources` of Banker_algorithm.c: what a grant and a denial leave behind.
use mathlib.Core.Path.{subst₂}
use os_exploring.Common.{
  ℕ, ◌<◌, ◌≡◌, ◌↔◌, refl, inl, inr, Bool, true, false, ◌&&◌, arith, some, some_pair, Bool-cases, ℤ,
  ◌≤ℤ◌, leb_ℤ, all_range_sound, all_range_complete,
}
use os_exploring.Deadlock.Banker.{
  BankerSystem, take_request, give_back, decide_request, request_fits, is_safe, request_resources,
}
use os_exploring.Deadlock.Banker.Spec.{IsSafeSequence, IsSafeStep}
use os_exploring.Deadlock.Banker.Safety.{
  NonNegative, is_safe-total, is_safe_sound, is_safe_complete, is_safe-Outcome,
}
use os_exploring.Deadlock.Banker.Moves.{
  Moved, grow, shrink, take_request-Moved, SameBooks, give_back-take_request,
}

pub request_fits_iff :
    (bs : BankerSystem) (p : ℕ) (request : ℕ → ℤ)
    → (request_fits bs p request ≡ true)
      ↔ ((j : ℕ) → j < bs.resources → (request j ≤ℤ bs.need p j) × (request j ≤ℤ bs.available j))
unfolding request_fits
request_fits_iff bs p request = (
  λ h j lt. ground (
    arith,
    all_range_sound bs.resources 0
        (λ i. leb_ℤ (request i) (bs.need p i) && leb_ℤ (request i) (bs.available i)) j h
        (omega arith) (omega arith),
  ),
  λ h. all_range_complete bs.resources 0 _ (λ j _ lt. ground (arith, h j (omega arith))),
)

-- The three ways in which a request is answered.
data Answer (bs : BankerSystem) (p : ℕ) (request : ℕ → ℤ) : Bool → BankerSystem → Type 0 where
  refused : request_fits bs p request ≡ false → Answer bs p request false bs
  granted :
      (t : BankerSystem)
      → request_fits bs p request ≡ true
      → is_safe (take_request bs p request) ≡ some (true, t)
      → Answer bs p request true t
  denied :
      (t : BankerSystem)
      → request_fits bs p request ≡ true
      → is_safe (take_request bs p request) ≡ some (false, t)
      → Answer bs p request false (give_back t p request)

decide_request-Answer :
    (bs : BankerSystem) (p : ℕ) (request : ℕ → ℤ) (safe : Bool) (t : BankerSystem)
    → request_fits bs p request ≡ true
    → is_safe (take_request bs p request) ≡ some (safe, t)
    → Answer bs p request
        (decide_request p request (safe, t)).0
        (decide_request p request (safe, t)).1
unfolding decide_request
decide_request-Answer bs p request true t fit e = granted t fit e
decide_request-Answer bs p request false t fit e = denied t fit e

request_resources-Answer :
    (bs : BankerSystem) (p : ℕ) (request : ℕ → ℤ) (answer : Bool) (bs' : BankerSystem)
    → request_resources bs p request ≡ some (answer, bs')
    → Answer bs p request answer bs'
unfolding request_resources
request_resources-Answer bs p request answer bs' e = elim (Bool-cases (request_fits bs p request)) [
  | inr unfit ↦
      let eqs : (false ≡ answer) × (bs ≡ bs') = some_pair (rw (unfit, request_resources) at e) in
      subst₂ (Answer bs p request) eqs.0 eqs.1 (refused unfit)
  | inl fit ↦
      let (r, found) = is_safe-total (take_request bs p request) in
      let eqs : ((decide_request p request r).0 ≡ answer) × ((decide_request p request r).1 ≡ bs') =
        some_pair (rw (fit, found, request_resources) at e) in
      subst₂ (Answer bs p request) eqs.0 eqs.1
        (decide_request-Answer bs p request r.0 r.1 fit found)
]

-- `requestResources` returns, whatever the state and the request.
pub request_resources-total :
    (bs : BankerSystem) (p : ℕ) (request : ℕ → ℤ)
    → (r : Bool × BankerSystem) × (request_resources bs p request ≡ some r)
unfolding request_resources
request_resources-total bs p request = elim (Bool-cases (request_fits bs p request)) [
  | inr unfit ↦ ((false, bs), rw (unfit, request_resources))
  | inl fit ↦
      let (r, found) = is_safe-total (take_request bs p request) in
      (decide_request p request r, rw (fit, found, request_resources))
]

-- A denied request leaves every cell of the books as it was.
pub request_resources-denied :
    (bs : BankerSystem) (p : ℕ) (request : ℕ → ℤ) (bs' : BankerSystem)
    → request_resources bs p request ≡ some (false, bs')
    → SameBooks bs bs'
request_resources-denied bs p request bs' e =
    from_answer false bs' refl (request_resources-Answer bs p request false bs' e)
  where
    from_answer :
        (answer : Bool) (t : BankerSystem)
        → answer ≡ false
        → Answer bs p request answer t
        → SameBooks bs t
    from_answer answer t eq (refused unfit) = record {
      processes = refl;
      resources = refl;
      max = refl;
      available = λ j. refl;
      allocation = λ i j. refl;
      need = λ i j. refl;
    }
    from_answer answer t eq (granted t' fit safe) = absurd (cc eq)
    from_answer answer t eq (denied t' fit unsafe) =
        let (scan, _, same) = is_safe-Outcome (take_request bs p request) false t' unsafe in
        rw same (give_back-take_request bs p request scan.safe_sequence scan.finished)

-- A granted request is within need and supply, moves exactly the units asked for, and leaves a
-- safe sequence behind.
pub request_resources-granted :
    (bs : BankerSystem) (p : ℕ) (request : ℕ → ℤ) (bs' : BankerSystem)
    → request_resources bs p request ≡ some (true, bs')
    → (request_fits bs p request ≡ true)
      × Moved bs p bs.resources 0 (grow request) (shrink request) bs'
      × IsSafeSequence bs' bs'.safe_sequence
request_resources-granted bs p request bs' e =
    from_answer true bs' refl (request_resources-Answer bs p request true bs' e)
  where
    from_answer :
        (answer : Bool) (t : BankerSystem)
        → answer ≡ true
        → Answer bs p request answer t
        → (request_fits bs p request ≡ true)
          × Moved bs p bs.resources 0 (grow request) (shrink request) t
          × IsSafeSequence t t.safe_sequence
    from_answer answer t eq (refused unfit) = absurd (cc eq)
    from_answer answer t eq (denied t' fit unsafe) = absurd (cc eq)
    from_answer answer t eq (granted t' fit safe) =
        let (scan, _, same) = is_safe-Outcome (take_request bs p request) true t' safe in
        let m = take_request-Moved bs p request in
        let sound = is_safe_sound (take_request bs p request) t' safe in
        (
          fit,
          rw same (record {
            processes = m.processes;
            resources = m.resources;
            max = m.max;
            available = m.available;
            allocation = m.allocation;
            need = m.need;
          }),
          rw same (λ k lt.
              let st : IsSafeStep (take_request bs p request) scan.safe_sequence k =
                (rw same at sound) k lt in
              record { process = st.process; once = st.once; covered = st.covered }),
        )

-- A request within need and supply is granted if the state that it leads to has a safe sequence
-- and no negative allocation.
pub request_resources_complete :
    (bs : BankerSystem) (p : ℕ) (request : ℕ → ℤ) (seq : ℕ → ℕ)
    → ((j : ℕ) → j < bs.resources → (request j ≤ℤ bs.need p j) × (request j ≤ℤ bs.available j))
    → NonNegative (take_request bs p request)
    → IsSafeSequence (take_request bs p request) seq
    → (bs' : BankerSystem) × (request_resources bs p request ≡ some (true, bs'))
unfolding request_resources decide_request
request_resources_complete bs p request seq fits nonneg safe =
    let (bs', e) = is_safe_complete (take_request bs p request) seq nonneg safe in
    (bs', rw ((request_fits_iff bs p request).1 fits, e, request_resources))
