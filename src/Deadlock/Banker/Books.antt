-- ===== src/Deadlock/Banker/Books.antt =====
-- The books that `requestResources` of Banker_algorithm.c keeps: no unit is lost or made, no
-- process holds more than its claim, and nothing is handed out that is not there.
use os_exploring.Common.{
  ℕ, zero, suc, ◌<◌, ◌≡◌, ◌≢◌, refl, sym, subst, Bool-cases, inl, inr, Bool, true, false, arith,
  some, ℤ, pos, ◌+ℤ◌, ◌-ℤ◌, ◌≤ℤ◌, int_laws, ◌==◌, ◌&&◌, in_range, dec_lt, lt→in_range,
  +ℤ_right_comm, -ℤ_+ℤ_move, +ℤ_-ℤ_move, ◌∙◌,
}
use os_exploring.Deadlock.Banker.{BankerSystem, request_fits, request_resources}
use os_exploring.Deadlock.Banker.Spec.{held, pool}
use os_exploring.Deadlock.Banker.Moves.{Moved, grow, shrink, SameBooks}
use os_exploring.Deadlock.Banker.Request.{
  request_fits_iff, request_resources-denied, request_resources-granted,
}

abbrev pub everyone : ℕ → Bool
everyone _ = true

-- `total j` is the number of units of resource `j` that there are.
pub record IsConsistent (total : ℕ → ℤ) (bs : BankerSystem) : Type 0 where
  pub conserved : (j : ℕ) → j < bs.resources → pool bs everyone j ≡ total j
  pub balanced :
      (i j : ℕ)
      → i < bs.processes
      → j < bs.resources
      → bs.allocation i j +ℤ bs.need i j ≡ bs.max i j
  pub within_claim : (i j : ℕ) → i < bs.processes → j < bs.resources → pos 0 ≤ℤ bs.need i j
  pub no_debt : (j : ℕ) → j < bs.resources → pos 0 ≤ℤ bs.available j

held-cells :
    (n : ℕ) (f g : ℕ → ℤ) → ((i : ℕ) → i < n → f i ≡ g i) → held n f everyone ≡ held n g everyone
unfolding held
held-cells zero f g h = refl
held-cells (suc n) f g h = rw (h n (omega arith), held-cells n f g (λ i a. h i (omega arith)))

held-move :
    (n : ℕ) (f g : ℕ → ℤ) (p : ℕ) (d : ℤ)
    → p < n
    → g p ≡ f p +ℤ d
    → ((i : ℕ) → i ≢ p → g i ≡ f i)
    → held n g everyone ≡ held n f everyone +ℤ d
unfolding held
held-move zero f g p d h at off = absurd (omega arith)
held-move (suc n) f g p d h at off = elim (dec_lt p n) [
  | yes below ↦
      rw (held-move n f g p d below at off, off n (omega arith))
        (+ℤ_right_comm (held n f everyone) d (f n))
  | no last ↦
      let e : n ≡ p = omega arith in
      let same = held-cells n g f (λ i lt. off i (omega arith)) in
      rw (same, subst (λ k. g k ≡ f k +ℤ d) (sym e) at) (omega int_laws)
]

module _ (total : ℕ → ℤ) (bs t : BankerSystem) (p : ℕ) (request : ℕ → ℤ) (lt : p < bs.processes)
    (c : IsConsistent total bs) (fit : request_fits bs p request ≡ true)
    (m : Moved bs p bs.resources 0 (grow request) (shrink request) t) where
  granted-conserved : (j : ℕ) → j < t.resources → pool t everyone j ≡ total j
  granted-conserved j jlt =
      let jlt' : j < bs.resources = omega (arith, m.resources) in
      let moved : held bs.processes (λ i. t.allocation i j) everyone
          ≡ held bs.processes (λ i. bs.allocation i j) everyone +ℤ request j =
        held-move bs.processes (λ i. bs.allocation i j) (λ i. t.allocation i j) p (request j) lt
          (ground (arith, m.allocation p j)) (λ i ne. ground (arith, m.allocation i j)) in
      let paid : t.available j ≡ bs.available j -ℤ request j = ground (arith, m.available j) in
      rw (m.processes, moved, paid) (-ℤ_+ℤ_move _ _ _ ∙ c.conserved j jlt')

  granted-balanced :
      (i j : ℕ) → i < t.processes → j < t.resources → t.allocation i j +ℤ t.need i j ≡ t.max i j
  granted-balanced i j ilt jlt =
      let old = c.balanced i j (omega (arith, m.processes)) (omega (arith, m.resources)) in
      elim (Bool-cases ((p == i) && in_range 0 bs.resources j)) [
        | inl hit ↦ rw (m.allocation i j, m.need i j, m.max, hit) (+ℤ_-ℤ_move _ _ _ ∙ old)
        | inr miss ↦ rw (m.allocation i j, m.need i j, m.max, miss) old
      ]

  granted-within_claim : (i j : ℕ) → i < t.processes → j < t.resources → pos 0 ≤ℤ t.need i j
  granted-within_claim i j ilt jlt =
      let jlt' : j < bs.resources = omega (arith, m.resources) in
      let old = c.within_claim i j (omega (arith, m.processes)) jlt' in
      let asked = ((request_fits_iff bs p request).0 fit j jlt').0 in
      elim (Bool-cases ((p == i) && in_range 0 bs.resources j)) [
        | inl hit ↦
            let e : p ≡ i = ground arith in
            rw (m.need i j, hit) (omega (int_laws, subst (λ k. request j ≤ℤ bs.need k j) e asked))
        | inr miss ↦ rw (m.need i j, miss) old
      ]

  granted-no_debt : (j : ℕ) → j < t.resources → pos 0 ≤ℤ t.available j
  granted-no_debt j jlt =
      let jlt' : j < bs.resources = omega (arith, m.resources) in
      let asked = ((request_fits_iff bs p request).0 fit j jlt').1 in
      rw (m.available j, lt→in_range bs.resources j jlt') (omega (int_laws, asked))

  granted-IsConsistent : IsConsistent total t
  granted-IsConsistent = record {
    conserved = granted-conserved;
    balanced = granted-balanced;
    within_claim = granted-within_claim;
    no_debt = granted-no_debt;
  }

SameBooks-IsConsistent :
    (total : ℕ → ℤ) (bs t : BankerSystem)
    → IsConsistent total bs
    → SameBooks bs t
    → IsConsistent total t
SameBooks-IsConsistent total bs t c same = record {
  conserved = λ j lt.
      rw
        (
          same.processes,
          same.available j,
          held-cells bs.processes (λ i. t.allocation i j) (λ i. bs.allocation i j)
              (λ i _. same.allocation i j),
        )
        (c.conserved j (omega (arith, same.resources)));
  balanced = λ i j ilt jlt.
      rw (same.allocation i j, same.need i j, same.max)
        (c.balanced i j (omega (arith, same.processes)) (omega (arith, same.resources)));
  within_claim = λ i j ilt jlt.
      rw (same.need i j)
        (c.within_claim i j (omega (arith, same.processes)) (omega (arith, same.resources)));
  no_debt = λ j lt. rw (same.available j) (c.no_debt j (omega (arith, same.resources)));
}

-- Granted or not, a request by one of the processes keeps the books: of each resource there are as
-- many units as before, allocation and need still add up to the claim, no need and no supply is
-- negative.
pub request_resources-IsConsistent :
    (total : ℕ → ℤ) (bs : BankerSystem) (p : ℕ) (request : ℕ → ℤ) (answer : Bool)
    (bs' : BankerSystem)
    → p < bs.processes
    → IsConsistent total bs
    → request_resources bs p request ≡ some (answer, bs')
    → IsConsistent total bs'
request_resources-IsConsistent total bs p request true bs' lt c e =
    let (fit, moved, _) = request_resources-granted bs p request bs' e in
    granted-IsConsistent total bs bs' p request lt c fit moved
request_resources-IsConsistent total bs p request false bs' lt c e =
    SameBooks-IsConsistent total bs bs' c (request_resources-denied bs p request bs' e)
