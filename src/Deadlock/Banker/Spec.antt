-- ===== src/Deadlock/Banker/Spec.antt =====
-- What a safe state is, said without the algorithm: the processes can be put in an order in which
-- each finds its remaining need in what is available and what those before it give back.
use os_exploring.Common.{
  ℕ, zero, suc, ◌≤◌, ◌<◌, ◌≡◌, refl, inl, inr, Bool, true, false, arith, Bool-cases, ℤ, pos, ◌+ℤ◌,
  ◌≤ℤ◌, int_laws, +ℤ_zero, +ℤ_right_comm, if◌then◌else◌, update, dec_lt,
}
use os_exploring.Deadlock.Banker.{BankerSystem}

-- The sum of the cells of the processes in `done`.
unfoldable pub held : ℕ → (ℕ → ℤ) → (ℕ → Bool) → ℤ
held zero cell done = pos 0
held (suc n) cell done = held n cell done +ℤ (if done n then cell n else pos 0)

abbrev pub pool : BankerSystem → (ℕ → Bool) → ℕ → ℤ
pool bs done j = bs.available j +ℤ held bs.processes (λ i. bs.allocation i j) done

-- The processes among the first `k` of a sequence.
abbrev pub before : (ℕ → ℕ) → ℕ → ℕ → Bool
before seq zero = λ _. false
before seq (suc k) = update (before seq k) (seq k) true

pub record IsSafeStep (bs : BankerSystem) (seq : ℕ → ℕ) (k : ℕ) : Type 0 where
  pub process : seq k < bs.processes
  pub once : before seq k (seq k) ≡ false
  pub covered : (j : ℕ) → j < bs.resources → bs.need (seq k) j ≤ℤ pool bs (before seq k) j

-- A sequence of distinct processes, as many as there are.
abbrev pub IsSafeSequence : BankerSystem → (ℕ → ℕ) → Type 0
IsSafeSequence bs seq = (k : ℕ) → k < bs.processes → IsSafeStep bs seq k

pub held-ext :
    (n : ℕ) (cell : ℕ → ℤ) (f g : ℕ → Bool)
    → ((i : ℕ) → i < n → f i ≡ g i)
    → held n cell f ≡ held n cell g
unfolding held
held-ext zero cell f g h = refl
held-ext (suc n) cell f g h = rw (h n (omega arith), held-ext n cell f g (λ i a. h i (omega arith)))

pub held-none :
    (n : ℕ) (cell : ℕ → ℤ) (f : ℕ → Bool) → ((i : ℕ) → i < n → f i ≡ false) → held n cell f ≡ pos 0
unfolding held
held-none zero cell f h = refl
held-none (suc n) cell f h =
    rw (h n (omega arith), held-none n cell f (λ i a. h i (omega arith))) (+ℤ_zero _)

pub held-update :
    (n : ℕ) (cell : ℕ → ℤ) (f : ℕ → Bool) (p : ℕ)
    → p < n
    → f p ≡ false
    → held n cell (update f p true) ≡ held n cell f +ℤ cell p
unfolding held
held-update zero cell f p h e = absurd (omega arith)
held-update (suc n) cell f p h e = elim (dec_lt p n) [
  | yes below ↦ ground (
    arith,
    held-update n cell f p below e,
    +ℤ_right_comm (held n cell f) (cell p) (if f n then cell n else pos 0),
  )
  | no last ↦
      ground
        (arith, held-ext n cell (update f p true) f (λ i a. ground arith), +ℤ_zero (held n cell f))
]

pub held-mono :
    (n : ℕ) (cell : ℕ → ℤ) (f g : ℕ → Bool)
    → ((i : ℕ) → i < n → pos 0 ≤ℤ cell i)
    → ((i : ℕ) → i < n → f i ≡ true → g i ≡ true)
    → held n cell f ≤ℤ held n cell g
unfolding held
held-mono zero cell f g c h = omega arith
held-mono (suc n) cell f g c h =
    let rest : held n cell f ≤ℤ held n cell g =
      held-mono n cell f g (λ i a. c i (omega arith)) (λ i a. h i (omega arith)) in
    elim (Bool-cases (f n)) [
      | inl both ↦ rw (both, h n (omega arith) both) (omega (int_laws, rest))
      | inr less ↦ elim (Bool-cases (g n)) [
        | inl more ↦ rw (less, more) (omega (int_laws, rest, c n (omega arith)))
        | inr none_ ↦ rw (less, none_) (omega (int_laws, rest))
      ]
    ]

-- What process `p` gives back joins the pool.
pub pool-update :
    (bs : BankerSystem) (done : ℕ → Bool) (p j : ℕ)
    → p < bs.processes
    → done p ≡ false
    → pool bs (update done p true) j ≡ pool bs done j +ℤ bs.allocation p j
pool-update bs done p j h e =
    rw (held-update bs.processes (λ i. bs.allocation i j) done p h e) (omega int_laws)

pub pool-ext :
    (bs : BankerSystem) (f g : ℕ → Bool) (j : ℕ)
    → ((i : ℕ) → i < bs.processes → f i ≡ g i)
    → pool bs f j ≡ pool bs g j
pool-ext bs f g j h = rw (held-ext bs.processes (λ i. bs.allocation i j) f g h)

-- Writing the sequence at or past `k` leaves its first `k` processes alone.
pub before-update :
    (seq : ℕ → ℕ) (k m p i : ℕ) → k ≤ m → before (update seq m p) k i ≡ before seq k i
before-update seq zero m p i h = refl
before-update seq (suc k) m p i h = ground (arith, before-update seq k m p i)
