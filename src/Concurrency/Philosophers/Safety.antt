-- ===== src/Concurrency/Philosophers/Safety.antt =====
-- What holds at every table that a schedule leads to.
use os_exploring.Common.{
  ◌≡◌, refl, ap, ◌≢◌, inl, inr, ℕ, zero, suc, ◌+◌, ◌<◌, true, false, some, arith, ◌==◌, Bool-cases,
  ℕ_discrete, update, update_self, update_ne, one_if, count_range-replace, count_range-none,
  count_range-pos, count_range-pair, count_range-some, ==_iff,
}
use os_exploring.Concurrency.Philosophers.{
  Activity, thinking, has_first, eating, has_second, Table, first_fork, second_fork,
  num_philosophers, set_table, take_fork, put_fork, activity_step, philosopher_activity, TableStep,
  step, Dinner, here, next,
}
use os_exploring.Concurrency.Philosophers.Forks.{holds_fork, holders, rank, rank_grows}

-- A fork is locked as often as it is held.
pub record IsFair (s : Table) : Type 0 where
  pub held : (fork : ℕ) → holders fork s.philosophers ≡ one_if (s.forks fork)

module _ (s : Table) (i : ℕ) (below : i < num_philosophers) (old new : Activity)
    (at : s.philosophers i ≡ old) where
  moves :
      (fork : ℕ)
      → holders fork (update s.philosophers i new) + one_if (holds_fork fork i old)
        ≡ holders fork s.philosophers + one_if (holds_fork fork i new)
  moves fork =
      let change =
        count_range-replace num_philosophers
          (λ k. holds_fork fork k (update s.philosophers i new k))
          (λ k. holds_fork fork k (s.philosophers k)) i below
          (λ k differ. rw (update_ne s.philosophers i k new (λ e. differ (rw e))) refl) in
      ground (arith, change, at, update_self s.philosophers i new)

forks_differ : (i : ℕ) → i < num_philosophers → first_fork i ≢ second_fork i
forks_differ i below e =
    let same : rank (first_fork i) ≡ rank (second_fork i) = ap rank e in
    absurd (omega (arith, rank_grows i below, same))

activity_step-IsFair :
    (p : Activity) (i : ℕ) (s t : Table)
    → i < num_philosophers
    → s.philosophers i ≡ p
    → activity_step p i s ≡ some t
    → IsFair s
    → IsFair t
unfolding activity_step take_fork put_fork
activity_step-IsFair thinking i s t below at e fair = record {
  held = λ fork.
      let m = moves s i below thinking has_first at fork in ground (arith, m, fair.held fork, e);
}
activity_step-IsFair has_first i s t below at e fair = record {
  held = λ fork.
      let m = moves s i below has_first eating at fork in
      ground (arith, m, fair.held fork, forks_differ i below, e);
}
activity_step-IsFair eating i s t below at e fair = record {
  held = λ fork.
      let m = moves s i below eating has_second at fork in
      ground (arith, m, fair.held fork, forks_differ i below, e);
}
activity_step-IsFair has_second i s t below at e fair = record {
  held = λ fork.
      let m = moves s i below has_second thinking at fork in ground (arith, m, fair.held fork, e);
}

TableStep-IsFair : {s t : Table} → TableStep s t → IsFair s → IsFair t
unfolding philosopher_activity
TableStep-IsFair {s} {t} (step i below e) fair =
    activity_step-IsFair (s.philosophers i) i s t below refl e fair

set_table-IsFair : IsFair set_table
unfolding set_table
set_table-IsFair = record {
  held = λ fork. count_range-none num_philosophers (λ _. false) (λ _ _. refl);
}

pub Dinner-IsFair : {s : Table} → Dinner set_table s → IsFair s
Dinner-IsFair here = set_table-IsFair
Dinner-IsFair (next r st) = TableStep-IsFair st (Dinner-IsFair r)

-- A philosopher that eats has both its forks locked, and nobody else holds either.
pub record IsExclusive (s : Table) : Type 0 where
  pub locked :
      (i : ℕ)
      → i < num_philosophers
      → s.philosophers i ≡ eating
      → (s.forks (first_fork i) ≡ true) × (s.forks (second_fork i) ≡ true)
  pub alone :
      (i j fork : ℕ)
      → i < num_philosophers
      → j < num_philosophers
      → holds_fork fork i (s.philosophers i) ≡ true
      → holds_fork fork j (s.philosophers j) ≡ true
      → i ≡ j

held-locked :
    (s : Table) (i fork : ℕ)
    → IsFair s
    → i < num_philosophers
    → holds_fork fork i (s.philosophers i) ≡ true
    → s.forks fork ≡ true
held-locked s i fork fair below h =
    let some_ =
      count_range-some num_philosophers (λ k. holds_fork fork k (s.philosophers k)) i below h in
    ground (arith, fair.held fork, some_)

-- However the five philosophers are interleaved, a fork is held by at most one of them, and one
-- that eats has locked both its forks.
pub Dinner-IsExclusive : {s : Table} → Dinner set_table s → IsExclusive s
Dinner-IsExclusive {s} r =
    let fair = Dinner-IsFair r in
    record {
      locked = λ i below e. (
        held-locked s i (first_fork i) fair below (ground (arith, e)),
        held-locked s i (second_fork i) fair below (ground (arith, e)),
      );
      alone = λ i j fork low_i low_j e_i e_j. elim (ℕ_discrete i j) [
        | yes same ↦ same
        | no differ ↦
            let two =
              count_range-pair num_philosophers (λ k. holds_fork fork k (s.philosophers k)) i j
                low_i low_j differ e_i e_j in
            absurd (ground (arith, fair.held fork, two))
      ];
    }

-- Some philosopher can step.
abbrev CanStep : Table → Type 0
CanStep s = (i : ℕ) × (i < num_philosophers) × ((t : Table) × (philosopher_activity i s ≡ some t))

take_fork-free :
    (fork : ℕ) (p : Activity) (i : ℕ) (s : Table)
    → s.forks fork ≡ false
    → (t : Table) × (take_fork fork p i s ≡ some t)
unfolding take_fork
take_fork-free fork p i s free = (
  record s { forks = update s.forks fork true; philosophers = update s.philosophers i p },
  rw free,
)

put_fork-total :
    (fork : ℕ) (p : Activity) (i : ℕ) (s : Table) → (t : Table) × (put_fork fork p i s ≡ some t)
unfolding put_fork
put_fork-total fork p i s = (_, refl)

-- A philosopher can step, unless it waits for a fork that is locked.
step_or_wait :
    (s : Table) (p : Activity) (i : ℕ)
    → i < num_philosophers
    → s.philosophers i ≡ p
    → (p ≡ thinking → s.forks (first_fork i) ≡ true → CanStep s)
    → (p ≡ has_first → s.forks (second_fork i) ≡ true → CanStep s)
    → CanStep s
unfolding philosopher_activity activity_step
step_or_wait s thinking i below at first second = elim (Bool-cases (s.forks (first_fork i))) [
  | inl busy ↦ first refl busy
  | inr free ↦
      let (t, e) = take_fork-free (first_fork i) has_first i s free in (i, below, (t, rw at e))
]
step_or_wait s has_first i below at first second = elim (Bool-cases (s.forks (second_fork i))) [
  | inl busy ↦ second refl busy
  | inr free ↦
      let (t, e) = take_fork-free (second_fork i) eating i s free in (i, below, (t, rw at e))
]
step_or_wait s eating i below at first second =
    let (t, e) = put_fork-total (first_fork i) has_second i s in (i, below, (t, rw at e))
step_or_wait s has_second i below at first second =
    let (t, e) = put_fork-total (second_fork i) thinking i s in (i, below, (t, rw at e))

-- Whoever holds a locked fork can step, or waits for a fork of a higher rank.
climb :
    (fuel : ℕ) (s : Table) (fork : ℕ)
    → IsFair s
    → s.forks fork ≡ true
    → 3 < rank fork + fuel
    → CanStep s
climb zero s fork fair locked more = absurd (ground arith)
climb (suc fuel) s fork fair locked more =
    let one : 0 < holders fork s.philosophers = ground (arith, fair.held fork, locked) in
    let (i, below, h) =
      count_range-pos num_philosophers (λ k. holds_fork fork k (s.philosophers k)) one in
    step_or_wait s (s.philosophers i) i below refl (λ at busy. absurd (ground (arith, h, at)))
      (λ at busy.
        let taken : (fork == first_fork i) ≡ true = ground (arith, h, at) in
        let same = ap rank ((==_iff fork (first_fork i)).0 taken) in
        climb fuel s (second_fork i) fair busy (omega (arith, rank_grows i below, same, more)))

-- At every table that a schedule leads to, some philosopher can step: taking the forks in this order
-- never deadlocks.
pub Dinner-progress :
    {s : Table}
    → Dinner set_table s
    → (i : ℕ) × (i < num_philosophers) × ((t : Table) × (philosopher_activity i s ≡ some t))
Dinner-progress {s} r =
    let fair = Dinner-IsFair r in
    let on = λ (fork : ℕ) (busy : s.forks fork ≡ true). climb 4 s fork fair busy (omega arith) in
    step_or_wait s (s.philosophers 0) 0 (omega arith) refl (λ _. on (first_fork 0))
      (λ _. on (second_fork 0))
