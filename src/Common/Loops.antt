-- ===== src/Common/Loops.antt =====
-- Counted loops. `for_range n i body s` runs `body i`, …, `body (i + n - 1)`; `all_range`,
-- `find_range` and `count_range` are the loops that leave early or count.
-- An array of the source is a function from indices; `update` is an assignment to one index.
use Prim.Native.Nat.{ℕ, zero, suc, ◌+◌, ◌≤◌, ◌<◌}
use mathlib.Core.Path.{◌≡◌, refl}
use mathlib.Core.Logic.{◌≢◌}
use mathlib.Core.Bool.{Bool, true, false, ◌&&◌}
use mathlib.Core.Option.{Option, none, some}
use native.Mathlib.Omega.{arith}
use os_exploring.Common.Tests.{◌==◌, if◌then◌else◌, &&-true}

abbrev pub update {ℓ} : {A : Type ℓ} → (ℕ → A) → ℕ → A → ℕ → A
update f i v j = if i == j then v else f j

pub update_self {ℓ} : {A : Type ℓ} (f : ℕ → A) (i : ℕ) (v : A) → update f i v i ≡ v
update_self f i v = ground arith

pub update_ne {ℓ} : {A : Type ℓ} (f : ℕ → A) (i j : ℕ) (v : A) → i ≢ j → update f i v j ≡ f j
update_ne f i j v h = ground arith

-- for (k = from; k < from + left; k++) st = step k st
unfoldable pub for_range {ℓ} : {S : Type ℓ} → ℕ → ℕ → (ℕ → S → S) → S → S
for_range zero from step st = st
for_range (suc left) from step st = for_range left (from + 1) step (step from st)

-- An invariant that each round hands on to the next index holds at the index where the loop ends.
pub for_range_inv {ℓ κ} :
    {S : Type ℓ} (Holds : ℕ → S → Type κ) (step : ℕ → S → S) (last : ℕ)
    → ((k : ℕ) (now : S) → k < last → Holds k now → Holds (k + 1) (step k now))
    → (left from : ℕ) (st : S) → from + left ≡ last
    → Holds from st
    → Holds last (for_range left from step st)
unfolding for_range
for_range_inv Holds step last hand_on zero from st ends now =
    let there : from ≡ last = omega arith in rw (← there) now
for_range_inv Holds step last hand_on (suc left) from st ends now =
    let next : Holds (from + 1) (step from st) = hand_on from st (omega arith) now in
    for_range_inv Holds step last hand_on left (from + 1) (step from st) (omega arith) next

-- Two loops whose states stay related.
pub for_range_sim {ℓ κ ι} :
    {S : Type ℓ} {T : Type κ} (R : S → T → Type ι) (f : ℕ → S → S) (g : ℕ → T → T)
    → ((i : ℕ) (s : S) (t : T) → R s t → R (f i s) (g i t))
    → (n i : ℕ) (s : S) (t : T) → R s t
    → R (for_range n i f s) (for_range n i g t)
unfolding for_range
for_range_sim R f g keep zero i s t h = h
for_range_sim R f g keep (suc n) i s t h =
    for_range_sim R f g keep n (i + 1) (f i s) (g i t) (keep i s t h)

-- for (k = i; k < i + n; k++) if (!test(k)) return false; return true
unfoldable pub all_range : ℕ → ℕ → (ℕ → Bool) → Bool
all_range zero i test = true
all_range (suc n) i test = test i && all_range n (i + 1) test

pub all_range_sound :
    (n i : ℕ) (test : ℕ → Bool) (k : ℕ)
    → all_range n i test ≡ true
    → i ≤ k
    → k < i + n
    → test k ≡ true
unfolding all_range
all_range_sound zero i test k h a b = absurd (omega arith)
all_range_sound (suc n) i test k h a b =
    ground (arith, all_range_sound n (i + 1) test k, &&-true (test i) (all_range n (i + 1) test))

pub all_range_complete :
    (n i : ℕ) (test : ℕ → Bool)
    → ((k : ℕ) → i ≤ k → k < i + n → test k ≡ true)
    → all_range n i test ≡ true
unfolding all_range
all_range_complete zero i test h = refl
all_range_complete (suc n) i test h = rw (
  h i (omega arith) (omega arith),
  all_range_complete n (i + 1) test (λ k a b. h k (omega arith) (omega arith)),
)

-- The first index that passes the test.
unfoldable pub find_range : ℕ → ℕ → (ℕ → Bool) → Option ℕ
find_range zero i test = none
find_range (suc n) i test = let rest = find_range n (i + 1) test in if test i then some i else rest

pub find_range-some :
    (n i : ℕ) (test : ℕ → Bool) (k : ℕ)
    → find_range n i test ≡ some k
    → (i ≤ k) × (k < i + n) × (test k ≡ true)
unfolding find_range
find_range-some zero i test k h = cc
find_range-some (suc n) i test k h = ground (arith, find_range-some n (i + 1) test k)

pub find_range_first :
    (n i : ℕ) (test : ℕ → Bool) (k m : ℕ)
    → find_range n i test ≡ some k
    → i ≤ m
    → m < k
    → test m ≡ false
unfolding find_range
find_range_first zero i test k m h a b = cc
find_range_first (suc n) i test k m h a b = ground (arith, find_range_first n (i + 1) test k m)

pub find_range-none :
    (n i : ℕ) (test : ℕ → Bool) (m : ℕ)
    → find_range n i test ≡ none
    → i ≤ m
    → m < i + n
    → test m ≡ false
unfolding find_range
find_range-none zero i test m h a b = absurd (omega arith)
find_range-none (suc n) i test m h a b = ground (arith, find_range-none n (i + 1) test m)

-- How many indices below `n` pass the test.
unfoldable pub count_range : ℕ → (ℕ → Bool) → ℕ
count_range zero test = 0
count_range (suc n) test = count_range n test + (if test n then 1 else 0)
