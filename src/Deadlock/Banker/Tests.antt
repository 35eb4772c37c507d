-- ===== src/Deadlock/Banker/Tests.antt =====
-- Runs of Banker_algorithm.c, and its theorems at the state that `main` builds.
use os_exploring.Common.{
  ℕ, ◌≡◌, refl, Bool, true, Option, none, some, [], ◌∷◌, map, arith, ℤ, pos, ◌+ℤ◌, below_two,
}
use os_exploring.Deadlock.Banker.{
  BankerSystem, initialize_bankers, cal_need, take_request, request_fits, is_safe,
  request_resources,
}
use os_exploring.Deadlock.Banker.Spec.{IsSafeSequence, held}
use os_exploring.Deadlock.Banker.Safety.{is_safe_sound, is_safe-total, is_safe_complete}
use os_exploring.Deadlock.Banker.Moves.{Moved, grow, shrink, SameBooks}
use os_exploring.Deadlock.Banker.Request.{
  request_resources-total, request_resources-denied, request_resources-granted,
  request_resources_complete,
}
use os_exploring.Deadlock.Banker.Setup.{initialize_bankers_lem, cal_need_lem}
use os_exploring.Deadlock.Banker.Books.{IsConsistent, request_resources-IsConsistent}
use os_exploring.Deadlock.Banker.Demo.{row}

abbrev junk : BankerSystem
junk = record {
  processes = 0;
  resources = 0;
  allocation = λ _ _. pos 9;
  max = λ _ _. pos 9;
  need = λ _ _. pos 9;
  available = λ _. pos 9;
  safe_sequence = λ _. 9;
  finished = λ _. true;
}

-- Two processes and one resource: process 1 can complete, and process 0 after it.
abbrev sample : BankerSystem
sample = record {
  processes = 2;
  resources = 1;
  allocation = λ i _. row (1 ∷ 2 ∷ []) i;
  max = λ i _. row (5 ∷ 4 ∷ []) i;
  need = λ i _. row (4 ∷ 2 ∷ []) i;
  available = λ _. pos 3;
  safe_sequence = λ _. 9;
  finished = λ _. true;
}

abbrev ask : ℕ → ℕ → ℤ
ask n _ = pos n

abbrev state_of : BankerSystem → Option (Bool × BankerSystem) → BankerSystem
state_of bs none = bs
state_of bs (some r) = r.1

abbrev after_check : BankerSystem
after_check = state_of sample (is_safe sample)

demo_sequence : map after_check.safe_sequence (0 ∷ 1 ∷ []) ≡ 1 ∷ 0 ∷ []
unfolding is_safe
demo_sequence = refl

is_safe-total_run : (r : Bool × BankerSystem) × (is_safe sample ≡ some r)
is_safe-total_run = is_safe-total sample

is_safe_sound_example : IsSafeSequence sample after_check.safe_sequence
unfolding is_safe
is_safe_sound_example = is_safe_sound sample after_check refl

is_safe_complete_example : (t : BankerSystem) × (is_safe sample ≡ some (true, t))
is_safe_complete_example =
    is_safe_complete sample after_check.safe_sequence (λ i j _ _. ground arith)
      is_safe_sound_example

abbrev answered : ℕ → ℕ → BankerSystem
answered p n = state_of sample (request_resources sample p (ask n))

request_resources-denied_example : SameBooks sample (answered 0 2)
unfolding request_resources
request_resources-denied_example = request_resources-denied sample 0 (ask 2) (answered 0 2) refl

request_resources-granted_example :
    (request_fits sample 0 (ask 1) ≡ true)
    × Moved sample 0 1 0 (grow (ask 1)) (shrink (ask 1)) (answered 0 1)
    × IsSafeSequence (answered 0 1) (answered 0 1).safe_sequence
unfolding request_resources
request_resources-granted_example = request_resources-granted sample 0 (ask 1) (answered 0 1) refl

sample-IsConsistent : IsConsistent (λ _. pos 6) sample
unfolding held ◌+ℤ◌
sample-IsConsistent = record {
  conserved = λ j _. refl;
  balanced = λ i j ilt _.
      below_two (λ i. row (1 ∷ 2 ∷ []) i +ℤ row (4 ∷ 2 ∷ []) i ≡ row (5 ∷ 4 ∷ []) i) refl refl i
        ilt;
  within_claim = λ i j _ _. omega arith;
  no_debt = λ j _. omega arith;
}

request_resources-IsConsistent_example : IsConsistent (λ _. pos 6) (answered 0 1)
unfolding request_resources
request_resources-IsConsistent_example =
    request_resources-IsConsistent (λ _. pos 6) sample 0 (ask 1) true (answered 0 1) (omega arith)
      sample-IsConsistent refl

after_take-IsSafeSequence :
    IsSafeSequence (take_request sample 0 (ask 1)) (answered 0 1).safe_sequence
unfolding request_resources
after_take-IsSafeSequence = is_safe_sound (take_request sample 0 (ask 1)) (answered 0 1) refl

request_resources_complete_run :
    (t : BankerSystem) × (request_resources sample 0 (ask 1) ≡ some (true, t))
unfolding take_request
request_resources_complete_run =
    request_resources_complete sample 0 (ask 1) (answered 0 1).safe_sequence
      (λ j lt. (omega arith, omega arith)) (λ i j ilt jlt. ground arith) after_take-IsSafeSequence

request_resources-total_example :
    (r : Bool × BankerSystem) × (request_resources sample 0 (ask 7) ≡ some r)
request_resources-total_example = request_resources-total sample 0 (ask 7)

initialize_bankers_run :
    ((initialize_bankers sample 2 1).allocation 1 0 ≡ pos 0)
    × ((initialize_bankers sample 2 1).need 1 0 ≡ pos 0)
    × ((initialize_bankers sample 2 1).available 0 ≡ pos 0)
    × ((initialize_bankers sample 2 1).max 1 0 ≡ pos 4)
initialize_bankers_run = initialize_bankers_lem sample 2 1 1 0 (omega arith) (omega arith)

cal_need_example :
    (cal_need sample).allocation 1 0 +ℤ (cal_need sample).need 1 0 ≡ (cal_need sample).max 1 0
cal_need_example = cal_need_lem sample 1 0 (omega arith) (omega arith)
