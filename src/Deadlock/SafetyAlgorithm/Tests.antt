-- ===== src/Deadlock/SafetyAlgorithm/Tests.antt =====
-- Runs of Safety_algorithm.c.
use os_exploring.Common.{ℕ, ◌≡◌, refl, [], ◌∷◌, true, false, some, pos, get_or}
use os_exploring.Deadlock.Banker
use os_exploring.Deadlock.SafetyAlgorithm.{BankerState, is_safe, calculate_need}
use os_exploring.Deadlock.SafetyAlgorithm.Agreement.{as_system, verdict, is_safe_agrees}

abbrev state : ℕ → BankerState
state supply = calculate_need (record {
  allocation = λ i _. pos (get_or (1 ∷ 2 ∷ []) i 0);
  max = λ i _. pos (get_or (5 ∷ 4 ∷ []) i 0);
  need = λ _ _. pos 0;
  available = λ _. pos supply;
  processes = 2;
  resources = 1;
})

safe_with_three : is_safe (state 3) (λ _. 9) ≡ some true
unfolding is_safe calculate_need
safe_with_three = refl

unsafe_with_one : is_safe (state 1) (λ _. 9) ≡ some false
unfolding is_safe calculate_need
unsafe_with_one = refl

is_safe_agrees_example :
    is_safe (state 3) (λ _. 9) ≡ verdict (Banker.is_safe (as_system (state 3) (λ _. 9)))
is_safe_agrees_example = is_safe_agrees (state 3) (λ _. 9)
