-- ===== src/Storage/Prefetch/Tests.antt =====
-- Hundred blocks and a window of three, as in main; the heat in hundredths.
use os_exploring.Common.{
  ℕ, ◌+◌, ◌*◌, ◌/◌, ◌≡◌, refl, arith, Option, none, some, ltb, update, for_range,
}
use os_exploring.Storage.Prefetch.Access.{Waiting, update_access_pattern-Waiting}
use os_exploring.Storage.Prefetch.Hot.{IsOrder, IsHottest}
use os_exploring.Storage.Prefetch.{
  Heat, Optimizer, queue_prefetch, predict_next, add_prediction, find_hot, hot_step, count_access,
  update_access_pattern,
}

abbrev hundredths : Heat ℕ
hundredths = record {
  cold = 0;
  decay = λ h. h * 95 / 100;
  warm = λ h. h + 100;
  above = λ a b. ltb b a;
}

-- Block 1 has been accessed before.
abbrev optimizer : Optimizer ℕ
optimizer = record {
  prefetch_queue = record { blocks = λ _. 0; count = 0; capacity = 3 };
  block_access_count = λ _. 0;
  block_heat_map = update (λ _. 0) 1 100;
  total_blocks = 10;
  prefetch_window_size = 3;
}

hottest : find_hot hundredths 5 (count_access hundredths 5 optimizer) ≡ some 1
unfolding find_hot hot_step count_access for_range
hottest = refl

hundredths-IsOrder : IsOrder hundredths
hundredths-IsOrder = record {
  not_itself = λ a. ground arith;
  between = λ a b c e f. ground (arith, e, f);
}

update_access_pattern-Waiting_example :
    (next : Optimizer ℕ) × (hot : Option ℕ) × (update_access_pattern hundredths 5 (λ _. 0) optimizer
      ≡ some next)
    × IsHottest hundredths 5 10 (count_access hundredths 5 optimizer).block_heat_map hot
    × (next.prefetch_queue.count ≡ 3)
    × Waiting hot 5 3 next.prefetch_queue.blocks
update_access_pattern-Waiting_example =
    update_access_pattern-Waiting hundredths 5 (λ _. 0) optimizer hundredths-IsOrder (omega arith)
      (omega arith) refl (omega arith) (omega arith)

-- The index -1.
no_capacity : queue_prefetch 7 (record { blocks = λ _. 0; count = 0; capacity = 0 }) ≡ none
unfolding queue_prefetch
no_capacity = refl

-- A prediction behind the end of the array.
too_many : predict_next 1 1 100 5 (record { predict_blocks = λ _. 0; count = 256 }) ≡ none
unfolding predict_next add_prediction
too_many = refl
