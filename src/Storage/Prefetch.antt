-- ===== src/Storage/Prefetch.antt =====
-- performance_optimization.c: which blocks to read ahead, and the queue of those that wait.
-- What the doubles of the heat map do is an argument. `none` is an access outside of an array.
mod Queue
mod Predict
pub mod Hot
pub mod Access
mod Tests
use os_exploring.Common.{
  ℕ, zero, suc, ◌+◌, ◌-◌, Bool, ◌&&◌, Option, none, some, ltb, leb, ◌==◌, if◌then◌else◌, update,
  for_range, write_range,
}

abbrev pub max_prefetch : ℕ
max_prefetch = 256

pub record PrefetchQueue : Type 0 where
  pub blocks : ℕ → ℕ
  pub count : ℕ
  pub capacity : ℕ

-- The numbers of the heat map: 0.0, a product with the decay factor, a sum with 1.0, and `>`.
pub record Heat (H : Type 0) : Type 0 where
  pub cold : H
  pub decay : H → H
  pub warm : H → H
  pub above : H → H → Bool

pub record Optimizer (H : Type 0) : Type 0 where
  pub prefetch_queue : PrefetchQueue
  pub block_access_count : ℕ → ℕ
  pub block_heat_map : ℕ → H
  pub total_blocks : ℕ
  pub prefetch_window_size : ℕ

-- `given` says which of the five calls of malloc and calloc succeed, `queue` what the first array holds.
unfoldable pub init_performance_optimizer :
    {H : Type 0} → Heat H → (ℕ → Bool) → (ℕ → ℕ) → ℕ → ℕ → Option (Optimizer H)
init_performance_optimizer heat given queue total_blocks prefetch_size =
    if given 0 && (given 1 && (given 2 && (given 3 && given 4)))
    then some (record {
      prefetch_queue = record { blocks = queue; count = 0; capacity = prefetch_size };
      block_access_count = λ _. 0;
      block_heat_map = λ _. heat.cold;
      total_blocks = total_blocks;
      prefetch_window_size = prefetch_size;
    })
    else none

-- memmove drops the oldest entry.
unfoldable pub drop_oldest : PrefetchQueue → PrefetchQueue
drop_oldest q = record q {
  blocks = write_range (λ i _. q.blocks (i + 1)) (q.capacity - 1) 0 q.blocks;
  count = q.capacity - 1;
}

unfoldable pub put_last : ℕ → PrefetchQueue → PrefetchQueue
put_last predict_block q = record q {
  blocks = update q.blocks q.count predict_block;
  count = q.count + 1;
}

-- With a capacity of 0 the count would become -1, and so would the index.
unfoldable pub queue_prefetch : ℕ → PrefetchQueue → Option PrefetchQueue
queue_prefetch predict_block q =
    if leb q.capacity q.count
    then (if q.capacity == 0 then none else some (put_last predict_block (drop_oldest q)))
    else some (put_last predict_block q)

-- The array of predictions that the caller has on its stack.
pub record Predictions : Type 0 where
  pub predict_blocks : ℕ → ℕ
  pub count : ℕ

unfoldable pub add_prediction : ℕ → Predictions → Option Predictions
add_prediction block p =
    if ltb p.count max_prefetch
    then some
        (record p { predict_blocks = update p.predict_blocks p.count block; count = p.count + 1 })
    else none

-- The loop over the next blocks, with `left` rounds from `i` on.
unfoldable pub predict_next : ℕ → ℕ → ℕ → ℕ → Predictions → Option Predictions
predict_next zero i total_blocks block_num p = some p
predict_next (suc left) i total_blocks block_num p =
    if ltb (block_num + i) total_blocks
    then elim (add_prediction (block_num + i) p) [
      | none ↦ none
      | some more ↦ predict_next left (i + 1) total_blocks block_num more
    ]
    else predict_next left (i + 1) total_blocks block_num p

-- The hottest block so far, and how hot it is.
pub record Hottest (H : Type 0) : Type 0 where
  pub max_heat : H
  pub hot_block : Option ℕ

unfoldable pub hot_step : {H : Type 0} → Heat H → ℕ → (ℕ → H) → ℕ → Hottest H → Hottest H
hot_step heat block_num map_ i h =
    if i == block_num
    then h
    else if heat.above (map_ i) h.max_heat
    then record { max_heat = map_ i; hot_block = some i }
    else h

unfoldable pub find_hot : {H : Type 0} → Heat H → ℕ → Optimizer H → Option ℕ
find_hot heat block_num o =
    (for_range o.total_blocks 0 (hot_step heat block_num o.block_heat_map)
      (record { max_heat = heat.cold; hot_block = none })).hot_block

-- hot_block >= 0 && count < MAX_PREFETCH
unfoldable pub add_hot : Option ℕ → Predictions → Option Predictions
add_hot none p = some p
add_hot (some hot_block) p = if ltb p.count max_prefetch then add_prediction hot_block p else some p

unfoldable pub then_hot : Option ℕ → Option Predictions → Option Predictions
then_hot hot none = none
then_hot hot (some p) = add_hot hot p

unfoldable pub predict_next_blocks :
    {H : Type 0} → Heat H → ℕ → (ℕ → ℕ) → Optimizer H → Option Predictions
predict_next_blocks heat block_num stack o = then_hot (find_hot heat block_num o) (
    predict_next o.prefetch_window_size 1 o.total_blocks block_num
      (record { predict_blocks = stack; count = 0 }))

-- The loop that queues `left` predictions from `i` on.
unfoldable pub queue_all : ℕ → ℕ → (ℕ → ℕ) → PrefetchQueue → Option PrefetchQueue
queue_all zero i predict_blocks q = some q
queue_all (suc left) i predict_blocks q = elim (queue_prefetch (predict_blocks i) q) [
  | none ↦ none
  | some next ↦ queue_all left (i + 1) predict_blocks next
]

-- The count of accesses, and the heat that fades but for the block's.
unfoldable pub count_access : {H : Type 0} → Heat H → ℕ → Optimizer H → Optimizer H
count_access heat block_num o =
    let faded = write_range (λ _ h. heat.decay h) o.total_blocks 0 o.block_heat_map in
    record o {
      block_access_count =
          update o.block_access_count block_num (o.block_access_count block_num + 1);
      block_heat_map = update faded block_num (heat.warm (faded block_num));
    }

unfoldable pub with_queue : {H : Type 0} → Option PrefetchQueue → Optimizer H → Option (Optimizer H)
with_queue none o = none
with_queue (some q) o = some (record o { prefetch_queue = q })

unfoldable pub queue_predictions :
    {H : Type 0} → Option Predictions → Optimizer H → Option (Optimizer H)
queue_predictions none o = none
queue_predictions (some p) o = with_queue (queue_all p.count 0 p.predict_blocks o.prefetch_queue) o

-- `stack` is what the array of predictions holds before it is written.
unfoldable pub update_access_pattern :
    {H : Type 0} → Heat H → ℕ → (ℕ → ℕ) → Optimizer H → Option (Optimizer H)
update_access_pattern heat block_num stack o =
    if ltb block_num o.total_blocks
    then (let counted = count_access heat block_num o in
        queue_predictions (predict_next_blocks heat block_num stack counted) counted)
    else none
