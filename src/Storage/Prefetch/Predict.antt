-- ===== src/Storage/Prefetch/Predict.antt =====
-- What is predicted: the next blocks, and a hot one.
use os_exploring.Common.{
  ℕ, zero, suc, ◌+◌, ◌<◌, ◌≡◌, ◌∙◌, refl, true, arith, some, ltb, update, update_ne, ℕ_discrete,
  subst,
}
use os_exploring.Storage.Prefetch.{max_prefetch, Predictions, add_prediction, predict_next, add_hot}

-- The first predictions are the blocks after `block_num`, in order.
pub record IsAhead (block_num : ℕ) (p : Predictions) (n : ℕ) : Type 0 where
  pub counted : p.count ≡ n
  pub next : (j : ℕ) → j < n → p.predict_blocks j ≡ block_num + (j + 1)

add_prediction-IsAhead :
    (block_num n : ℕ) (p : Predictions)
    → IsAhead block_num p n
    → n < max_prefetch
    → (more : Predictions) × (add_prediction (block_num + (n + 1)) p ≡ some more)
      × IsAhead block_num more (n + 1)
unfolding add_prediction
add_prediction-IsAhead block_num n p a room =
    let fits : ltb p.count max_prefetch ≡ true = ground (arith, a.counted) in
    let more : Predictions = record p {
      predict_blocks = update p.predict_blocks p.count (block_num + (n + 1));
      count = p.count + 1;
    } in
    (
      more,
      rw fits refl,
      record {
        counted = omega (arith, a.counted);
        next = λ j low. elim (ℕ_discrete p.count j) [
          | yes last ↦
              let at : n ≡ j = omega (arith, last, a.counted) in rw at (ground (arith, last))
          | no before ↦
              update_ne p.predict_blocks p.count j (block_num + (n + 1)) before
              ∙ a.next j (omega (arith, a.counted, before, low))
        ];
      },
    )

-- With enough blocks behind it, and room in the array, each round adds one.
pub predict_next-IsAhead :
    (left n total_blocks block_num : ℕ) (p : Predictions)
    → IsAhead block_num p n
    → n + left < max_prefetch
    → block_num + (n + left) < total_blocks
    → (last : Predictions) × (predict_next left (n + 1) total_blocks block_num p ≡ some last)
      × IsAhead block_num last (n + left)
unfolding predict_next
predict_next-IsAhead zero n total_blocks block_num p a room far =
    let all : n ≡ n + 0 = omega arith in (p, refl, subst (IsAhead block_num p) all a)
predict_next-IsAhead (suc left) n total_blocks block_num p a room far =
    let (more, e, one) = add_prediction-IsAhead block_num n p a (omega arith) in
    let inside : ltb (block_num + (n + 1)) total_blocks ≡ true = ground arith in
    let (last, ended, all) =
      predict_next-IsAhead left (n + 1) total_blocks block_num more one (omega arith)
        (omega arith) in
    let count : n + 1 + left ≡ n + suc left = omega arith in
    (last, rw (inside, e) ended, subst (IsAhead block_num last) count all)

-- The hot block comes last.
pub record IsPredicted (block_num : ℕ) (hot : ℕ) (p : Predictions) (n : ℕ) : Type 0 where
  pub counted : p.count ≡ n + 1
  pub next : (j : ℕ) → j < n → p.predict_blocks j ≡ block_num + (j + 1)
  pub last : p.predict_blocks n ≡ hot

pub add_hot-IsPredicted :
    (block_num hot n : ℕ) (p : Predictions)
    → IsAhead block_num p n
    → n < max_prefetch
    → (more : Predictions) × (add_hot (some hot) p ≡ some more) × IsPredicted block_num hot more n
unfolding add_hot add_prediction
add_hot-IsPredicted block_num hot n p a room =
    let fits : ltb p.count max_prefetch ≡ true = ground (arith, a.counted) in
    let more : Predictions = record p {
      predict_blocks = update p.predict_blocks p.count hot;
      count = p.count + 1;
    } in
    (
      more,
      rw fits refl,
      record {
        counted = omega (arith, a.counted);
        next = λ j low.
            update_ne p.predict_blocks p.count j hot (λ e. absurd (omega (arith, a.counted)))
            ∙ a.next j low;
        last = ground (arith, a.counted);
      },
    )
