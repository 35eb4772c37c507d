-- ===== src/Storage/Prefetch/Access.antt =====
-- update_access_pattern: what is in the queue after an access.
use os_exploring.Common.{
  ℕ, ◌+◌, ◌-◌, ◌<◌, ◌≤◌, ◌≡◌, ◌∙◌, ap, refl, true, false, arith, Option, none, some, ltb,
  if◌then◌else◌, subst,
}
use os_exploring.Storage.Prefetch.Queue.{IsWindow, queue_all-IsWindow}
use os_exploring.Storage.Prefetch.Predict.{IsAhead, predict_next-IsAhead, add_hot-IsPredicted}
use os_exploring.Storage.Prefetch.Hot.{IsOrder, IsHottest, find_hot-IsHottest}
use os_exploring.Storage.Prefetch.{
  max_prefetch, PrefetchQueue, Heat, Optimizer, Predictions, predict_next, add_hot, find_hot,
  predict_next_blocks, queue_all, count_access, queue_predictions, update_access_pattern, then_hot,
  with_queue,
}

-- The entries of a queue of `w`: the next `w` blocks, or, with a hot block, the one after next and its
-- successors, and the hot one.
abbrev pub Waiting : Option ℕ → ℕ → ℕ → (ℕ → ℕ) → Type 0
Waiting none block_num w blocks = (i : ℕ) → i < w → blocks i ≡ block_num + (i + 1)
Waiting (some hot) block_num w blocks =
    ((i : ℕ) → i + 1 < w → blocks i ≡ block_num + (i + 2)) × (blocks (w - 1) ≡ hot)

-- The history that goes on with the predictions.
abbrev followed : ℕ → (ℕ → ℕ) → (ℕ → ℕ) → ℕ → ℕ
followed n before after k = if ltb k n then before k else after (k - n)

queue-IsWindow :
    (q : PrefetchQueue) (after : ℕ → ℕ)
    → q.count ≤ q.capacity
    → IsWindow (followed q.count q.blocks after) (q.count + 0) q
queue-IsWindow q after fits = record { counted = ground arith; kept = λ i low. ground arith }

followed-later : (n : ℕ) (before after : ℕ → ℕ) (k : ℕ) → followed n before after (n + k) ≡ after k
followed-later n before after k =
    let behind : ltb (n + k) n ≡ false = ground arith in
    let at : n + k - n ≡ k = omega arith in rw (behind, at) refl

-- The last `w` of at least `w` predictions.
queue_all-last :
    (q : PrefetchQueue) (predict_blocks : ℕ → ℕ) (count : ℕ)
    → q.count ≤ q.capacity
    → 0 < q.capacity
    → q.capacity ≤ count
    → (last : PrefetchQueue) × (queue_all count 0 predict_blocks q ≡ some last)
      × (last.count ≡ q.capacity)
      × ((i : ℕ) → i < q.capacity → last.blocks i ≡ predict_blocks (count - q.capacity + i))
queue_all-last q predict_blocks count fits some_ many =
    let n = q.count in
    let history = followed n q.blocks predict_blocks in
    let (last, e, w, capacity) =
      queue_all-IsWindow history predict_blocks n count 0 q (queue-IsWindow q predict_blocks fits)
        some_ (followed-later n q.blocks predict_blocks) in
    let full : last.count ≡ q.capacity = ground (arith, w.counted, capacity) in
    (
      last,
      e,
      full,
      λ i low.
          let at : n + (0 + count) - last.count + i ≡ n + (count - q.capacity + i) =
            omega (arith, full) in
          w.kept i (omega (arith, full))
          ∙ ap history at
          ∙ followed-later n q.blocks predict_blocks (count - q.capacity + i),
    )

sequential :
    {H : Type 0} (block_num : ℕ) (stack : ℕ → ℕ) (o : Optimizer H)
    → o.prefetch_window_size < max_prefetch
    → block_num + o.prefetch_window_size < o.total_blocks
    → (p : Predictions) × (predict_next o.prefetch_window_size 1 o.total_blocks block_num
          (record { predict_blocks = stack; count = 0 })
        ≡ some p)
      × IsAhead block_num p (0 + o.prefetch_window_size)
sequential block_num stack o room far =
    predict_next-IsAhead o.prefetch_window_size 0 o.total_blocks block_num
      (record { predict_blocks = stack; count = 0 })
      (record { counted = refl; next = λ j low. absurd (omega arith) }) (omega arith) (omega arith)

predict_next_blocks-Waiting :
    {H : Type 0} (heat : Heat H) (block_num : ℕ) (stack : ℕ → ℕ) (o : Optimizer H) (hot : Option ℕ)
    → find_hot heat block_num o ≡ hot
    → 0 < o.prefetch_window_size
    → o.prefetch_window_size < max_prefetch
    → block_num + o.prefetch_window_size < o.total_blocks
    → (p : Predictions) × (predict_next_blocks heat block_num stack o ≡ some p)
      × (o.prefetch_window_size ≤ p.count)
      × Waiting hot block_num o.prefetch_window_size
          (λ i. p.predict_blocks (p.count - o.prefetch_window_size + i))
unfolding predict_next_blocks then_hot
predict_next_blocks-Waiting heat block_num stack o none found some_ room far =
    let (p, e, a) = sequential block_num stack o room far in
    (
      p,
      rw (e, found) (unfold add_hot in refl),
      omega (arith, a.counted),
      λ i low.
          let at : p.count - o.prefetch_window_size + i ≡ i = omega (arith, a.counted) in
          ap p.predict_blocks at ∙ a.next i (omega arith),
    )
predict_next_blocks-Waiting heat block_num stack o (some hot) found some_ room far =
    let (p, e, a) = sequential block_num stack o room far in
    let w = o.prefetch_window_size in
    let zero_ : 0 + w ≡ w = omega arith in
    let (more, added, h) =
      add_hot-IsPredicted block_num hot w p (subst (IsAhead block_num p) zero_ a) room in
    (
      more,
      rw (e, found) added,
      omega (arith, h.counted),
      (
        λ i low.
            let at : more.count - w + i ≡ i + 1 = omega (arith, h.counted) in
            let two : i + 1 + 1 ≡ i + 2 = omega arith in
            ap more.predict_blocks at ∙ h.next (i + 1) low ∙ ap (λ k. block_num + k) two,
        let last : more.count - w + (w - 1) ≡ w = omega (arith, h.counted) in
            ap more.predict_blocks last ∙ h.last,
      ),
    )

Waiting-ext :
    (hot : Option ℕ) (block_num w : ℕ) (f g : ℕ → ℕ)
    → 0 < w
    → ((i : ℕ) → i < w → f i ≡ g i)
    → Waiting hot block_num w g
    → Waiting hot block_num w f
Waiting-ext none block_num w f g some_ same h = λ i low. same i low ∙ h i low
Waiting-ext (some hot) block_num w f g some_ same (next, last) =
    (λ i low. same i (omega arith) ∙ next i low, same (w - 1) (omega arith) ∙ last)

-- Let `>` be as it is on doubles, and let there be as many blocks behind the one accessed as the
-- window has, at most 255, with a queue of that size that holds no more. The access fills the
-- queue: with the next blocks in order, if no other block of the disk has a heat above 0 once the
-- access is counted. Else the last place is for a block that has, and above which no other block
-- is, whether it is one of the next blocks or not, and the places before hold the next blocks from
-- the second one on, in order.
pub update_access_pattern-Waiting :
    {H : Type 0} (heat : Heat H) (block_num : ℕ) (stack : ℕ → ℕ) (o : Optimizer H)
    → IsOrder heat
    → 0 < o.prefetch_window_size
    → o.prefetch_window_size < max_prefetch
    → o.prefetch_queue.capacity ≡ o.prefetch_window_size
    → o.prefetch_queue.count ≤ o.prefetch_queue.capacity
    → block_num + o.prefetch_window_size < o.total_blocks
    → (next : Optimizer H) × (hot : Option ℕ) × (update_access_pattern heat block_num stack o
        ≡ some next)
      × IsHottest heat block_num o.total_blocks (count_access heat block_num o).block_heat_map hot
      × (next.prefetch_queue.count ≡ o.prefetch_window_size)
      × Waiting hot block_num o.prefetch_window_size next.prefetch_queue.blocks
unfolding update_access_pattern queue_predictions with_queue count_access
update_access_pattern-Waiting heat block_num stack o order some_ room size fits far =
    let counted = count_access heat block_num o in
    let hot = find_hot heat block_num counted in
    let w = o.prefetch_window_size in
    let inside : ltb block_num o.total_blocks ≡ true = ground arith in
    let (p, predicted, many, waiting) =
      predict_next_blocks-Waiting heat block_num stack counted hot refl some_ room far in
    let (last, queued, full, kept) =
      queue_all-last o.prefetch_queue p.predict_blocks p.count fits (omega (arith, size, some_))
        (omega (arith, size, many)) in
    (
      record counted { prefetch_queue = last },
      hot,
      rw (inside, predicted, queued) refl,
      find_hot-IsHottest heat block_num counted order,
      omega (arith, full, size),
      Waiting-ext hot block_num w last.blocks (λ i. p.predict_blocks (p.count - w + i)) some_
          (λ i low.
            let at : p.count - o.prefetch_queue.capacity + i ≡ p.count - w + i =
              omega (arith, size) in
            kept i (omega (arith, size, low)) ∙ ap p.predict_blocks at)
          waiting,
    )
