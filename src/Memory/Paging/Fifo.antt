-- ===== src/Memory/Paging/Fifo.antt =====
-- First in, first out: what a step of `FIFOPageReplacement` keeps.
use os_exploring.Common.{
  ℕ, ◌+◌, ◌≤◌, ◌<◌, ◌≡◌, ◌≢◌, refl, sym, ◌∙◌, inl, inr, none, some, List, [], ◌∷◌, arith, ltb, ◌==◌,
  ℤ, eqb_ℤ, eqb_ℤ_iff, Bool-cases, Option-cases, update, find_range-some, find_range-none, length,
}
use os_exploring.Memory.Paging.{
  FifoQueue, init_fifo_queue, find_page, fifo_step, fifo_loop, fifo_page_replacement,
}

pub record IsValid (q : FifoQueue) : Type 0 where
  pub room : q.size ≤ q.capacity
  pub head_in : q.head < q.capacity
  pub distinct : (i j : ℕ) → i < q.size → j < q.size → q.frames i ≡ q.frames j → i ≡ j

abbrev pub Holds : FifoQueue → ℤ → Type 0
Holds q page = (i : ℕ) × (i < q.size) × (q.frames i ≡ page)

-- Storing an absent page at an index below `size` keeps the frames distinct.
update-distinct :
    (f : ℕ → ℤ) (n k : ℕ) (page : ℤ)
    → ((i j : ℕ) → i < n → j < n → f i ≡ f j → i ≡ j)
    → ((i : ℕ) → i < n → f i ≢ page)
    → (m : ℕ) → m ≤ n + 1
    → (n < m → k ≡ n)
    → (i j : ℕ) → i < m
    → j < m
    → update f k page i ≡ update f k page j
    → i ≡ j
update-distinct f n k page distinct absent m le last i j il jl e = elim (Bool-cases (k == i)) [
  | inl a ↦ elim (Bool-cases (k == j)) [
    | inl b ↦ ground arith
    | inr b ↦ absurd (absent j (ground arith) (ground arith))
  ]
  | inr a ↦ elim (Bool-cases (k == j)) [
    | inl b ↦ absurd (absent i (ground arith) (ground arith))
    | inr b ↦ distinct i j (ground arith) (ground arith) (ground arith)
  ]
]

find_page-none :
    (q : FifoQueue) (page : ℤ) → find_page q page ≡ none → (i : ℕ) → i < q.size → q.frames i ≢ page
unfolding find_page
find_page-none q page h i lt e =
    let missed =
      find_range-none q.size 0 (λ i. eqb_ℤ (q.frames i) page) i h (omega arith) (omega arith) in
    cc (sym missed ∙ (eqb_ℤ_iff (q.frames i) page).1 e)

find_page-some : (q : FifoQueue) (page : ℤ) (i : ℕ) → find_page q page ≡ some i → Holds q page
unfolding find_page
find_page-some q page i found =
    let (_, lt, hit) = find_range-some q.size 0 (λ i. eqb_ℤ (q.frames i) page) i found in
    (i, omega arith, (eqb_ℤ_iff (q.frames i) page).0 hit)

-- One page of the run: the queue stays valid and of the same capacity, the page is in a frame
-- afterwards, and it counts as a fault exactly if it was in none before.
pub fifo_step_lem :
    (q : FifoQueue) (faults : ℕ) (page : ℤ)
    → IsValid q
    → IsValid (fifo_step (q, faults) page).0
      × ((fifo_step (q, faults) page).0.capacity ≡ q.capacity)
      × Holds (fifo_step (q, faults) page).0 page
      × ((fifo_step (q, faults) page).1
          ≡ faults + (elim (find_page q page) [ none ↦ 1 | some _ ↦ 0 ]))
unfolding fifo_step
fifo_step_lem q faults page v = elim (Option-cases (find_page q page)) [
  | inr (i, found) ↦ rw (found, fifo_step) (v, refl, find_page-some q page i found, omega arith)
  | inl missed ↦ elim (Bool-cases (ltb q.size q.capacity)) [
    | inl more ↦
        rw (missed, more, fifo_step)
          (
            record {
              room = ground arith;
              head_in = v.head_in;
              distinct =
                  update-distinct q.frames q.size q.size page v.distinct
                    (find_page-none q page missed) (q.size + 1) (omega arith) (λ _. refl);
            },
            refl,
            (q.size, omega arith, ground arith),
            refl,
          )
    | inr full ↦
        rw (missed, full, fifo_step)
          (
            record {
              room = v.room;
              head_in = grind (arith, v.head_in);
              distinct =
                  update-distinct q.frames q.size q.head page v.distinct
                    (find_page-none q page missed) q.size (omega arith) (λ l. absurd (omega arith));
            },
            refl,
            (q.head, ground (arith, v.head_in, v.room), ground arith),
            refl,
          )
  ]
]

-- A whole run keeps the queue valid, and faults at most once for each page.
pub fifo_loop_lem :
    (pages : List ℤ) (q : FifoQueue) (faults : ℕ)
    → IsValid q
    → IsValid (fifo_loop (q, faults) pages).0
      × ((fifo_loop (q, faults) pages).1 ≤ faults + length pages)
unfolding fifo_loop
fifo_loop_lem [] q faults v = (v, omega arith)
fifo_loop_lem (page ∷ pages) q faults v =
    let (v', _, _, count) = fifo_step_lem q faults page v in
    let (q', faults') = fifo_step (q, faults) page in
    let (valid, few) = fifo_loop_lem pages q' faults' v' in (valid, ground (arith, few, count))

init_fifo_queue-IsValid :
    (garbage : ℕ → ℤ) (capacity : ℕ) → 0 < capacity → IsValid (init_fifo_queue garbage capacity)
unfolding init_fifo_queue
init_fifo_queue-IsValid garbage capacity h = record {
  room = omega arith;
  head_in = h;
  distinct = λ i j il. absurd (omega arith);
}

-- With at least one frame, the run ends with distinct pages in at most `capacity` frames, after at
-- most one fault for each page.
pub fifo_page_replacement_lem :
    (garbage : ℕ → ℤ) (pages : List ℤ) (capacity : ℕ)
    → 0 < capacity
    → IsValid (fifo_page_replacement garbage pages capacity).0
      × ((fifo_page_replacement garbage pages capacity).1 ≤ length pages)
unfolding fifo_page_replacement
fifo_page_replacement_lem garbage pages capacity h =
    let (v, few) =
      fifo_loop_lem pages (init_fifo_queue garbage capacity) 0
        (init_fifo_queue-IsValid garbage capacity h) in
    (v, omega (arith, few))
