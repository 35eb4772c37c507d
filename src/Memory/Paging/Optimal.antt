-- ===== src/Memory/Paging/Optimal.antt =====
-- The optimal replacement: which frame `findFarthest` picks.
use os_exploring.Common.{
  ℕ, zero, suc, ◌+◌, ◌≤◌, ◌<◌, ◌≡◌, refl, inl, inr, Option, none, some, List, [], ◌∷◌, arith, ltb,
  ◌==◌, ℤ, Bool-cases, if◌then◌else◌, dec_lt,
}
use os_exploring.Memory.Paging.{next_use, length_ℤ, is_farther, farthest_from, find_farthest}

next_use-le : (page : ℤ) (rest : List ℤ) → next_use page rest ≤ length_ℤ rest
unfolding next_use
next_use-le page [] = omega arith
next_use-le page (p ∷ rest) = ground (arith, next_use-le page rest)

-- What the loop has seen of the frames below `i`.
abbrev Seen : List ℤ → (ℕ → ℤ) → ℕ → Option ℕ → ℕ → Type 0
Seen rest frames i none idx = (i ≡ 0) × (idx ≡ 0)
Seen rest frames i (some far) idx =
    (idx < i)
    × (next_use (frames idx) rest ≡ far)
    × ((k : ℕ) → k < i → next_use (frames k) rest ≤ far)

abbrev Farthest : List ℤ → (ℕ → ℤ) → ℕ → ℕ → Type 0
Farthest rest frames n r =
    (r < n) × ((k : ℕ) → k < n → next_use (frames k) rest ≤ next_use (frames r) rest)

Seen-step :
    (rest : List ℤ) (frames : ℕ → ℤ) (i : ℕ) (far : Option ℕ) (idx : ℕ)
    → Seen rest frames i far idx
    → let j = next_use (frames i) rest in
      Seen rest frames
        (i + 1)
        (if is_farther j far then some j else far)
        (if is_farther j far then i else idx)
Seen-step rest frames i none idx h =
    (omega arith, refl, λ k lt. let e : k ≡ i = omega arith in rw e (omega arith))
Seen-step rest frames i (some far) idx h = elim (Bool-cases (ltb far (next_use (frames i) rest))) [
  | inl further ↦ rw further (
    omega arith,
    refl,
    λ k lt. elim (dec_lt k i) [
      | yes old ↦ ground (arith, h.2 k old)
      | no new ↦ let e : k ≡ i = omega arith in rw e (omega arith)
    ],
  )
  | inr nearer ↦ rw nearer (
    omega arith,
    h.1,
    λ k lt. elim (dec_lt k i) [
      | yes old ↦ h.2 k old
      | no new ↦ let e : k ≡ i = omega arith in rw e (ground arith)
    ],
  )
]

farthest_from-Farthest :
    (left i : ℕ) (rest : List ℤ) (frames : ℕ → ℤ) (far : Option ℕ) (idx n : ℕ)
    → i + left ≡ n
    → 0 < n
    → Seen rest frames i far idx
    → Farthest rest frames n (farthest_from left i rest frames far idx)
unfolding farthest_from
farthest_from-Farthest zero i rest frames none idx n e positive h = absurd (omega arith)
farthest_from-Farthest zero i rest frames (some far) idx n e positive h =
    (omega arith, λ k lt. omega (arith, h.2 k (omega arith), h.1))
farthest_from-Farthest (suc left) i rest frames far idx n e positive h =
    elim (Bool-cases (next_use (frames i) rest == length_ℤ rest)) [
      | inl never ↦ rw never (omega arith, λ k lt. ground (arith, next_use-le (frames k) rest))
      | inr later ↦ rw later (
          farthest_from-Farthest left (i + 1) rest frames _ _ n (omega arith) positive
            (Seen-step rest frames i far idx h))
    ]

-- The frame picked is in range, and the page of no frame `k` is used later in the pages that are
-- left; a page that is not used again counts as used after them all.
pub find_farthest_lem :
    (rest : List ℤ) (frames : ℕ → ℤ) (capacity k : ℕ)
    → k < capacity
    → (find_farthest rest frames capacity < capacity)
      × (next_use (frames k) rest ≤ next_use (frames (find_farthest rest frames capacity)) rest)
unfolding find_farthest
find_farthest_lem rest frames capacity k lt =
    let h =
      farthest_from-Farthest capacity 0 rest frames none 0 capacity (omega arith) (omega arith)
        (refl, refl) in
    (h.0, h.1 k lt)
