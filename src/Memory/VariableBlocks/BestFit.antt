-- ===== src/Memory/VariableBlocks/BestFit.antt =====
-- What the search of allocate_variable_block finds: the free block that leaves the least over.
use os_exploring.Common.{
  ℕ, ◌-◌, ◌≤◌, ◌≡◌, refl, ap, ◌⊎◌, inl, inr, false, not, ◌&&◌, none, some, List, [], ◌∷◌, arith,
  ltb, leb, Bool-cases,
}
use os_exploring.Memory.VariableBlocks.{VariableBlock, Best, closer, best_from}

abbrev pub In : VariableBlock → List VariableBlock → Type 0
In b [] = ⊥
In b (c ∷ cs) = (b ≡ c) ⊎ In b cs

-- A free block with room.
pub record CanHold (size : ℕ) (b : VariableBlock) : Type 0 where
  pub free : b.is_allocated ≡ false
  pub room : size ≤ b.size

-- The block leaves no more over than any block seen so far would, and less than `limit`.
pub record IsBest (size : ℕ) (Seen : VariableBlock → Type 0) (limit : ℕ) (s : Best) : Type 0 where
  pub least : (b : VariableBlock) → Seen b → CanHold size b → s.0 ≤ b.size - size
  pub at_most : s.0 ≤ limit
  pub found : (b : VariableBlock) → s.1 ≡ some b → Seen b × CanHold size b × (s.0 ≡ b.size - size)
  pub missed : s.1 ≡ none → s.0 ≡ limit

IsBest-iff :
    (size : ℕ) (P Q : VariableBlock → Type 0) (limit : ℕ) (s : Best)
    → ((b : VariableBlock) → P b → Q b)
    → ((b : VariableBlock) → Q b → P b)
    → IsBest size P limit s
    → IsBest size Q limit s
IsBest-iff size P Q limit s to from h = record {
  least = λ b q. h.least b (from b q);
  at_most = h.at_most;
  found = λ b e. let (p, can, at) = h.found b e in (to b p, can, at);
  missed = h.missed;
}

closer-IsBest :
    (size : ℕ) (curr : VariableBlock) (P : VariableBlock → Type 0) (limit : ℕ) (s : Best)
    → IsBest size P limit s
    → IsBest size (λ b. P b ⊎ (b ≡ curr)) limit (closer size curr s)
unfolding closer
closer-IsBest size curr P limit s h =
    elim (Bool-cases (not curr.is_allocated && leb size curr.size && ltb (curr.size - size) s.0)) [
      | inl better ↦ rw better (record {
        least = λ b seen can. elim seen [
          | inl old ↦ ground (arith, better, h.least b old can)
          | inr new ↦ rw new (omega arith)
        ];
        at_most = ground (arith, better, h.at_most);
        found = λ b e.
            let same : curr ≡ b = cc e in
            rw (← same) (
              inr refl,
              record { free = ground (arith, better); room = ground (arith, better) },
              refl,
            );
        missed = λ e. absurd (cc e);
      })
      | inr worse ↦ rw worse (record {
        least = λ b seen can. elim seen [
          | inl old ↦ h.least b old can
          | inr new ↦
              let free = ap (λ (x : VariableBlock). x.is_allocated) new in
              let same = ap (λ (x : VariableBlock). x.size) new in
              ground (arith, worse, can.free, can.room, free, same)
        ];
        at_most = h.at_most;
        found = λ b e. let (p, can, at) = h.found b e in (inl p, can, at);
        missed = h.missed;
      })
    ]

pub best_from-IsBest :
    (bs : List VariableBlock) (size : ℕ) (P : VariableBlock → Type 0) (limit : ℕ) (s : Best)
    → IsBest size P limit s
    → IsBest size (λ b. P b ⊎ In b bs) limit (best_from bs size s)
unfolding best_from
best_from-IsBest [] size P limit s h =
    IsBest-iff size P (λ b. P b ⊎ ⊥) limit s (λ b p. inl p)
      (λ b q. elim q [ inl p ↦ p | inr no_ ↦ absurd no_ ]) h
best_from-IsBest (curr ∷ rest) size P limit s h =
    IsBest-iff size (λ b. (P b ⊎ (b ≡ curr)) ⊎ In b rest) (λ b. P b ⊎ ((b ≡ curr) ⊎ In b rest))
      limit (best_from rest size (closer size curr s))
      (λ b q. elim q [
        | inl seen ↦ elim seen [ inl p ↦ inl p | inr e ↦ inr (inl e) ]
        | inr later ↦ inr (inr later)
      ])
      (λ b q. elim q [
        | inl p ↦ inl (inl p)
        | inr later ↦ elim later [ inl e ↦ inl (inr e) | inr l ↦ inr l ]
      ])
      (best_from-IsBest rest size (λ b. P b ⊎ (b ≡ curr)) limit (closer size curr s)
        (closer-IsBest size curr P limit s h))
