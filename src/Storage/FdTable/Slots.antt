-- ===== src/Storage/FdTable/Slots.antt =====
-- The slots that are taken, and the count of them.
use os_exploring.Common.{
  ℕ, ◌<◌, ◌≡◌, ◌≢◌, refl, ap, fun_ext, inl, inr, Bool, true, false, not, Option, some, arith, ℤ,
  pos, ◌+ℤ◌, ◌-ℤ◌, ◌≤ℤ◌, int_laws, leb_ℤ, eqb_ℤ, eqb_ℤ_iff, ltb, Bool-cases, Option-cases, update,
  update_self, find_range, find_range-some, find_range_first, find_range-none, count_range,
  count_range-ext, count_range-update, +ℤ_-ℤ_cancel,
}
use os_exploring.Storage.FdTable.{max_fd, no_fd, FdTable, fd_table_add, take_fd, fd_table_remove}

abbrev pub is_open : FdTable → ℕ → Bool
is_open t i = not (eqb_ℤ (t.fd_arr i) no_fd)

-- `count` is the number of slots that are taken.
pub record IsCounted (t : FdTable) : Type 0 where
  pub counted : t.count ≡ pos (count_range max_fd (is_open t))

-- The table after a descriptor was put into slot `i`.
abbrev pub with_fd : FdTable → ℕ → ℤ → FdTable
with_fd t i fd = record { fd_arr = update t.fd_arr i fd; count = t.count +ℤ pos 1 }

with_fd-IsCounted :
    (t : FdTable) (i : ℕ) (fd : ℤ)
    → i < max_fd
    → t.fd_arr i ≡ no_fd
    → pos 0 ≤ℤ fd
    → IsCounted t
    → IsCounted (with_fd t i fd)
with_fd-IsCounted t i fd below free good h =
    let closed : is_open t i ≡ false = rw free refl in
    let more = count_range-update max_fd (is_open t) i below closed in
    let same =
      count_range-ext max_fd (is_open (with_fd t i fd)) (update (is_open t) i true)
        (λ k l. ground (arith, good)) in
    record { counted = rw (same, more, h.counted) (omega int_laws) }

-- What adding a descriptor that is not negative does.
pub data Added (t : FdTable) (fd : ℤ) : ℤ × Option FdTable → Type 0 where
  refused : pos max_fd ≤ℤ fd → Added t fd (no_fd, some t)
  full : ((i : ℕ) → i < max_fd → t.fd_arr i ≢ no_fd) → Added t fd (no_fd, some t)
  added :
      (i : ℕ)
      → i < max_fd
      → t.fd_arr i ≡ no_fd
      → ((k : ℕ) → k < i → t.fd_arr k ≢ no_fd)
      → IsCounted (with_fd t i fd)
      → Added t fd (pos i, some (with_fd t i fd))

-- A descriptor that is not negative is refused if it is too large or all slots are taken, and the
-- table stays as it is; else it goes into the first free slot, whose index is returned, and the count
-- stays right.
pub fd_table_add-Added :
    (t : FdTable) (fd : ℤ) → pos 0 ≤ℤ fd → IsCounted t → Added t fd (fd_table_add (some t) fd)
unfolding fd_table_add
fd_table_add-Added t fd good h = elim (Bool-cases (leb_ℤ (pos max_fd) fd)) [
  | inl large ↦ rw large (refused (ground (arith, large)))
  | inr small ↦
      let test : ℕ → Bool = λ i. eqb_ℤ (t.fd_arr i) no_fd in
      elim (Option-cases (find_range max_fd 0 test)) [
        | inl nothing ↦
            rw (small, nothing)
              (full (λ i l e.
                let miss = find_range-none max_fd 0 test i nothing (omega arith) (omega arith) in
                absurd (cc (miss, (eqb_ℤ_iff (t.fd_arr i) no_fd).1 e))))
        | inr (i, found) ↦
            let (_, below, hit) = find_range-some max_fd 0 test i found in
            let free = (eqb_ℤ_iff (t.fd_arr i) no_fd).0 hit in
            rw (small, found)
              (added i (omega arith) free
                (λ k l e.
                  let miss = find_range_first max_fd 0 test i k found (omega arith) l in
                  absurd (cc (miss, (eqb_ℤ_iff (t.fd_arr k) no_fd).1 e)))
                (with_fd-IsCounted t i fd (omega arith) free good h))
      ]
]

fd_table_remove-with_fd :
    (t : FdTable) (i : ℕ) (fd : ℤ)
    → i < max_fd
    → t.fd_arr i ≡ no_fd
    → pos 0 ≤ℤ fd
    → fd_table_remove (some (with_fd t i fd)) (pos i) ≡ (fd, some t)
unfolding fd_table_remove take_fd
fd_table_remove-with_fd t i fd below free good =
    let low : ltb i max_fd ≡ true = ground arith in
    let self = update_self t.fd_arr i fd in
    let open_ : eqb_ℤ fd no_fd ≡ false = ground (arith, good) in
    let slots : update (update t.fd_arr i fd) i no_fd ≡ t.fd_arr =
      fun_ext (λ k. ground (arith, free)) in
    let count : t.count +ℤ pos 1 -ℤ pos 1 ≡ t.count = +ℤ_-ℤ_cancel t.count (pos 1) in
    rw (low, self, open_, slots, count) refl

Added-slot :
    (t : FdTable) (fd : ℤ) (r : ℤ × Option FdTable) (i : ℕ) (now : Option FdTable)
    → Added t fd r
    → r ≡ (pos i, now)
    → (i < max_fd) × (t.fd_arr i ≡ no_fd) × (now ≡ some (with_fd t i fd))
Added-slot t fd r i now (refused large) e = absurd (cc (ap (λ (x : ℤ × Option FdTable). x.0) e))
Added-slot t fd r i now (full all) e = absurd (cc (ap (λ (x : ℤ × Option FdTable). x.0) e))
Added-slot t fd r i now (added j below free first counted) e =
    let same : j ≡ i = cc (ap (λ (x : ℤ × Option FdTable). x.0) e) in
    let table : some (with_fd t j fd) ≡ now = ap (λ (x : ℤ × Option FdTable). x.1) e in
    rw (← same, ← table) (below, free, refl)

-- If a descriptor that is not negative was put into a slot, taking it out again returns it and leaves
-- the table as it was.
pub fd_table_remove-fd_table_add :
    (t : FdTable) (fd : ℤ) (i : ℕ) (now : Option FdTable)
    → pos 0 ≤ℤ fd
    → IsCounted t
    → fd_table_add (some t) fd ≡ (pos i, now)
    → fd_table_remove now (pos i) ≡ (fd, some t)
fd_table_remove-fd_table_add t fd i now good h e =
    let (below, free, table) =
      Added-slot t fd (fd_table_add (some t) fd) i now (fd_table_add-Added t fd good h) e in
    rw table (fd_table_remove-with_fd t i fd below free good)
