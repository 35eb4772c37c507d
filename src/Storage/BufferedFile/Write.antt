-- ===== src/Storage/BufferedFile/Write.antt =====
-- buffer_write and buffer_flush: what is written stays in the buffer.
use os_exploring.Common.{
  ◌≡◌, refl, sym, ap, Bool, for_range, ℕ, zero, suc, ◌+◌, ◌-◌, ◌≤◌, ◌<◌, true, false, not, ◌==◌,
  arith, ltb, leb,
}
use os_exploring.Storage.BufferedFile.{
  buffer_size, o_rdonly, BufferedFile, System, Copying, done, running, again, min_size,
  buffer_flush, room_of, copy_in, with_bytes, write_round, write_loop, buffer_write,
}

module _ {Os : Type 0} (system : System Os) (src : ℕ → ℕ) where
  -- The call after a copy of `n` bytes.
  abbrev copied : ℕ → Copying Os → Copying Os
  copied n st = record st {
    file = record st.file { buffer = with_bytes src st.total n st.file.buffer };
    total = st.total + n;
  }

  copy_in_lem :
      (count n : ℕ) (st : Copying Os)
      → min_size (count - st.total) (room_of st.file.buffer.size) ≡ n
      → st.file.buffer.size + n ≤ buffer_size
      → copy_in system src count st ≡ again (copied n st)
  unfolding copy_in
  copy_in_lem count n st all fits =
      let fits_ : leb (st.file.buffer.size + n) buffer_size ≡ true = ground arith in
      rw (all, fits_) refl

  -- Of what is left, a copy takes what there is room for.
  copy_in-all :
      (count : ℕ) (st : Copying Os)
      → st.file.buffer.size + (count - st.total) ≤ buffer_size
      → copy_in system src count st ≡ again (copied (count - st.total) st)
  unfolding min_size room_of
  copy_in-all count st fits = copy_in_lem count (count - st.total) st (ground arith) (omega arith)

  copy_in-part :
      (count : ℕ) (st : Copying Os)
      → st.file.buffer.size ≤ buffer_size
      → buffer_size ≤ st.file.buffer.size + (count - st.total)
      → copy_in system src count st ≡ again (copied (buffer_size - st.file.buffer.size) st)
  unfolding min_size room_of
  copy_in-part count st size part =
      copy_in_lem count (buffer_size - st.file.buffer.size) st (ground arith) (omega arith)

  write_loop-done :
      (fuel count : ℕ) (st : Copying Os)
      → count ≤ st.total
      → write_loop system fuel src count st ≡ done st
  unfolding write_loop
  write_loop-done zero count st enough = ground arith
  write_loop-done (suc fuel) count st enough =
      let no_more : ltb st.total count ≡ false = ground arith in rw no_more refl

  -- Bytes that fit are copied behind those that the buffer has; a flush then reports success and does
  -- nothing, so none of them reaches the system.
  pub buffer_write_lost :
      (file : BufferedFile) (os : Os) (dest : ℕ → ℕ) (count fuel : ℕ)
      → file.mode ≡ o_rdonly
      → 0 < count
      → file.buffer.size + count ≤ buffer_size
      → (after : Copying Os) × (buffer_write system
            (suc fuel)
            (record { file = file; os = os; dest = dest; total = 0 })
            src
            count
          ≡ done after)
        × (buffer_flush system after ≡ done after)
        × (after.file.buffer ≡ with_bytes src 0 count file.buffer)
        × (after.os ≡ os)
        × (after.total ≡ count)
  unfolding buffer_write write_loop write_round buffer_flush
  buffer_write_lost file os dest count fuel mode some_ fits =
      let st : Copying Os = record { file = file; os = os; dest = dest; total = 0 } in
      let all_in = copy_in-all count st (omega arith) in
      let read_only : not (file.mode == o_rdonly) ≡ false = ground arith in
      let room : leb buffer_size file.buffer.size ≡ false = ground arith in
      let more : ltb 0 count ≡ true = ground arith in
      let all : count - 0 ≡ count = omega arith in
      let next = copied (count - 0) st in
      let ended = write_loop-done fuel count next (omega arith) in
      (next, rw (read_only, more, room, all_in, ended) refl, refl, rw all refl, refl, omega arith)

  buffer_flush-dirty :
      (st : Copying Os) → st.file.buffer.dirty ≡ true → buffer_flush system st ≡ done st
  unfolding buffer_flush
  buffer_flush-dirty st dirty = simp dirty

  copied-none : (st : Copying Os) → st.file.buffer.dirty ≡ true → copied 0 st ≡ st
  unfolding for_range
  copied-none st dirty =
      let same_size : st.file.buffer.size + 0 ≡ st.file.buffer.size = omega arith in
      let same_total : st.total + 0 ≡ st.total = omega arith in
      rw (same_size, same_total)
        (ap
          (λ (flag : Bool). record st {
            file = record st.file { buffer = record st.file.buffer { dirty = flag } };
          })
          (sym dirty))

  -- With a full buffer whose flag is set, a round leaves everything as it is.
  write_round-stuck :
      (count : ℕ) (st : Copying Os)
      → st.file.buffer.size ≡ buffer_size
      → st.file.buffer.dirty ≡ true
      → write_round system src count st ≡ again st
  unfolding write_round
  write_round-stuck count st full dirty =
      let fits : leb buffer_size st.file.buffer.size ≡ true = ground arith in
      let none_ : buffer_size - st.file.buffer.size ≡ 0 = omega arith in
      let part = copy_in-part count st (omega arith) (omega arith) in
      rw (fits, buffer_flush-dirty st dirty, part, none_, copied-none st dirty) refl

  write_loop-stuck :
      (fuel count : ℕ) (st : Copying Os)
      → st.file.buffer.size ≡ buffer_size
      → st.file.buffer.dirty ≡ true
      → st.total < count
      → write_loop system fuel src count st ≡ running st
  unfolding write_loop
  write_loop-stuck zero count st full dirty less = ground (arith, less)
  write_loop-stuck (suc fuel) count st full dirty less =
      let rest = write_loop-stuck fuel count st full dirty less in
      let more : ltb st.total count ≡ true = ground (arith, less) in
      rw (more, write_round-stuck count st full dirty) rest

  -- Bytes that do not fit into a buffer that is not full, in a file that is open for reading: from the
  -- first round on, however many rounds the loop runs, it has not ended and stands in the same state.
  -- The buffer is full, with the first of the bytes behind those it had, its flag is set, no byte has
  -- reached the system, only as many are counted as had room, and a flush reports success and does
  -- nothing.
  pub buffer_write_endless :
      (file : BufferedFile) (os : Os) (dest : ℕ → ℕ) (count : ℕ)
      → file.mode ≡ o_rdonly
      → file.buffer.size < buffer_size
      → buffer_size < file.buffer.size + count
      → (after : Copying Os) × ((fuel : ℕ)
          → buffer_write system
              (suc fuel)
              (record { file = file; os = os; dest = dest; total = 0 })
              src
              count
            ≡ running after)
        × (buffer_flush system after ≡ done after)
        × (after.file.buffer ≡ with_bytes src 0 (buffer_size - file.buffer.size) file.buffer)
        × (after.file.buffer.size ≡ buffer_size)
        × (after.os ≡ os)
        × (after.total ≡ buffer_size - file.buffer.size)
  unfolding buffer_write write_loop write_round buffer_flush
  buffer_write_endless file os dest count mode room large =
      let st : Copying Os = record { file = file; os = os; dest = dest; total = 0 } in
      let more : ltb 0 count ≡ true = ground arith in
      let read_only : not (file.mode == o_rdonly) ≡ false = ground arith in
      let free : leb buffer_size file.buffer.size ≡ false = ground arith in
      let part = copy_in-part count st (omega arith) (omega arith) in
      let after = copied (buffer_size - file.buffer.size) st in
      let full : after.file.buffer.size ≡ buffer_size = omega arith in
      (
        after,
        λ fuel.
            rw (read_only, more, free, part)
              (write_loop-stuck fuel count after full refl (omega arith)),
        refl,
        refl,
        full,
        refl,
        omega arith,
      )
