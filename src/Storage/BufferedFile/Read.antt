-- ===== src/Storage/BufferedFile/Read.antt =====
-- buffer_read reads as if there were no buffer.
use os_exploring.Common.{
  pos_part, ◌≡◌, refl, sym, ◌∙◌, subst, ◌⊎◌, ap, inl, inr, ℕ, zero, suc, ◌+◌, ◌-◌, ◌≤◌, ◌<◌, true,
  false, not, ◌==◌, arith, ltb, leb, Bool-cases, write_range, write_range_lem, dec_lt,
}
use os_exploring.Storage.BufferedFile.Reading.{IsFile, unread, IsBuffered}
use os_exploring.Storage.BufferedFile.{
  buffer_size, o_rdonly, System, Copying, done, leave, again, min_size, to_size, fill_buffer,
  at_position, copy_out, read_round, read_loop, buffer_read,
}

module _ {Os : Type 0} (system : System Os) (fd length : ℕ) (contents : ℕ → ℕ) (offset : Os → ℕ)
    (regular : IsFile system fd length contents offset) where
  -- The caller at `place` has got `total` bytes, those of the file from `place - total` on.
  record IsReading (start : ℕ) (dest : ℕ → ℕ) (st : Copying Os) : Type 0 where
    buffered : IsBuffered length contents offset (start + st.total) st
    descriptor : st.file.fd ≡ fd
    got : (i : ℕ) → i < st.total → st.dest i ≡ contents (start + i)
    kept : (i : ℕ) → st.total ≤ i → st.dest i ≡ dest i

  -- The call after a copy of `n` bytes.
  abbrev handed_out : ℕ → Copying Os → Copying Os
  handed_out n st = record st {
    dest =
        write_range (λ i _. st.file.buffer.buffer_data (st.file.buffer.position + (i - st.total))) n
          st.total st.dest;
    file = record st.file {
      buffer = record st.file.buffer { position = st.file.buffer.position + n };
    };
    total = st.total + n;
  }

  handed_out-IsReading :
      (start n : ℕ) (dest : ℕ → ℕ) (st : Copying Os)
      → IsReading start dest st
      → n ≤ unread st
      → IsReading start dest (handed_out n st)
  handed_out-IsReading start n dest st r few =
      let from = st.file.buffer.buffer_data in
      let at = st.file.buffer.position in
      let b = r.buffered in
      let written = write_range_lem (λ i _. from (at + (i - st.total))) n st.total st.dest in
      record {
        buffered = record {
          placed = omega (arith, b.placed, few);
          inside = b.inside;
          fits = b.fits;
          same = λ i low.
              let there : at + n + i ≡ at + (n + i) = omega arith in
              let place : start + st.total + (n + i) ≡ start + (st.total + n) + i = omega arith in
              ap from there ∙ b.same (n + i) (omega arith) ∙ ap contents place;
        };
        descriptor = r.descriptor;
        got = λ i low. elim (dec_lt i st.total) [
          | yes before ↦ ground (arith, written i, r.got i before)
          | no later ↦
              let place : start + st.total + (i - st.total) ≡ start + i = omega arith in
              let copied = b.same (i - st.total) (omega arith) ∙ ap contents place in
              ground (arith, written i, copied)
        ];
        kept = λ i high. ground (arith, written i, r.kept i (omega arith));
      }

  min_size-bounds :
      (a b : ℕ) → 0 < a → 0 < b → (0 < min_size a b) × (min_size a b ≤ a) × (min_size a b ≤ b)
  unfolding min_size
  min_size-bounds a b some_a some_b = (ground arith, ground arith, ground arith)

  -- A copy of some of the unread bytes.
  copy_out-IsReading :
      (start count : ℕ) (dest : ℕ → ℕ) (st : Copying Os)
      → IsReading start dest st
      → st.total < count
      → 0 < unread st
      → (next : Copying Os) × (copy_out system count st ≡ again next)
        × IsReading start dest next
        × (st.total < next.total)
        × (next.total ≤ count)
  unfolding copy_out
  copy_out-IsReading start count dest st r more some_ =
      let n = min_size (count - st.total) (unread st) in
      let (pos_, few, low) = min_size-bounds (count - st.total) (unread st) (omega arith) some_ in
      let b = r.buffered in
      let fits : leb (st.file.buffer.position + n) buffer_size ≡ true =
        ground (arith, b.fits, low, some_) in
      (
        handed_out n st,
        rw fits refl,
        handed_out-IsReading start n dest st r low,
        omega (arith, pos_),
        omega (arith, few, more),
      )

  -- The buffer that read fills, whose first byte is the next of the file.
  fill_buffer-IsReading :
      (start p : ℕ) (dest : ℕ → ℕ) (st : Copying Os)
      → IsReading start dest st
      → unread st ≡ 0
      → ((p ≡ 0) ⊎ ((fill_buffer system st).file.buffer.size ≡ 0))
      → IsReading start dest (at_position p (fill_buffer system st))
  unfolding fill_buffer to_size
  fill_buffer-IsReading start p dest st r none_ first =
      let file = subst (λ f. IsFile system f length contents offset) (sym r.descriptor) regular in
      let b = r.buffered in
      let n = buffer_size in
      let (k, size, few, moved) = file.size n st.os b.inside in
      let got : to_size (system.read st.file.fd n st.os).got ≡ k = rw size refl in
      let taken : pos_part (system.read st.file.fd n st.os).got ≡ k = rw size refl in
      let here : start + st.total ≡ offset st.os = omega (arith, b.placed, none_) in
      record {
        buffered = record {
          placed = ground (arith, here, moved, got, first);
          inside = file.within n st.os b.inside;
          fits = omega (arith, got, few);
          same = λ i low.
              let read_ = file.bytes n i st.os (ground (arith, moved, got, low)) in
              let at_start : p + i ≡ i = ground (arith, first, got, low) in
              let has : ltb (p + i) (pos_part (system.read st.file.fd n st.os).got) ≡ true =
                ground (arith, low, got, taken) in
              rw (has, at_start) (read_ ∙ ap (λ j. contents (j + i)) (sym here));
        };
        descriptor = r.descriptor;
        got = r.got;
        kept = r.kept;
      }

  -- What a call of buffer_read leaves: the bytes of the file that were asked for, as far as the file
  -- goes, and the caller behind them.
  record HasRead (start count : ℕ) (dest : ℕ → ℕ) (st : Copying Os) : Type 0 where
    reading : IsReading start dest st
    enough : (st.total ≡ count) ⊎ ((st.total < count) × (start + st.total ≡ length))

  fill_buffer-total : (st : Copying Os) → (fill_buffer system st).total ≡ st.total
  unfolding fill_buffer
  fill_buffer-total st = refl

  -- A read that brings nothing is at the end of the file.
  fill_buffer-HasRead :
      (start count : ℕ) (dest : ℕ → ℕ) (st : Copying Os)
      → IsReading start dest st
      → st.total < count
      → unread st ≡ 0
      → (fill_buffer system st).file.buffer.size ≡ 0
      → HasRead start count dest (fill_buffer system st)
  unfolding fill_buffer to_size
  fill_buffer-HasRead start count dest st r more none_ at_end =
      let file = subst (λ f. IsFile system f length contents offset) (sym r.descriptor) regular in
      let b = r.buffered in
      let (k, size, few, moved) = file.size buffer_size st.os b.inside in
      let got : to_size (system.read st.file.fd buffer_size st.os).got ≡ k = rw size refl in
      let last : start + st.total ≡ length = elim (dec_lt (offset st.os) length) [
        | yes on ↦
            let grows = file.some_bytes buffer_size st.os (omega arith) on in
            absurd (ground (arith, grows, moved, got, at_end))
        | no off ↦ omega (arith, b.placed, none_, b.inside)
      ] in
      record {
        reading = fill_buffer-IsReading start st.file.buffer.position dest st r none_ (inr at_end);
        enough = inr (more, last);
      }

  read_round-IsReading :
      (start count : ℕ) (dest : ℕ → ℕ) (st : Copying Os)
      → IsReading start dest st
      → st.total < count
      → ((next : Copying Os) × (read_round system count st ≡ again next)
          × IsReading start dest next
          × (st.total < next.total)
          × (next.total ≤ count))
        ⊎ ((last : Copying Os) × (read_round system count st ≡ leave (done last))
            × HasRead start count dest last)
  unfolding read_round
  read_round-IsReading start count dest st r more =
      elim (Bool-cases (leb st.file.buffer.size st.file.buffer.position)) [
        | inr has ↦
            let (next, e, reading, on, most) =
              copy_out-IsReading start count dest st r more (ground (arith, has)) in
            inl (next, rw has e, reading, on, most)
        | inl empty ↦
            let none_ : unread st ≡ 0 = ground (arith, empty) in
            let full = fill_buffer system st in
            elim (Bool-cases (full.file.buffer.size == 0)) [
              | inl at_end ↦
                  let last = fill_buffer-HasRead start count dest st r more none_ (ground arith) in
                  inr (full, rw (empty, at_end) refl, last)
              | inr some_ ↦
                  let (next, e, reading, on, most) =
                    copy_out-IsReading start count dest (at_position 0 full)
                      (fill_buffer-IsReading start 0 dest st r none_ (inl refl))
                      (omega (arith, more, fill_buffer-total st)) (ground (arith, some_)) in
                  inl (
                    next,
                    rw (empty, some_) e,
                    reading,
                    omega (arith, on, fill_buffer-total st),
                    most,
                  )
            ]
      ]

  read_loop-HasRead :
      (fuel start count : ℕ) (dest : ℕ → ℕ) (st : Copying Os)
      → IsReading start dest st
      → st.total ≤ count
      → count ≤ st.total + fuel
      → (last : Copying Os) × (read_loop system fuel count st ≡ done last)
        × HasRead start count dest last
  unfolding read_loop
  read_loop-HasRead zero start count dest st r within enough =
      let all : ltb st.total count ≡ false = ground arith in
      (st, rw all refl, record { reading = r; enough = inl (omega arith) })
  read_loop-HasRead (suc fuel) start count dest st r within enough =
      elim (Bool-cases (ltb st.total count)) [
        | inr all ↦ (st, rw all refl, record { reading = r; enough = inl (ground (arith, all)) })
        | inl more ↦ elim (read_round-IsReading start count dest st r (ground (arith, more))) [
          | inr (last, e, read) ↦ (last, rw (more, e) refl, read)
          | inl (next, e, reading, on, most) ↦
              let (last, ended, read) =
                read_loop-HasRead fuel start count dest next reading most (omega arith) in
              (last, rw (more, e) ended, read)
        ]
      ]

  -- From any place in a regular file that is open for reading, with a buffer that holds what follows,
  -- buffer_read returns the number of bytes that were asked for, or those up to the end of the file
  -- if these are fewer; it puts the bytes of the file from that place on into the destination, leaves the rest of
  -- it alone, and the caller stands behind them, with a buffer that again holds what follows.
  pub buffer_read-file :
      (start count : ℕ) (st : Copying Os)
      → st.file.mode ≡ o_rdonly
      → st.file.fd ≡ fd
      → st.total ≡ 0
      → IsBuffered length contents offset start st
      → (last : Copying Os) × (buffer_read system st count ≡ done last)
        × (last.total ≡ min_size count (length - start))
        × ((i : ℕ) → i < last.total → last.dest i ≡ contents (start + i))
        × ((i : ℕ) → last.total ≤ i → last.dest i ≡ st.dest i)
        × IsBuffered length contents offset (start + last.total) last
  unfolding buffer_read min_size
  buffer_read-file start count st mode fd_ none_ buffered =
      let read_only : not (st.file.mode == o_rdonly) ≡ false = ground arith in
      let here : start + st.total ≡ start = omega arith in
      let reading : IsReading start st.dest st = record {
        buffered = rw here buffered;
        descriptor = fd_;
        got = λ i low. absurd (omega arith);
        kept = λ i high. refl;
      } in
      let (last, e, read) =
        read_loop-HasRead count start count st.dest st reading (omega arith) (omega arith) in
      let b = read.reading.buffered in
      let end_ : start + last.total ≤ length = omega (arith, b.placed, b.inside) in
      (
        last,
        rw read_only e,
        ground (arith, read.enough, end_),
        read.reading.got,
        read.reading.kept,
        b,
      )
