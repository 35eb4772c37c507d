-- ===== src/Storage/BufferedFile.antt =====
-- buffering_system.c: a file descriptor with a buffer of 4096 bytes.
-- read and write are calls of the system: a state of the system and two functions that stand for them.
mod Reading
pub mod Read
pub mod Write
mod Tests
use os_exploring.Common.{
  ℕ, zero, suc, ◌+◌, ◌-◌, ◌^◌, Bool, true, false, Option, none, some, ltb, leb, ◌==◌, not,
  if◌then◌else◌, ℤ, pos, negsuc, pos_part, write_range,
}

abbrev pub buffer_size : ℕ
buffer_size = 4096

-- O_RDONLY of fcntl.h.
abbrev pub o_rdonly : ℕ
o_rdonly = 0

pub record Buffer : Type 0 where
  pub buffer_data : ℕ → ℕ
  pub size : ℕ
  pub position : ℕ
  pub dirty : Bool

pub record BufferedFile : Type 0 where
  pub fd : ℕ
  pub buffer : Buffer
  pub mode : ℕ

-- What read or write returns, the bytes that read brings, and the system afterwards.
pub record Transfer (Os : Type 0) : Type 0 where
  pub got : ℤ
  pub bytes : ℕ → ℕ
  pub after : Os

pub record System (Os : Type 0) : Type 0 where
  pub read : ℕ → ℕ → Os → Transfer Os
  pub write : ℕ → (ℕ → ℕ) → ℕ → Os → Transfer Os

-- `some` is memory that malloc has given, with what it holds.
unfoldable pub create_buffered_file : Option (ℕ → ℕ) → ℕ → ℕ → Option BufferedFile
create_buffered_file none fd mode = none
create_buffered_file (some memory) fd mode = some (record {
  fd = fd;
  mode = mode;
  buffer = record { buffer_data = memory; size = 0; position = 0; dirty = false };
})

-- An ssize_t that is stored in a size_t.
unfoldable pub to_size : ℤ → ℕ
to_size (pos n) = n
to_size (negsuc n) = 2 ^ 64 - 1 - n

unfoldable pub min_size : ℕ → ℕ → ℕ
min_size left available = if ltb left available then left else available

-- A call of buffer_read or buffer_write on its way.
pub record Copying (Os : Type 0) : Type 0 where
  pub file : BufferedFile
  pub os : Os
  pub dest : ℕ → ℕ
  pub total : ℕ

-- `overrun` copies past the end of the buffer's array; `running` is a loop that has not ended, with
-- the state that it has reached.
pub data Outcome (Os : Type 0) : Type 0 where
  failed : Copying Os → Outcome Os
  done : Copying Os → Outcome Os
  overrun : Outcome Os
  running : Copying Os → Outcome Os

pub data Round (Os : Type 0) : Type 0 where
  leave : Outcome Os → Round Os
  again : Copying Os → Round Os

-- BUFFER_SIZE - size in a size_t.
unfoldable pub room_of : ℕ → ℕ
room_of size = if leb size buffer_size then buffer_size - size else 2 ^ 64 + buffer_size - size

-- The buffer after `to_copy` bytes of `src` from `total` on.
abbrev pub with_bytes : (ℕ → ℕ) → ℕ → ℕ → Buffer → Buffer
with_bytes src total to_copy b = record b {
  buffer_data = write_range (λ i _. src (total + (i - b.size))) to_copy b.size b.buffer_data;
  size = b.size + to_copy;
  dirty = true;
}

abbrev pub at_position : {Os : Type 0} → ℕ → Copying Os → Copying Os
at_position p st = record st {
  file = record st.file { buffer = record st.file.buffer { position = p } };
}

module _ {Os : Type 0} (system : System Os) where
  -- The call of read that fills the buffer; one that fails leaves the bytes as they are.
  unfoldable pub fill_buffer : Copying Os → Copying Os
  unfolding to_size
  fill_buffer st =
      let t = system.read st.file.fd buffer_size st.os in
      record st {
        file = record st.file {
          buffer = record st.file.buffer {
            buffer_data =
                λ i. if ltb i (pos_part t.got) then t.bytes i else st.file.buffer.buffer_data i;
            size = to_size t.got;
          };
        };
        os = t.after;
      }

  -- memcpy to the destination, and the two counters.
  unfoldable pub copy_out : ℕ → Copying Os → Round Os
  copy_out count st =
      let b = st.file.buffer in
      let to_copy = min_size (count - st.total) (b.size - b.position) in
      if leb (b.position + to_copy) buffer_size
      then again (record st {
        dest =
            write_range (λ i _. b.buffer_data (b.position + (i - st.total))) to_copy st.total
              st.dest;
        file = record st.file { buffer = record b { position = b.position + to_copy } };
        total = st.total + to_copy;
      })
      else leave overrun

  -- A round of the loop of buffer_read.
  unfoldable pub read_round : ℕ → Copying Os → Round Os
  read_round count st =
      if leb st.file.buffer.size st.file.buffer.position
      then (let full = fill_buffer st in
          if full.file.buffer.size == 0
          then leave (done full)
          else copy_out count (at_position 0 full))
      else copy_out count st

  unfoldable pub read_loop : ℕ → ℕ → Copying Os → Outcome Os
  read_loop zero count st = if ltb st.total count then running st else done st
  read_loop (suc fuel) count st =
      if ltb st.total count
      then elim (read_round count st) [ leave o ↦ o | again next ↦ read_loop fuel count next ]
      else done st

  -- A round copies a byte at least, so there are at most `count`.
  unfoldable pub buffer_read : Copying Os → ℕ → Outcome Os
  unfolding read_loop
  buffer_read st count =
      if not (st.file.mode == o_rdonly) then failed st else read_loop count count st

  -- With the flag set nothing is written; otherwise the call of write, and an empty buffer.
  unfoldable pub buffer_flush : Copying Os → Outcome Os
  buffer_flush st =
      let b = st.file.buffer in
      let t = system.write st.file.fd b.buffer_data b.size st.os in
      if b.dirty then done st else elim t.got [
        | negsuc n ↦ failed (record st { os = t.after })
        | pos n ↦ done (record st {
          file = record st.file { buffer = record b { size = 0; position = 0; dirty = false } };
          os = t.after;
        })
      ]

  -- memcpy to the buffer, and the counters.
  unfoldable pub copy_in : (ℕ → ℕ) → ℕ → Copying Os → Round Os
  copy_in src count st =
      let to_copy = min_size (count - st.total) (room_of st.file.buffer.size) in
      if leb (st.file.buffer.size + to_copy) buffer_size
      then again (record st {
        file = record st.file { buffer = with_bytes src st.total to_copy st.file.buffer };
        total = st.total + to_copy;
      })
      else leave overrun

  -- A round of the loop of buffer_write.
  unfoldable pub write_round : (ℕ → ℕ) → ℕ → Copying Os → Round Os
  write_round src count st =
      if leb buffer_size st.file.buffer.size
      then elim (buffer_flush st) [
        | done flushed ↦ copy_in src count flushed
        | failed flushed ↦ leave (failed flushed)
        | overrun ↦ leave overrun
        | running flushed ↦ leave (running flushed)
      ]
      else copy_in src count st

  unfoldable pub write_loop : ℕ → (ℕ → ℕ) → ℕ → Copying Os → Outcome Os
  write_loop zero src count st = if ltb st.total count then running st else done st
  write_loop (suc fuel) src count st =
      if ltb st.total count
      then elim (write_round src count st) [
        | leave o ↦ o
        | again next ↦ write_loop fuel src count next
      ]
      else done st

  -- The guard is the source's: only a file that is open for reading passes.
  unfoldable pub buffer_write : ℕ → Copying Os → (ℕ → ℕ) → ℕ → Outcome Os
  buffer_write fuel st src count =
      if not (st.file.mode == o_rdonly) then failed st else write_loop fuel src count st
