-- ===== src/Storage/BufferedFile/Reading.antt =====
-- What read promises of a regular file, and when a buffer holds what the file holds.
use os_exploring.Common.{ℕ, ◌+◌, ◌-◌, ◌≤◌, ◌<◌, ◌≡◌, pos}
use os_exploring.Storage.BufferedFile.{buffer_size, System, Copying}

-- A file of `length` bytes: `offset` is its offset in a state of the system. A call of read with an
-- offset inside the file brings at least one byte and at most those asked for, from the offset on,
-- and moves it past them; at the end of the file it brings none.
pub record IsFile {Os : Type 0} (system : System Os) (fd length : ℕ) (contents : ℕ → ℕ)
    (offset : Os → ℕ) : Type 0 where
  pub within : (n : ℕ) (os : Os) → offset os ≤ length → offset (system.read fd n os).after ≤ length
  pub size :
      (n : ℕ) (os : Os)
      → offset os ≤ length
      → (k : ℕ) × ((system.read fd n os).got ≡ pos k)
        × (k ≤ n)
        × (offset (system.read fd n os).after ≡ offset os + k)
  pub some_bytes :
      (n : ℕ) (os : Os)
      → 0 < n
      → offset os < length
      → offset os < offset (system.read fd n os).after
  pub bytes :
      (n i : ℕ) (os : Os)
      → offset os + i < offset (system.read fd n os).after
      → (system.read fd n os).bytes i ≡ contents (offset os + i)

-- The bytes that the buffer has and the caller has not.
abbrev pub unread : {Os : Type 0} → Copying Os → ℕ
unread st = st.file.buffer.size - st.file.buffer.position

-- Where the caller is in the file: behind the system, by what is unread.
pub record IsBuffered {Os : Type 0} (length : ℕ) (contents : ℕ → ℕ) (offset : Os → ℕ) (place : ℕ)
    (st : Copying Os) : Type 0 where
  pub placed : place + unread st ≡ offset st.os
  pub inside : offset st.os ≤ length
  pub fits : st.file.buffer.size ≤ buffer_size
  pub same :
      (i : ℕ)
      → i < unread st
      → st.file.buffer.buffer_data (st.file.buffer.position + i) ≡ contents (place + i)
