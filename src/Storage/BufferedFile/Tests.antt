-- ===== src/Storage/BufferedFile/Tests.antt =====
-- A file of three bytes, and a system whose calls fail.
use os_exploring.Common.{
  ◌≡◌, refl, false, ℕ, suc, ◌+◌, ◌-◌, ◌≤◌, ◌<◌, some, arith, leb, if◌then◌else◌, pos, negsuc,
}
use os_exploring.Storage.BufferedFile.{
  buffer_size, System, Copying, done, running, min_size, to_size, fill_buffer, copy_out, read_round,
  read_loop, with_bytes, buffer_flush, buffer_read, buffer_write, create_buffered_file,
}
use os_exploring.Storage.BufferedFile.Reading.{IsFile, IsBuffered}
use os_exploring.Storage.BufferedFile.Read.{buffer_read-file}
use os_exploring.Storage.BufferedFile.Write.{buffer_write_lost, buffer_write_endless}

-- The system is the offset in the file 10, 11, 12.
abbrev three_bytes : System ℕ
three_bytes = record {
  read = λ fd n os.
      let k = if leb n (3 - os) then n else 3 - os in
      record { got = pos k; bytes = λ i. 10 + (os + i); after = os + k };
  write = λ fd from n os. record { got = pos n; bytes = from; after = os };
}

three_bytes-IsFile : IsFile three_bytes 5 3 (λ i. 10 + i) (λ os. os)
three_bytes-IsFile = record {
  within = λ n os low. ground arith;
  size = λ n os low. (_, refl, ground arith, refl);
  some_bytes = λ n os some_ low. ground arith;
  bytes = λ n i os low. refl;
}

abbrev opened : Copying ℕ
opened = record {
  file = record {
    fd = 5;
    mode = 0;
    buffer = record { buffer_data = λ _. 0; size = 0; position = 0; dirty = false };
  };
  os = 1;
  dest = λ _. 0;
  total = 0;
}

created : create_buffered_file (some (λ _. 0)) 5 0 ≡ some opened.file
unfolding create_buffered_file
created = refl

opened-IsBuffered : IsBuffered 3 (λ i. 10 + i) (λ os. os) 1 opened
opened-IsBuffered = record {
  placed = refl;
  inside = omega arith;
  fits = omega arith;
  same = λ i low. absurd (omega arith);
}

buffer_read-file_example :
    (last : Copying ℕ) × (buffer_read three_bytes opened 9 ≡ done last)
    × (last.total ≡ min_size 9 (3 - 1))
    × ((i : ℕ) → i < last.total → last.dest i ≡ 10 + (1 + i))
    × ((i : ℕ) → last.total ≤ i → last.dest i ≡ 0)
    × IsBuffered 3 (λ i. 10 + i) (λ os. os) (1 + last.total) last
buffer_read-file_example =
    buffer_read-file three_bytes 5 3 (λ i. 10 + i) (λ os. os) three_bytes-IsFile 1 9 opened refl
      refl refl opened-IsBuffered

abbrev broken : System ℕ
broken = record {
  read = λ fd n os. record { got = negsuc 0; bytes = λ _. 0; after = os };
  write = λ fd from n os. record { got = negsuc 0; bytes = from; after = os };
}

-- A read that fails is taken for a buffer of 2^64 - 1 bytes: two bytes are "read" from it.
read_error : (last : Copying ℕ) × (buffer_read broken opened 2 ≡ done last) × (last.total ≡ 2)
unfolding buffer_read read_loop read_round fill_buffer to_size copy_out min_size
read_error = (_, refl, refl)

buffer_write_lost_run :
    (after : Copying ℕ) × (buffer_write three_bytes 1 opened (λ i. i) 3 ≡ done after)
    × (buffer_flush three_bytes after ≡ done after)
    × (after.file.buffer ≡ with_bytes (λ i. i) 0 3 opened.file.buffer)
    × (after.os ≡ 1)
    × (after.total ≡ 3)
buffer_write_lost_run =
    buffer_write_lost three_bytes (λ i. i) opened.file 1 (λ _. 0) 3 0 refl (omega arith)
      (omega arith)

buffer_write_endless_example :
    (after : Copying ℕ) × ((fuel : ℕ)
      → buffer_write three_bytes (suc fuel) opened (λ i. i) 5000 ≡ running after)
    × (buffer_flush three_bytes after ≡ done after)
    × (after.file.buffer ≡ with_bytes (λ i. i) 0 (buffer_size - 0) opened.file.buffer)
    × (after.file.buffer.size ≡ buffer_size)
    × (after.os ≡ 1)
    × (after.total ≡ buffer_size - 0)
buffer_write_endless_example =
    buffer_write_endless three_bytes (λ i. i) opened.file 1 (λ _. 0) 5000 refl (omega arith)
      (omega arith)
