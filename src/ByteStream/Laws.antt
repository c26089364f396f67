-- ===== src/ByteStream/Laws.antt =====
-- The operations of libsponge/byte_stream.cc one by one.
use csed353_tcp.Prelude.{
  ℕ, ◌-◌, ◌≤◌, ◌<◌, ◌≡◌, ◌++◌, true, min, arith, Bytes, length, take, drop, length-append,
  length-take, take_all, length-drop, take-append-drop, add64, u64_mod,
}
use csed353_tcp.ByteStream.{
  ByteStream, init, write, read, peek_output, pop_output, buffer_size, remaining_capacity, eof,
  buffer_empty,
}

-- What holds between calls: the buffer is within the capacity, and the counters differ by what it holds.
pub record IsValid (s : ByteStream) : Type 0 where
  pub within : length s.content ≤ s.max
  pub word : s.max < u64_mod
  pub balance : s.alwritten ≡ add64 s.alread (length s.content)

pub init-IsValid : (capacity : ℕ) → capacity < u64_mod → IsValid (init capacity)
unfolding init
init-IsValid capacity h = ground arith

pub remaining_capacity_lem :
    {s : ByteStream} → IsValid s → remaining_capacity s ≡ s.max - length s.content
unfolding remaining_capacity
remaining_capacity_lem v = omega arith

-- On a valid stream a write takes the longest prefix of the bytes for which there is room, puts it at
-- the end of the buffer, counts it and returns its length; nothing else changes.
pub write_lem :
    {s : ByteStream} (bytes : Bytes)
    → IsValid s
    → let (t, n) = write s bytes in
      let fits : ℕ = min (length bytes) (remaining_capacity s) in
      (n ≡ fits)
      × (t.content ≡ s.content ++ take fits bytes)
      × (t.alwritten ≡ add64 s.alwritten fits)
      × (t.alread ≡ s.alread)
      × (t.max ≡ s.max)
      × (t.end ≡ s.end)
      × (t.error_flag ≡ s.error_flag)
unfolding write
write_lem {s} bytes v = ground arith

pub write-IsValid : {s : ByteStream} (bytes : Bytes) → IsValid s → IsValid (write s bytes).0
unfolding remaining_capacity
write-IsValid {s} bytes v =
    let fits : ℕ = min (length bytes) (remaining_capacity s) in
    ground
      (arith, write_lem bytes v, length-append s.content (take fits bytes), length-take fits bytes)

-- A read returns what a peek of the same length shows, and leaves the stream that a pop of the same
-- length leaves: the front of the buffer, as long as was asked for or as the buffer is, which is
-- counted as read; the counter of writes, the capacity and the end mark stay.
pub read_lem :
    (s : ByteStream) (n : ℕ)
    → let (t, out) = read s n in
      (out ≡ peek_output s n)
      × (t ≡ pop_output s n)
      × (length out ≡ min n (buffer_size s))
      × (s.content ≡ out ++ t.content)
      × (t.alread ≡ add64 s.alread (length out))
      × (t.alwritten ≡ s.alwritten)
      × (t.max ≡ s.max)
      × (t.end ≡ s.end)
unfolding read peek_output pop_output buffer_size
read_lem s n =
    let m : ℕ = min n (length s.content) in
    ground (arith, length-take m s.content, take-append-drop m s.content)

pub read-IsValid : {s : ByteStream} (n : ℕ) → IsValid s → IsValid (read s n).0
read-IsValid {s} n v = ground (arith, read_lem s n, length-append (read s n).1 (read s n).0.content)

pub pop_output-IsValid : {s : ByteStream} (n : ℕ) → IsValid s → IsValid (pop_output s n)
pop_output-IsValid {s} n v = ground (arith, read_lem s n, read-IsValid n v)

-- A write that fits is taken whole.
pub write_fits :
    (s : ByteStream) (bytes : Bytes)
    → length bytes ≤ remaining_capacity s
    → write s bytes ≡ (
      record s { content = s.content ++ bytes; alwritten = add64 s.alwritten (length bytes) },
      length bytes,
    )
unfolding write
write_fits s bytes h = ground (arith, take_all (length bytes) bytes)

-- A read cuts the buffer in two.
pub read_cut :
    (s : ByteStream) (n : ℕ)
    → let m : ℕ = min n (length s.content) in
      read s n
      ≡ (record s { content = drop m s.content; alread = add64 s.alread m }, take m s.content)
unfolding read peek_output pop_output buffer_size
read_cut s n = ground arith

-- Reading at the end of the stream leaves it there.
pub eof-read : (s : ByteStream) (n : ℕ) → eof s ≡ true → eof (read s n).0 ≡ true
unfolding eof buffer_empty
eof-read s n h =
    let m : ℕ = min n (length s.content) in
    let left = length-drop m s.content in rw (read_cut s n) (ground (arith, left))
