-- ===== src/Reassembler/Faults.antt =====
-- Inputs on which `push_substring` (libsponge/stream_reassembler.cc) goes wrong.
use csed353_tcp.Prelude.{
  ℕ, ◌+◌, ◌-◌, ◌≤◌, ◌<◌, ◌≡◌, refl, Bool, true, false, none, some, [], ◌∷◌, arith, length, Bytes,
  take, take_all, u64_mod, add64, sub64, ◌>>=◌, if◌then◌else◌,
}
use csed353_tcp.ByteStream
use csed353_tcp.ByteStream.{ByteStream}
use csed353_tcp.ByteStream.Laws.{write_fits}
use csed353_tcp.Reassembler.{
  StreamReassembler, Inforsubstr, init, push_substring, trim_back, absorb, deliver,
}

-- What a fresh reassembler keeps of a substring that starts after the end of the window: all of its
-- bytes, with a last index before the first one.
abbrev stuck : ℕ → Bytes → ℕ → Bool → StreamReassembler
stuck capacity bytes i eof = record {
  private_unassembled_bytes = length bytes;
  checkeof = if eof then eof else false;
  storelist = record { first = i; last = capacity - 1; bytes = bytes } ∷ [];
  firstindex = 0;
  output = ByteStream.init capacity;
  capacity = capacity;
}

push_beyond :
    (capacity i : ℕ) (bytes : Bytes) (eof : Bool)
    → 0 < capacity
    → capacity < i
    → 0 < length bytes
    → i + length bytes < u64_mod
    → push_substring (init capacity) bytes i eof ≡ some (stuck capacity bytes i eof)
unfolding push_substring init deliver
push_beyond capacity i bytes eof hc hi hb hs =
    let kept : take (sub64 (add64 0 capacity) i) bytes ≡ bytes = take_all _ bytes (omega arith) in
    ground (arith, kept)

-- `substr` is called far past the end of the substring.
absorb_throws :
    (capacity i : ℕ) (bytes : Bytes) (end : ℕ)
    → 0 < capacity
    → capacity < i
    → i ≤ end
    → i + length bytes < u64_mod
    → absorb
        (record { first = i; last = capacity - 1; bytes = bytes })
        (record { first = i; last = end; bytes = bytes })
      ≡ none
unfolding absorb
absorb_throws capacity i bytes end hc hi he hs =
    let past : length bytes < sub64 (add64 (capacity - 1) 1) i = omega arith in ground (arith, past)

-- The same substring again meets it in the loop.
push_again :
    (capacity i : ℕ) (bytes : Bytes) (eof : Bool)
    → 0 < capacity
    → capacity < i
    → 0 < length bytes
    → i + length bytes < u64_mod
    → push_substring (stuck capacity bytes i eof) bytes i eof ≡ none
unfolding push_substring
push_again capacity i bytes eof hc hi hb hs =
    let end : ℕ = sub64 (add64 i (length bytes)) 1 in
    let e : end ≡ i + length bytes - 1 = omega arith in
    let a : add64 i (length bytes) ≡ i + length bytes = omega arith in
    let b : add64 end 1 ≡ i + length bytes = omega arith in
    ground (arith, absorb_throws capacity i bytes end hc hi (omega arith) hs, e, a, b)

-- A non-empty substring that starts beyond the end of the window of a fresh reassembler of positive
-- capacity, and ends before 2 ^ 64, is pushed without an exception, and makes `push_substring` throw when
-- it is pushed a second time, to the reassembler that the first push leaves.
pub push_twice_throws :
    (capacity i : ℕ) (bytes : Bytes) (eof : Bool)
    → 0 < capacity
    → capacity < i
    → 0 < length bytes
    → i + length bytes < u64_mod
    → (r : StreamReassembler) × (push_substring (init capacity) bytes i eof ≡ some r)
      × (push_substring r bytes i eof ≡ none)
push_twice_throws capacity i bytes eof hc hi hb hs = (
  stuck capacity bytes i eof,
  push_beyond capacity i bytes eof hc hi hb hs,
  push_again capacity i bytes eof hc hi hb hs,
)

abbrev first_chunk : Bytes → Inforsubstr
first_chunk bytes = record { first = 0; last = sub64 (add64 0 (length bytes)) 1; bytes = bytes }

-- The announcement leaves only its flag.
push_eof_first :
    (capacity i : ℕ)
    → 0 < i
    → push_substring (init capacity) [] i true ≡ some (record (init capacity) { checkeof = true })
unfolding push_substring init
push_eof_first capacity i h = ground arith

abbrev ended_early : ℕ → Bytes → StreamReassembler
ended_early capacity bytes = record {
  private_unassembled_bytes = 0;
  checkeof = true;
  storelist = [];
  firstindex = length bytes;
  output = record {
    error_flag = false;
    end = true;
    content = bytes;
    alread = 0;
    alwritten = length bytes;
    max = capacity;
  };
  capacity = capacity;
}

-- A first substring that fits is not cut,
first_uncut :
    (capacity : ℕ) (bytes : Bytes)
    → 0 < length bytes
    → length bytes ≤ capacity
    → capacity < u64_mod
    → trim_back (add64 0 capacity) (first_chunk bytes ∷ []) (add64 0 (length bytes))
      ≡ record { chunks = first_chunk bytes ∷ []; count = length bytes }
unfolding trim_back
first_uncut capacity bytes hb hc hm =
    let kept = take_all capacity bytes in
    let c : sub64 (add64 0 capacity) 0 ≡ capacity = omega arith in
    let n : add64 0 (length bytes) ≡ length bytes = omega arith in
    let m : add64 (sub64 (length bytes) (length bytes)) (length bytes) ≡ length bytes =
      omega arith in
    ground (arith, kept, c, n, m)

-- and goes to the output whole, which is then ended.
first_delivered :
    (capacity : ℕ) (bytes : Bytes)
    → 0 < length bytes
    → length bytes ≤ capacity
    → capacity < u64_mod
    → deliver (record (init capacity) {
      checkeof = true;
      storelist = first_chunk bytes ∷ [];
      private_unassembled_bytes = length bytes;
    })
      ≡ ended_early capacity bytes
unfolding deliver init ByteStream.init ByteStream.end_input ByteStream.remaining_capacity
first_delivered capacity bytes hb hc hm =
    let o : ByteStream = ByteStream.init capacity in ground (arith, write_fits o bytes)

push_after_eof :
    (capacity : ℕ) (bytes : Bytes)
    → 0 < length bytes
    → length bytes ≤ capacity
    → capacity < u64_mod
    → push_substring (record (init capacity) { checkeof = true }) bytes 0 false
      ≡ some (ended_early capacity bytes)
unfolding push_substring init
push_after_eof capacity bytes hb hc hm =
    let a = first_uncut capacity bytes hb hc hm in
    let b = first_delivered capacity bytes hb hc hm in ground (arith, a, b)

-- An empty substring that announces the end at index `i`, pushed to a fresh reassembler, followed by
-- fewer than `i` first bytes that fit the capacity: the reassembler writes these bytes and ends its
-- output, after fewer than `i` bytes.
pub eof_too_early :
    (capacity i : ℕ) (bytes : Bytes)
    → 0 < length bytes
    → length bytes < i
    → length bytes ≤ capacity
    → capacity < u64_mod
    → let pushed =
        push_substring (init capacity) [] i true >>= λ r. push_substring r bytes 0 false in
      (r : StreamReassembler) × (pushed ≡ some r)
      × (ByteStream.input_ended r.output ≡ true)
      × (r.output.content ≡ bytes)
      × (ByteStream.bytes_written r.output < i)
unfolding ByteStream.input_ended ByteStream.bytes_written
eof_too_early capacity i bytes hb hi hc hm = (
  ended_early capacity bytes,
  rw (push_eof_first capacity i (omega arith)) (push_after_eof capacity bytes hb hc hm),
  refl,
  refl,
  hi,
)
