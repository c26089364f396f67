-- ===== src/Reassembler/State.antt =====
-- The state of the reassembler (libsponge/stream_reassembler.cc) between calls.
use csed353_tcp.Prelude.{
  ℕ, ◌+◌, ◌-◌, ◌≤◌, ◌<◌, ◌≡◌, refl, Bool, true, ◌||◌, arith, ltb, length, min, Bytes, u64_mod,
  length-append,
}
use csed353_tcp.ByteStream.{ByteStream, write, remaining_capacity}
use csed353_tcp.ByteStream.Laws.{write_fits}
use csed353_tcp.Reassembler.{StreamReassembler}
use csed353_tcp.Reassembler.Slice.{slice, length-slice, slice-append}
use csed353_tcp.Reassembler.Chunks.{Spaced, total, covers}

-- The output stream holds the bytes of `f` from what was read up to `fi`.
pub record Delivered (f : ℕ → ℕ) (capacity fi : ℕ) (o : ByteStream) : Type 0 where
  pub max_of : o.max ≡ capacity
  pub within : length o.content ≤ capacity
  pub position : o.alread + length o.content ≡ fi
  pub written : o.alwritten ≡ fi
  pub content_of : o.content ≡ slice f o.alread (length o.content)

-- The reassembler holds stretches of a stream `f` of at most `n` bytes.
pub record Inv (f : ℕ → ℕ) (n : ℕ) (r : StreamReassembler) : Type 0 where
  pub room : 0 < r.capacity
  pub small : n + r.capacity < u64_mod
  pub reached : r.firstindex ≤ n
  pub spaced : Spaced f r.firstindex (min (r.firstindex + r.capacity) n) r.storelist
  pub counted : r.private_unassembled_bytes ≡ total r.storelist
  pub delivered : Delivered f r.capacity r.firstindex r.output

-- Byte `i` was written to the output, or is stored.
abbrev pub holds : ℕ → StreamReassembler → Bool
holds i r = ltb i r.firstindex || covers i r.storelist

pub write-Delivered :
    (f : ℕ → ℕ) (capacity fi n : ℕ) (o : ByteStream) (bytes : Bytes)
    → Delivered f capacity fi o
    → bytes ≡ slice f fi n
    → n + length o.content ≤ capacity
    → capacity < u64_mod
    → fi + n < u64_mod
    → let t = (write o bytes).0 in
      Delivered f capacity (fi + n) t
      × (t.alread ≡ o.alread)
      × (length t.content ≡ length o.content + n)
unfolding remaining_capacity
write-Delivered f capacity fi n o bytes d e h hc hn =
    let len : length bytes ≡ n = ground (arith, e, length-slice f fi n) in
    let rc : length bytes ≤ remaining_capacity o = omega (arith, d.max_of, d.within) in
    let sum = length-append o.content bytes in
    rw (write_fits o bytes rc) (
      record {
        max_of = d.max_of;
        within = omega (arith, sum);
        position = omega (arith, sum, d.position);
        written = omega (arith, d.written);
        content_of =
            ground
              (arith, sum, slice-append f o.alread (length o.content) n, d.position, d.content_of);
      },
      refl,
      omega (arith, sum),
    )

-- What the stage keeps, between the state before and the one after it.
pub record Moved (f : ℕ → ℕ) (n : ℕ) (r r' : StreamReassembler) : Type 0 where
  pub inv : Inv f n r'
  pub holding : (i : ℕ) → holds i r' ≡ holds i r
  pub stalled : covers r'.firstindex r'.storelist ≡ true → length r'.output.content ≡ r'.capacity
  pub unread : r'.output.alread ≡ r.output.alread
  pub same_capacity : r'.capacity ≡ r.capacity
  pub same_eof : r'.checkeof ≡ r.checkeof

pub room_left :
    (f : ℕ → ℕ) (capacity fi : ℕ) (o : ByteStream)
    → Delivered f capacity fi o
    → capacity < u64_mod
    → remaining_capacity o ≡ capacity - length o.content
unfolding remaining_capacity
room_left f capacity fi o d h = omega (arith, d.max_of, d.within)
