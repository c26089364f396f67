-- ===== src/Reassembler/History.antt =====
-- Any order of pushes and reads (libsponge/stream_reassembler.cc with byte_stream.cc): what the reader
-- gets is the stream from its start.
use mathlib.Core.Path.{subst}
use csed353_tcp.Prelude.{
  ℕ, ◌+◌, ◌-◌, ◌≤◌, ◌<◌, ◌≡◌, refl, sym, ◌∙◌, Bool, [], ◌++◌, min, arith, length, Bytes, some,
  u64_mod, length-append, length-take, length-drop, take, drop, add64,
}
use csed353_tcp.ByteStream
use csed353_tcp.ByteStream.{ByteStream}
use csed353_tcp.ByteStream.Laws.{read_cut}
use csed353_tcp.Reassembler.{StreamReassembler, init, push_substring}
use csed353_tcp.Reassembler.Slice.{slice, slice-append, drop-slice, take-slice}
use csed353_tcp.Reassembler.State.{Inv, Delivered}
use csed353_tcp.Reassembler.Push.{push_substring-Pushed}

-- A reader takes up to `k` bytes from the output stream.
abbrev pub read_out : StreamReassembler → ℕ → StreamReassembler
read_out r k = record r { output = (ByteStream.read r.output k).0 }

abbrev pub bytes_out : StreamReassembler → ℕ → Bytes
bytes_out r k = (ByteStream.read r.output k).1

-- The states that pushes of stretches of `f` and reads can reach, with all that was read.
pub data Reach (f : ℕ → ℕ) (n capacity : ℕ) : StreamReassembler → Bytes → Type 0 where
  start : Reach f n capacity (init capacity) []
  push :
      {r r' : StreamReassembler} {out : Bytes} (bytes : Bytes) (index : ℕ) (eof : Bool)
      → Reach f n capacity r out
      → bytes ≡ slice f index (length bytes)
      → 0 < length bytes
      → index + length bytes ≤ n
      → index < r.firstindex + r.capacity
      → push_substring r bytes index eof ≡ some r'
      → Reach f n capacity r' out
  read :
      {r : StreamReassembler} {out : Bytes} (k : ℕ)
      → Reach f n capacity r out
      → Reach f n capacity (read_out r k) (out ++ bytes_out r k)

pub init-Inv :
    (f : ℕ → ℕ) (n capacity : ℕ) → 0 < capacity → n + capacity < u64_mod → Inv f n (init capacity)
unfolding init ByteStream.init
init-Inv f n capacity h k = record {
  room = h;
  small = k;
  reached = omega arith;
  spaced = tt;
  counted = refl;
  delivered = record {
    max_of = refl;
    within = omega arith;
    position = omega arith;
    written = refl;
    content_of = refl;
  };
}

-- A read takes the next bytes of the stream.
read-Delivered :
    (f : ℕ → ℕ) (capacity fi k : ℕ) (o : ByteStream)
    → Delivered f capacity fi o
    → fi < u64_mod
    → let (t, out) = ByteStream.read o k in
      Delivered f capacity fi t
      × (out ≡ slice f o.alread (length out))
      × (t.alread ≡ o.alread + length out)
read-Delivered f capacity fi k o d h =
    let size : ℕ = length o.content in
    let m : ℕ = min k size in
    let mm : min m size ≡ m = omega arith in
    let head : take m o.content ≡ slice f o.alread m =
      ground (arith, mm, d.content_of, take-slice f m o.alread size) in
    let back : drop m o.content ≡ slice f (o.alread + m) (size - m) =
      ground (arith, d.content_of, drop-slice f m o.alread size) in
    let got : length (take m o.content) ≡ m = omega (arith, length-take m o.content) in
    let left : length (drop m o.content) ≡ size - m = length-drop m o.content in
    let at : add64 o.alread m ≡ o.alread + m = omega (arith, d.position) in
    rw (read_cut o k) (
      record {
        max_of = d.max_of;
        within = omega (arith, left, d.within);
        position = omega (arith, left, at, d.position);
        written = d.written;
        content_of = rw (left, at) back;
      },
      rw got head,
      omega (arith, got, at),
    )

-- A reader does not disturb what is stored.
pub read_out-Inv :
    (f : ℕ → ℕ) (n : ℕ) (r : StreamReassembler) (k : ℕ) → Inv f n r → Inv f n (read_out r k)
read_out-Inv f n r k v = record {
  room = v.room;
  small = v.small;
  reached = v.reached;
  spaced = v.spaced;
  counted = v.counted;
  delivered =
      (read-Delivered f r.capacity r.firstindex k r.output v.delivered
        (omega (arith, v.small, v.reached, v.room))).0;
}

-- What every reachable state satisfies.
record Sound (f : ℕ → ℕ) (n : ℕ) (r : StreamReassembler) (out : Bytes) : Type 0 where
  inv : Inv f n r
  read_so_far : out ≡ slice f 0 (length out)
  counted : length out ≡ r.output.alread

some_eq : {r r' : StreamReassembler} → some r ≡ some r' → r ≡ r'
some_eq e = cc

push-Sound :
    (f : ℕ → ℕ) (n : ℕ) (r r' : StreamReassembler) (out bytes : Bytes) (index : ℕ) (eof : Bool)
    → Sound f n r out
    → bytes ≡ slice f index (length bytes)
    → 0 < length bytes
    → index + length bytes ≤ n
    → index < r.firstindex + r.capacity
    → push_substring r bytes index eof ≡ some r'
    → Sound f n r' out
push-Sound f n r r' out bytes index eof s e pos fits starts ok =
    let p = push_substring-Pushed f n r bytes index eof s.inv e pos fits starts in
    subst (λ q. Sound f n q out) (some_eq (sym p.1 ∙ ok))
      (record { inv = p.2.inv; read_so_far = s.read_so_far; counted = s.counted ∙ sym p.2.unread })

read-Sound :
    (f : ℕ → ℕ) (n : ℕ) (r : StreamReassembler) (out : Bytes) (k : ℕ)
    → Sound f n r out
    → Sound f n (read_out r k) (out ++ bytes_out r k)
read-Sound f n r out k s =
    let more : Bytes = bytes_out r k in
    let d =
      read-Delivered f r.capacity r.firstindex k r.output s.inv.delivered
        (omega (arith, s.inv.small, s.inv.reached, s.inv.room)) in
    let len = length-append out more in
    record {
      inv = read_out-Inv f n r k s.inv;
      read_so_far =
          ground (
            arith,
            s.read_so_far,
            s.counted,
            d.1,
            len,
            slice-append f 0 (length out) (length more),
          );
      counted = omega (arith, len, s.counted, d.2);
    }

Reach-Sound :
    (f : ℕ → ℕ) (n capacity : ℕ) {r : StreamReassembler} {out : Bytes}
    → 0 < capacity
    → n + capacity < u64_mod
    → Reach f n capacity r out
    → Sound f n r out
unfolding init ByteStream.init
Reach-Sound f n capacity h k start = record {
  inv = init-Inv f n capacity h k;
  read_so_far = refl;
  counted = refl;
}
Reach-Sound f n capacity h k
      (push {r = r} {r' = r'} {out = out} bytes index eof rs e pos fits starts ok) =
    push-Sound f n r r' out bytes index eof (Reach-Sound f n capacity h k rs) e pos fits starts ok
Reach-Sound f n capacity h k (read {r = r} {out = out} i rs) =
    read-Sound f n r out i (Reach-Sound f n capacity h k rs)

-- However the stretches of a stream of `n` bytes arrive, each starting before the end of the window, with
-- reads between them, for a positive capacity with which `n` does not reach 2 ^ 64: all bytes read so far followed by the buffered ones are
-- exactly the stream up to the first byte not yet written, and the buffer is within the capacity.
pub Reach_prefix :
    (f : ℕ → ℕ) (n capacity : ℕ) {r : StreamReassembler} {out : Bytes}
    → 0 < capacity
    → n + capacity < u64_mod
    → Reach f n capacity r out
    → (out ++ r.output.content ≡ slice f 0 r.firstindex) × (length r.output.content ≤ r.capacity)
Reach_prefix f n capacity {r} {out} h k rs =
    let s = Reach-Sound f n capacity h k rs in
    let d = s.inv.delivered in
    (
      ground (
        arith,
        s.read_so_far,
        s.counted,
        d.content_of,
        d.position,
        slice-append f 0 (length out) (length r.output.content),
      ),
      d.within,
    )
