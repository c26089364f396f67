-- ===== src/Reassembler/Deliver.antt =====
-- The last stage of `push_substring` (libsponge/stream_reassembler.cc), which moves the front of the
-- stored list to the output stream.
use csed353_tcp.Prelude.{
  ℕ, suc, ◌+◌, ◌-◌, ◌≤◌, ◌<◌, ◌≡◌, refl, ap, sym, ◌∙◌, ltb→lt, ltb→le, ==→eq, true, false, ◌&&◌,
  List, [], ◌∷◌, arith, ltb, if◌then◌else◌, length, min, inl, inr, Bool-cases, add64, drop, take,
  ◌==◌, length-take, length-drop,
}
use mathlib.Core.Path.{subst}
use mathlib.Core.Bool.{false≢true}
use csed353_tcp.ByteStream.{remaining_capacity, end_input}
use csed353_tcp.Reassembler.{
  Inforsubstr, StreamReassembler, deliver, deliver_front, send_part, send_whole, finish, empty,
}
use csed353_tcp.Reassembler.Slice.{slice, take-slice}
use csed353_tcp.Reassembler.Chunks.{
  Good, Spaced, total, covers, Good-length, Spaced-mono, Spaced-mono_hi, total_bound, covers_below,
}
use csed353_tcp.Reassembler.Trim.{drop_front_Good}
use csed353_tcp.Reassembler.State.{Inv, write-Delivered, Moved, room_left}

-- The front of the stored list is the next stretch to be written.
module _ (f : ℕ → ℕ) (n : ℕ) (r : StreamReassembler) (c : Inforsubstr) (cs : List Inforsubstr)
    (e : r.storelist ≡ c ∷ cs) (v : Inv f n r) (h : c.first ≡ r.firstindex) where
  front-Spaced : Spaced f r.firstindex (min (r.firstindex + r.capacity) n) (c ∷ cs)
  front-Spaced = subst (Spaced f r.firstindex (min (r.firstindex + r.capacity) n)) e v.spaced

  front_length : length c.bytes ≡ suc c.last - c.first
  front_length = Good-length f c front-Spaced.0

  front_bytes : c.bytes ≡ slice f r.firstindex (length c.bytes)
  front_bytes = ground (arith, front-Spaced.0, front_length)

  front_room : remaining_capacity r.output ≡ r.capacity - length r.output.content
  front_room = room_left f r.capacity r.firstindex r.output v.delivered (omega (arith, v.small))

  front_count : r.private_unassembled_bytes ≡ length c.bytes + total cs
  front_count = v.counted ∙ ap total e

  front_bound : length c.bytes + total cs + r.firstindex ≤ n
  front_bound = omega (
    arith,
    total_bound f r.firstindex (min (r.firstindex + r.capacity) n) (c ∷ cs)
        (omega (arith, v.reached)) front-Spaced,
  )

  send_whole-Moved : length c.bytes ≤ remaining_capacity r.output → Moved f n r (send_whole r c cs)
  unfolding send_whole
  send_whole-Moved le =
      let sp = front-Spaced in
      let room = front_room in
      let next : add64 c.last 1 ≡ r.firstindex + length c.bytes =
        omega (arith, v.small, sp.2, front_length, sp.0.ordered) in
      let after : r.firstindex + length c.bytes ≡ suc c.last =
        omega (arith, v.small, sp.2, front_length, sp.0.ordered) in
      let w =
        write-Delivered f r.capacity r.firstindex (length c.bytes) r.output c.bytes v.delivered
          front_bytes (omega (arith, room, v.delivered.within)) (omega (arith, v.small))
          (omega (arith, v.small, front_bound)) in
      record {
        inv = record {
          room = v.room;
          small = v.small;
          reached = omega (arith, next, front_bound);
          spaced =
              rw (next, after)
                (Spaced-mono f (suc c.last) (suc (suc c.last)) (min (suc c.last + r.capacity) n) cs
                  (omega arith)
                  (Spaced-mono_hi f (suc (suc c.last)) (min (r.firstindex + r.capacity) n)
                    (min (suc c.last + r.capacity) n) cs (omega (arith, after)) sp.3));
          counted = omega (arith, front_count, front_bound, v.small);
          delivered = rw next w.0;
        };
        holding = λ i. ground (arith, e, next, after, sp.0.ordered, h);
        stalled = λ p. ground (
          arith,
          next,
          after,
          p,
          covers_below f (suc (suc c.last)) (min (r.firstindex + r.capacity) n) (suc c.last) cs
              sp.3,
        );
        unread = w.1;
        same_capacity = refl;
        same_eof = refl;
      }

  part_bytes :
      remaining_capacity r.output < length c.bytes
      → take (remaining_capacity r.output) c.bytes
        ≡ slice f r.firstindex (remaining_capacity r.output)
  part_bytes lt =
      let rc : ℕ = remaining_capacity r.output in
      let e' : min rc (length c.bytes) ≡ rc = omega arith in
      ground (arith, front_bytes, e', take-slice f rc r.firstindex (length c.bytes))

  send_part-Moved :
      remaining_capacity r.output < length c.bytes
      → Moved f n r (send_part r c cs (remaining_capacity r.output))
  unfolding send_part
  send_part-Moved lt =
      let rc : ℕ = remaining_capacity r.output in
      let sp = front-Spaced in
      let room = front_room in
      let next : add64 c.first rc ≡ r.firstindex + rc = omega (arith, v.small, front_bound, h) in
      let taken : length (take rc c.bytes) ≡ rc = omega (arith, length-take rc c.bytes) in
      let ends : r.firstindex + length c.bytes ≡ suc c.last =
        omega (arith, v.small, sp.2, front_length, sp.0.ordered) in
      let w =
        write-Delivered f r.capacity r.firstindex rc r.output (take rc c.bytes) v.delivered
          (part_bytes lt) (omega (arith, room, v.delivered.within)) (omega (arith, v.small))
          (omega (arith, v.small, front_bound)) in
      let cut =
        drop_front_Good f (r.firstindex + rc) c sp.0 (omega (arith, h)) (omega (arith, ends)) in
      let off : r.firstindex + rc - c.first ≡ rc = omega (arith, h) in
      let good : Good f (record c { first = add64 c.first rc; bytes = drop rc c.bytes }) =
        rw (off, ← next) at cut in
      record {
        inv = record {
          room = v.room;
          small = v.small;
          reached = omega (arith, next, front_bound);
          spaced = (
            good,
            omega (arith, next),
            omega (arith, next, sp.2),
            Spaced-mono_hi f (suc (suc c.last)) (min (r.firstindex + r.capacity) n)
                (min (add64 c.first rc + r.capacity) n) cs (omega (arith, next)) sp.3,
          );
          counted = omega (arith, front_count, front_bound, v.small, taken, length-drop rc c.bytes);
          delivered = rw next w.0;
        };
        holding = λ i. ground (arith, e, next, ends, h);
        stalled = λ p. omega (arith, w.2, room, v.delivered.within);
        unread = w.1;
        same_capacity = refl;
        same_eof = refl;
      }

pub ended-Inv :
    (f : ℕ → ℕ) (n : ℕ) (r : StreamReassembler)
    → Inv f n r
    → Inv f n (record r { output = end_input r.output })
unfolding end_input
ended-Inv f n r v = record {
  room = v.room;
  small = v.small;
  reached = v.reached;
  spaced = v.spaced;
  counted = v.counted;
  delivered = record {
    max_of = v.delivered.max_of;
    within = v.delivered.within;
    position = v.delivered.position;
    written = v.delivered.written;
    content_of = v.delivered.content_of;
  };
}

ended-Moved :
    (f : ℕ → ℕ) (n : ℕ) (r r' : StreamReassembler)
    → Moved f n r r'
    → Moved f n r (record r' { output = end_input r'.output })
unfolding end_input
ended-Moved f n r r' m = record {
  inv = ended-Inv f n r' m.inv;
  holding = m.holding;
  stalled = m.stalled;
  unread = m.unread;
  same_capacity = m.same_capacity;
  same_eof = m.same_eof;
}

-- Announcing the end changes no byte.
finish-Moved :
    (f : ℕ → ℕ) (n : ℕ) (r r' : StreamReassembler) → Moved f n r r' → Moved f n r (finish r')
unfolding finish
finish-Moved f n r r' m =
    elim (empty r'.storelist r'.private_unassembled_bytes && r'.checkeof)
      as (λ b. Moved f n r (if b then record r' { output = end_input r'.output } else r')) [
        | true ↦ ended-Moved f n r r' m
        | false ↦ m
      ]

same-Moved :
    (f : ℕ → ℕ) (n : ℕ) (r : StreamReassembler)
    → Inv f n r
    → covers r.firstindex r.storelist ≡ false
    → Moved f n r r
same-Moved f n r v h = record {
  inv = v;
  holding = λ i. refl;
  stalled = λ p. absurd (false≢true (sym h ∙ p));
  unread = refl;
  same_capacity = refl;
  same_eof = refl;
}

deliver_front-Moved :
    (f : ℕ → ℕ) (n : ℕ) (r : StreamReassembler) (c : Inforsubstr) (cs : List Inforsubstr)
    → r.storelist ≡ c ∷ cs
    → Inv f n r
    → Moved f n r (deliver_front r c cs)
unfolding deliver_front
deliver_front-Moved f n r c cs e v = elim (Bool-cases (c.first == r.firstindex)) [
  | inl here ↦
      let h : c.first ≡ r.firstindex = ==→eq c.first r.firstindex here in
      elim (Bool-cases (ltb (remaining_capacity r.output) (length c.bytes))) [
        | inl lt ↦
            ground (arith, finish-Moved f n r _ (send_part-Moved f n r c cs e v h (ltb→lt _ _ lt)))
        | inr ge ↦
            ground (arith, finish-Moved f n r _ (send_whole-Moved f n r c cs e v h (ltb→le _ _ ge)))
      ]
  | inr away ↦
      let sp = subst (Spaced f r.firstindex (min (r.firstindex + r.capacity) n)) e v.spaced in
      let later : covers r.firstindex (c ∷ cs) ≡ false = ground (
        arith,
        covers_below f (suc (suc c.last)) (min (r.firstindex + r.capacity) n) r.firstindex cs sp.3,
      ) in
      ground (arith, same-Moved f n r v (ap (covers r.firstindex) e ∙ later))
]

deliver_list-Moved :
    (f : ℕ → ℕ) (n : ℕ) (r : StreamReassembler) (cs : List Inforsubstr)
    → r.storelist ≡ cs
    → Inv f n r
    → Moved f n r (deliver r)
unfolding deliver
deliver_list-Moved f n r [] e v = ground (arith, same-Moved f n r v (ap (covers r.firstindex) e))
deliver_list-Moved f n r (c ∷ cs) e v = ground (arith, e, deliver_front-Moved f n r c cs e v)

pub deliver-Moved :
    (f : ℕ → ℕ) (n : ℕ) (r : StreamReassembler) → Inv f n r → Moved f n r (deliver r)
deliver-Moved f n r v = deliver_list-Moved f n r r.storelist refl v
