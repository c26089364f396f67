-- ===== src/Receiver/Handshake.antt =====
-- How the receiver of libsponge/tcp_receiver.cc comes to know the stream.
use csed353_tcp.Prelude.{
  ℕ, ◌+◌, ◌≤◌, ◌<◌, ◌^◌, ◌≡◌, refl, Bool, true, false, [], ◌∷◌, none, some, arith, u32_mod, u64_mod,
  length, Bytes,
}
use csed353_tcp.Segment.{TcpSegment}
use csed353_tcp.Reassembler
use csed353_tcp.Reassembler.{StreamReassembler, push_substring}
use csed353_tcp.Reassembler.Slice.{slice}
use csed353_tcp.Reassembler.State.{Inv}
use csed353_tcp.Reassembler.Push.{push_substring-Pushed}
use csed353_tcp.Reassembler.Empty.{push_empty-Unmoved}
use csed353_tcp.Reassembler.History.{init-Inv}
use csed353_tcp.Receiver.{TcpReceiver, init, ackno, segment_received, unsynchronised}
use csed353_tcp.Receiver.Segments.{IsSynced}

-- A stretch that may be empty, pushed at the start of the window.
push_start :
    (f : ℕ → ℕ) (n : ℕ) (r : StreamReassembler) (bytes : Bytes) (eof : Bool)
    → Inv f n r
    → bytes ≡ slice f r.firstindex (length bytes)
    → r.firstindex + length bytes ≤ n
    → (r' : StreamReassembler) × (push_substring r bytes r.firstindex eof ≡ some r')
      × Inv f n r'
      × (r'.capacity ≡ r.capacity)
push_start f n r [] eof v e fits =
    let p = push_empty-Unmoved f n r r.firstindex eof v in (p.0, p.1, p.2.inv, p.2.same_capacity)
push_start f n r (b ∷ bytes) eof v e fits =
    let p =
      push_substring-Pushed f n r (b ∷ bytes) r.firstindex eof v e (omega arith) fits
        (omega (arith, v.room)) in
    (p.0, p.1, p.2.inv, p.2.same_capacity)

-- A first segment with a SYN synchronises a new receiver, whose capacity is at most 2 ^ 31 - 2: its
-- sequence number becomes the initial one, its payload the first bytes of the stream, its FIN is
-- noted, and it is accepted.
pub syn_received :
    (f : ℕ → ℕ) (n capacity : ℕ) (seg : TcpSegment)
    → 0 < capacity
    → capacity + 2 ≤ 2 ^ 31
    → n + capacity + 2 < u64_mod
    → seg.header.syn ≡ true
    → seg.header.seqno.raw_value < u32_mod
    → seg.payload ≡ slice f 0 (length seg.payload)
    → length seg.payload ≤ n
    → (q : TcpReceiver) × (segment_received (init capacity) seg ≡ some (q, true))
      × IsSynced f n q
      × (q.isn ≡ seg.header.seqno)
      × (q.finset ≡ seg.header.fin)
unfolding segment_received unsynchronised init Reassembler.init
syn_received f n capacity seg hc hw hs syn word e fits =
    let p =
      push_start f n (Reassembler.init capacity) seg.payload seg.header.fin
        (init-Inv f n capacity hc (omega arith)) e (omega arith) in
    (
      record (init capacity) {
        reassembler = p.0;
        isn = seg.header.seqno;
        isnset = true;
        finset = seg.header.fin;
      },
      ground (arith, p.1, syn),
      record {
        inv = p.2;
        set = refl;
        isn_word = word;
        narrow = omega (arith, p.3);
        short = omega (arith, p.3);
      },
      refl,
      refl,
    )

-- Before a SYN a segment changes nothing and nothing is acknowledged; it is called acceptable when
-- it carries a FIN.
pub unsynchronised_ignores :
    (r : TcpReceiver) (seg : TcpSegment)
    → r.isnset ≡ false
    → seg.header.syn ≡ false
    → (segment_received r seg ≡ some (r, seg.header.fin)) × (ackno r ≡ none)
unfolding segment_received unsynchronised ackno
unsynchronised_ignores r seg h k = ground arith
