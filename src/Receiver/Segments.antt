-- ===== src/Receiver/Segments.antt =====
-- `segment_received` (libsponge/tcp_receiver.cc) on the segments of a stream.
use csed353_tcp.Prelude.{
  ℕ, ◌+◌, ◌-◌, ◌≤◌, ◌<◌, ◌^◌, ◌≡◌, refl, Bool, true, false, not, ◌&&◌, ◌||◌, some, arith, u32_mod,
  u64_mod, ◌==◌, add64, sub64, length, max, ltb, if◌then◌else◌,
}
use csed353_tcp.ByteStream
use csed353_tcp.Wrapping.{wrap, unwrap}
use csed353_tcp.Wrapping.Laws.{unwrap-wrap}
use csed353_tcp.Segment.{TcpSegment, flag_le}
use csed353_tcp.Reassembler.Slice.{slice}
use csed353_tcp.Reassembler.State.{Inv, room_left}
use csed353_tcp.Reassembler.Push.{Pushed, push_substring-Pushed}
use csed353_tcp.Receiver.{
  TcpReceiver, stream_out, segment_received, synchronised, in_window, window_size,
  unassembled_bytes,
}
use csed353_tcp.Receiver.Ack.{acknowledged, ackno-wrap}

-- A synchronised receiver of a stream `f` of `n` bytes, with a window that sequence numbers can tell.
pub record IsSynced (f : ℕ → ℕ) (n : ℕ) (r : TcpReceiver) : Type 0 where
  pub inv : Inv f n r.reassembler
  pub set : r.isnset ≡ true
  pub isn_word : r.isn.raw_value < u32_mod
  pub narrow : r.reassembler.capacity + 2 ≤ 2 ^ 31
  pub short : n + r.reassembler.capacity + 2 < u64_mod

-- The segment carries `size` bytes of the stream from `index` on, and is less than 2 ^ 31 behind.
pub record Carries (f : ℕ → ℕ) (n index : ℕ) (r : TcpReceiver) (seg : TcpSegment) : Type 0 where
  pub seqno_of : seg.header.seqno ≡ wrap (index + 1) r.isn
  pub no_syn : seg.header.syn ≡ false
  pub payload_of : seg.payload ≡ slice f index (length seg.payload)
  pub some_bytes : 0 < length seg.payload
  pub fits : index + length seg.payload ≤ n
  pub starts : index < r.reassembler.firstindex + r.reassembler.capacity
  pub recent : r.reassembler.firstindex < index + 2 ^ 31

-- The segment meets the window in absolute sequence numbers.
abbrev pub meets_window : TcpReceiver → ℕ → ℕ → Bool
meets_window r index size =
    ltb (acknowledged r) (index + 1 + size)
    && ltb (index + 1)
        (acknowledged r + max 1 (r.reassembler.capacity - length (stream_out r).content))

module _ (f : ℕ → ℕ) (n index : ℕ) (r : TcpReceiver) (seg : TcpSegment) (s : IsSynced f n r)
    (c : Carries f n index r seg) where
  segment_number :
      unwrap seg.header.seqno r.isn (ByteStream.bytes_written (stream_out r)) ≡ index + 1
  unfolding ByteStream.bytes_written
  segment_number =
      let w = s.inv.delivered.written in
      rw c.seqno_of (
        unwrap-wrap (index + 1) r.isn (stream_out r).alwritten (omega (arith, s.short, c.fits))
          s.isn_word (omega (arith, w, s.short, s.inv.reached))
          (omega (arith, w, c.starts, s.narrow)) (omega (arith, w, c.recent)))

  ack_number :
      unwrap (wrap (acknowledged r) r.isn) r.isn (ByteStream.bytes_written (stream_out r))
      ≡ acknowledged r
  unfolding ByteStream.bytes_written
  ack_number =
      let w = s.inv.delivered.written in
      let le = flag_le (r.finset && (unassembled_bytes r == 0)) in
      unwrap-wrap (acknowledged r) r.isn (stream_out r).alwritten
        (omega (arith, w, le, s.short, s.inv.reached)) s.isn_word
        (omega (arith, w, s.short, s.inv.reached)) (omega (arith, le)) (omega arith)

  window-meets :
      in_window r seg (wrap (acknowledged r) r.isn) ≡ meets_window r index (length seg.payload)
  unfolding in_window window_size
  window-meets =
      let w = s.inv.delivered.written in
      let le = flag_le (r.finset && (unassembled_bytes r == 0)) in
      let room =
        room_left f r.reassembler.capacity r.reassembler.firstindex (stream_out r) s.inv.delivered
          (omega (arith, s.short)) in
      let size : ℕ = length seg.payload in
      let win : ℕ = r.reassembler.capacity - length (stream_out r).content in
      let right : add64 (index + 1) size ≡ index + 1 + size = omega (arith, s.short, c.fits) in
      let end : add64 (acknowledged r) (max 1 win) ≡ acknowledged r + max 1 win =
        omega (arith, s.short, s.inv.reached, w, le) in
      let a = ack_number in
      let b = segment_number in
      let pos = c.some_bytes in ground (arith, right, end, a, b, room, pos)

  -- A segment that carries bytes of the stream and starts before the end of the window is taken
  -- without an exception: its payload is pushed at the stream index that its sequence number stands
  -- for, its FIN is noted, and the result says whether it meets the window in absolute numbers, where
  -- a shut window counts as one byte.
  pub segment_received-Pushed :
      (q : TcpReceiver) × (segment_received r seg
        ≡ some (q, meets_window r index (length seg.payload)))
      × Pushed f n index (length seg.payload) r.reassembler q.reassembler
      × (q.finset ≡ r.finset || seg.header.fin)
      × (q.isn ≡ r.isn)
      × (q.isnset ≡ true)
  unfolding segment_received synchronised
  segment_received-Pushed =
      let p =
        push_substring-Pushed f n r.reassembler seg.payload index seg.header.fin s.inv c.payload_of
          c.some_bytes c.fits c.starts in
      let a = ackno-wrap r s.set (omega (arith, s.inv.delivered.written, s.short, s.inv.reached)) in
      let i : sub64 (unwrap seg.header.seqno r.isn (ByteStream.bytes_written (stream_out r))) 1
          ≡ index =
        omega (arith, segment_number, s.short, c.fits) in
      (
        record r {
          reassembler = p.0;
          finset = if seg.header.fin && not r.finset then true else r.finset;
        },
        ground (arith, a, i, p.1, window-meets, s.set, c.no_syn),
        p.2,
        ground arith,
        refl,
        s.set,
      )
