-- ===== src/Receiver/Faults.antt =====
-- A FIN that comes before the data it follows (libsponge/tcp_receiver.cc).
use csed353_tcp.Prelude.{
  ℕ, ◌+◌, ◌≤◌, ◌<◌, ◌^◌, ◌≡◌, Bool, true, false, [], some, arith, u64_mod, sub64,
}
use csed353_tcp.ByteStream
use csed353_tcp.Wrapping.{wrap, unwrap}
use csed353_tcp.Wrapping.Laws.{unwrap-wrap}
use csed353_tcp.Segment.{TcpSegment}
use csed353_tcp.Reassembler
use csed353_tcp.Reassembler.{push_substring}
use csed353_tcp.Reassembler.Empty.{push_empty-Unmoved}
use csed353_tcp.Receiver.{
  TcpReceiver, ackno, segment_received, synchronised, stream_out, unassembled_bytes, in_window,
}
use csed353_tcp.Receiver.Ack.{acknowledged, ackno-wrap}
use csed353_tcp.Receiver.Segments.{IsSynced}

-- A FIN segment with no payload whose stream index is `index`.
pub record IsBareFin (index : ℕ) (r : TcpReceiver) (seg : TcpSegment) : Type 0 where
  pub fin : seg.header.fin ≡ true
  pub no_syn : seg.header.syn ≡ false
  pub no_payload : seg.payload ≡ []
  pub seqno_of : seg.header.seqno ≡ wrap (index + 1) r.isn
  pub ahead : index + 1 ≤ r.reassembler.firstindex + 2 ^ 31
  pub behind : r.reassembler.firstindex < index + 2 ^ 31
  pub word : index + 2 < u64_mod

module _ (f : ℕ → ℕ) (n index : ℕ) (r : TcpReceiver) (seg : TcpSegment) (s : IsSynced f n r)
    (b : IsBareFin index r seg) where
  fin_number : unwrap seg.header.seqno r.isn (ByteStream.bytes_written (stream_out r)) ≡ index + 1
  unfolding ByteStream.bytes_written
  fin_number =
      let w = s.inv.delivered.written in
      rw b.seqno_of (
        unwrap-wrap (index + 1) r.isn (stream_out r).alwritten (omega (arith, b.word)) s.isn_word
          (omega (arith, w, s.short, s.inv.reached)) (omega (arith, w, b.ahead))
          (omega (arith, w, b.behind)))

  -- A bare FIN is counted as received at once, wherever it stands in the stream: with nothing
  -- stored, the next acknowledgment covers one number more than the SYN and the bytes written, so
  -- the first byte that is still missing if the FIN is ahead.
  pub bare_fin_acknowledged :
      unassembled_bytes r ≡ 0
      → (q : TcpReceiver) × (ok : Bool) × (segment_received r seg ≡ some (q, ok))
        × (ackno q ≡ some (wrap ((stream_out r).alwritten + 2) r.isn))
        × ((stream_out q).alwritten ≡ (stream_out r).alwritten)
  unfolding segment_received synchronised unassembled_bytes Reassembler.unassembled_bytes
  bare_fin_acknowledged h =
      let p = push_empty-Unmoved f n r.reassembler index seg.header.fin s.inv in
      let q : TcpReceiver = record r { reassembler = p.0; finset = true } in
      let i : sub64 (unwrap seg.header.seqno r.isn (ByteStream.bytes_written (stream_out r))) 1
          ≡ index =
        omega (arith, fin_number, b.word) in
      let pushed : push_substring r.reassembler seg.payload index seg.header.fin ≡ some p.0 =
        rw b.no_payload p.1 in
      let a = ackno-wrap r s.set (omega (arith, s.inv.delivered.written, s.short, s.inv.reached)) in
      let w = p.2.same_written in
      let a' =
        ackno-wrap q s.set (omega (arith, w, s.inv.delivered.written, s.short, s.inv.reached)) in
      let none_stored = p.2.same_count in
      (
        q,
        in_window r seg (wrap (acknowledged r) r.isn),
        ground (arith, a, i, pushed, s.set, b.no_syn, b.fin),
        ground (arith, a', none_stored, w, h),
        w,
      )
