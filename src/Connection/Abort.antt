-- ===== src/Connection/Abort.antt =====
-- `tick` and `_rst_segment` of libsponge/tcp_connection.cc: how a connection is given up.
use csed353_tcp.Prelude.{
  ℕ, ◌<◌, ◌≡◌, refl, ap, ◌∙◌, true, false, some, List, [], ◌∷◌, ◌++◌, map, arith, length, ◌==◌,
  if◌then◌else◌, inl, inr, Bool-cases, add64, lt→ltb, append_assoc,
}
use csed353_tcp.ByteStream
use csed353_tcp.ByteStream.{ByteStream}
use csed353_tcp.Segment.{TcpSegment, empty_segment, empty_header}
use csed353_tcp.Receiver
use csed353_tcp.Receiver.{TcpReceiver}
use csed353_tcp.Sender
use csed353_tcp.Sender.{TcpSender}
use csed353_tcp.Connection.{
  TcpConnection, active, reset, tick, segment_out, rst_segment, rst_front, mark_rst, receiver_info,
  max_retx_attempts,
}

-- The connection after `_rst_segment`.
IsRstOf : TcpConnection → TcpConnection → Type 0
IsRstOf c d =
    (seg : TcpSegment) × (d.segments_out ≡ c.segments_out ++ seg ∷ [])
    × (seg.header.rst ≡ true)
    × (d.rst ≡ c.rst)
    × (d.receiver ≡ c.receiver)
    × (d.sender.stream ≡ c.sender.stream)

rst_front-IsRstOf :
    (c : TcpConnection) (segs : List TcpSegment)
    → length segs == 0 ≡ false
    → (d : TcpConnection) × (rst_front c segs ≡ some d) × IsRstOf c d
unfolding IsRstOf rst_front mark_rst
rst_front-IsRstOf c [] h = ground (arith, h)
rst_front-IsRstOf c (seg ∷ rest) h = (
  record c {
    segments_out = c.segments_out ++ mark_rst (receiver_info c.receiver seg) ∷ [];
    sender = record (c.sender) { segments_out = rest };
  },
  refl,
  (mark_rst (receiver_info c.receiver seg), refl, refl, refl, refl, refl),
)

-- The sender that `_rst_segment` takes the front of.
abbrev asked : TcpSender → TcpSender
asked s = if length s.segments_out == 0 then Sender.send_empty_segment s else s

snoc_length {ℓ} : {A : Type ℓ} (xs : List A) (x : A) → length (xs ++ x ∷ []) == 0 ≡ false
snoc_length [] x = refl
snoc_length (y ∷ ys) x = ground arith

asked_queue : (s : TcpSender) → length (asked s).segments_out == 0 ≡ false
unfolding Sender.send_empty_segment
asked_queue s = elim (Bool-cases (length s.segments_out == 0)) [
  | inl h ↦ ground (
    arith,
    h,
    snoc_length s.segments_out
        (record empty_segment { header = record empty_header { seqno = Sender.next_seqno s } }),
  )
  | inr h ↦ ground (arith, h)
]

asked_stream : (s : TcpSender) → (asked s).stream ≡ s.stream
unfolding Sender.send_empty_segment
asked_stream s = ground arith

-- `_rst_segment` returns.
rst_segment-IsRstOf :
    (c : TcpConnection) → (d : TcpConnection) × (rst_segment c ≡ some d) × IsRstOf c d
unfolding rst_segment IsRstOf
rst_segment-IsRstOf c =
    let (d, e, (seg, out, r, same, receiver, stream)) =
      rst_front-IsRstOf (record c { sender = asked c.sender }) (asked c.sender).segments_out
        (asked_queue c.sender) in
    (d, e, (seg, out, r, same, receiver, stream ∙ asked_stream c.sender))

-- A tick, which the sender takes without an exception, and after which it has retransmitted more than eight times in a row gives the connection
-- up: the tick returns, the connection is not active, both its streams are in the error state, and
-- among what the tick queued for the network is a reset segment.
pub tick_gives_up :
    (c : TcpConnection) (sender : TcpSender) (ms : ℕ)
    → Sender.tick c.sender ms ≡ some sender
    → max_retx_attempts < sender.consecutive_retrans
    → (d : TcpConnection) × (tick c ms ≡ some d)
      × (active d ≡ false)
      × (ByteStream.error d.sender.stream ≡ true)
      × (ByteStream.error (Receiver.stream_out d.receiver) ≡ true)
      × (seg : TcpSegment) × (rest : List TcpSegment) × (d.segments_out
          ≡ c.segments_out ++ seg ∷ rest)
      × (seg.header.rst ≡ true)
unfolding tick active reset segment_out ByteStream.error ByteStream.set_error IsRstOf
tick_gives_up c sender ms e h =
    let given : TcpConnection = reset (record c { sender = sender; time = add64 c.time ms }) in
    let (d, f, (seg, out, r, same, receiver, stream)) = rst_segment-IsRstOf given in
    (
      segment_out d,
      ground (arith, e, h, f, lt→ltb max_retx_attempts sender.consecutive_retrans h),
      ground (arith, same),
      ap (λ (b : ByteStream). b.error_flag) stream,
      ap (λ (x : TcpReceiver). x.reassembler.output.error_flag) receiver,
      seg,
      map (receiver_info d.receiver) d.sender.segments_out,
      ground (
        arith,
        out,
        append_assoc c.segments_out (seg ∷ [])
            (map (receiver_info d.receiver) d.sender.segments_out),
      ),
      r,
    )
