-- ===== src/TcpState/Summaries.antt =====
-- What libsponge/tcp_helpers/tcp_state.cc says of senders and connections.
use csed353_tcp.Prelude.{
  ℕ, ◌+◌, ◌-◌, ◌≤◌, ◌≡◌, ◌↔◌, refl, sym, ap, ◌∙◌, true, false, some, List, [], ◌∷◌, arith, length,
  ◌==◌, some-injective,
}
use csed353_tcp.ByteStream
use csed353_tcp.Connection
use csed353_tcp.Connection.{TcpConnection, TcpConfig, reset}
use csed353_tcp.Segment.{TcpSegment, length_in_sequence_space}
use csed353_tcp.Sender
use csed353_tcp.Sender.{TcpSender}
use csed353_tcp.Sender.Invariant
use csed353_tcp.Sender.Invariant.{Chain, Pending}
use csed353_tcp.Receiver
use csed353_tcp.Reassembler
use csed353_tcp.TcpState.{
  State, of_state, state, SenderSummary, sender_summary, receiver_summary, summarise,
}
use csed353_tcp.Wrapping.{WrappingInt32}

-- A new connection is in the state LISTEN.
pub state-init :
    (cfg : TcpConfig) (random : ℕ) → state (Connection.init cfg random) ≡ of_state State.listen
unfolding state of_state Connection.init Sender.init Receiver.init summarise receiver_summary
    sender_summary ByteStream.error ByteStream.init Connection.active Connection.has_ackno
    Receiver.ackno Sender.fin_sent Sender.fin_acked Reassembler.init
state-init cfg random = refl

-- A reset is the state RESET.
state-reset : (c : TcpConnection) → state (reset c) ≡ of_state State.reset
unfolding state of_state reset summarise receiver_summary sender_summary ByteStream.set_error
    ByteStream.error Connection.active
state-reset c = refl

-- A segment with the RST flag puts a connection into the state RESET, whatever state it was in.
pub segment_received-reset :
    (c d : TcpConnection) (seg : TcpSegment)
    → seg.header.rst ≡ true
    → Connection.segment_received c seg ≡ some d
    → state d ≡ of_state State.reset
unfolding Connection.segment_received
segment_received-reset c d seg h e =
    let ok : Connection.segment_received c seg
        ≡ some (reset (record c { last_segment_time = c.time })) =
      rw (h, Connection.segment_received) refl in
    sym (ap state (some-injective (sym ok ∙ e)))
    ∙ state-reset (record c { last_segment_time = c.time })

-- The chain of segments goes up.
Chain-le : (isn : WrappingInt32) (a b : ℕ) (segs : List TcpSegment) → Chain isn a b segs → a ≤ b
Chain-le isn a b [] ch = omega (arith, ch)
Chain-le isn a b (x ∷ xs) ch =
    omega (arith, Chain-le isn (a + length_in_sequence_space x) b xs ch.3)

-- No segment is in flight just where all numbers are acknowledged.
Chain-acked :
    (isn : WrappingInt32) (a b r : ℕ) (segs : List TcpSegment)
    → Chain isn a b segs
    → Pending a r segs
    → (length segs == 0) ≡ (b == r)
Chain-acked isn a b r [] ch p = ground (arith, ch, p)
Chain-acked isn a b r (x ∷ xs) ch p =
    let up : a + length_in_sequence_space x ≤ b =
      Chain-le isn (a + length_in_sequence_space x) b xs ch.3 in
    ground (arith, p, up)

-- For a valid sender whose stream is not in the error state, the summary is FIN_ACKED just where the
-- sender itself, by its flag and its queue, has sent a FIN and has nothing unacknowledged.
pub sender_summary-fin_acked :
    (s : TcpSender)
    → Invariant.IsValid s
    → ByteStream.error s.stream ≡ false
    → (sender_summary s ≡ SenderSummary.fin_acked) ↔ (Sender.fin_acked s ≡ true)
unfolding sender_summary Sender.bytes_in_flight Sender.fin_acked Sender.fin_sent ByteStream.eof
    ByteStream.buffer_empty ByteStream.bytes_written ByteStream.error
sender_summary-fin_acked s v live =
    let queue : (length s.unacked == 0) ≡ (s.byte_sent == s.byte_received) =
      Chain-acked s.isn v.oldest s.byte_sent s.byte_received s.unacked v.chain v.pending in
    let flight : Sender.bytes_in_flight s ≡ s.byte_sent - s.byte_received =
      omega (arith, v.ordered, v.small, v.narrow) in
    (
      (λ h. ground (
        arith, h, queue, flight, live, v.counted, v.finished, v.ordered, v.small, v.narrow,
        v.stream_ok.balance, v.stream_ok.within, v.stream_ok.word,
      )),
      (λ h. ground (
        arith, h, queue, flight, live, v.counted, v.finished, v.ordered, v.small, v.narrow,
        v.stream_ok.balance, v.stream_ok.within, v.stream_ok.word,
      )),
    )
