-- ===== src/Connection/Lifetime.antt =====
-- When a connection of libsponge/tcp_connection.cc is over.
use csed353_tcp.Prelude.{
  ℕ, ◌≡◌, refl, sym, subst, ◌∙◌, Bool, true, false, not, ◌&&◌, Option, some, Option-cases, List, [],
  ◌∷◌, arith, length, ◌==◌, if◌then◌else◌, ◌>>=◌, inl, inr, Bool-cases, Bytes, ◌⊎◌,
}
use csed353_tcp.ByteStream
use csed353_tcp.ByteStream.{ByteStream}
use csed353_tcp.Segment.{TcpSegment, length_in_sequence_space}
use csed353_tcp.Receiver
use csed353_tcp.Receiver.{TcpReceiver}
use csed353_tcp.Sender
use csed353_tcp.Sender.{TcpSender}
use csed353_tcp.Connection.{
  TcpConnection, active, segment_received, answer, acknowledge, reset, write, tick,
  end_input_stream, connect, segment_out, rst_segment, rst_front, has_ackno,
}

-- A reset segment puts both streams into the error state and ends the connection, without an
-- exception; the queues of segments of the connection and of its sender stay as they are, and so
-- does the clock.
pub segment_received_rst :
    (c : TcpConnection) (seg : TcpSegment)
    → seg.header.rst ≡ true
    → (d : TcpConnection) × (segment_received c seg ≡ some d)
      × (active d ≡ false)
      × (ByteStream.error d.sender.stream ≡ true)
      × (ByteStream.error (Receiver.stream_out d.receiver) ≡ true)
      × (d.segments_out ≡ c.segments_out)
      × (d.sender.segments_out ≡ c.sender.segments_out)
      × (d.time ≡ c.time)
unfolding segment_received active ByteStream.error
segment_received_rst c seg h = (
  reset (record c { last_segment_time = c.time }),
  ground (arith, h),
  refl,
  refl,
  refl,
  refl,
  refl,
  refl,
)

-- The calls of the owner and of the network.
pub data Call : Type 0 where
  receives : TcpSegment → Call
  writes : Bytes → Call
  ticks : ℕ → Call
  ends connects : Call

unfoldable pub step : TcpConnection → Call → Option TcpConnection
step c (receives seg) = segment_received c seg
step c (writes bytes) = some (write c bytes).0
step c (ticks ms) = tick c ms
step c ends = some (end_input_stream c)
step c connects = some (connect c)

unfoldable pub run : TcpConnection → List Call → Option TcpConnection
run c [] = some c
run c (x ∷ xs) = step c x >>= λ d. run d xs

rst-segment_out : (c : TcpConnection) → (segment_out c).rst ≡ c.rst
unfolding segment_out
rst-segment_out c = refl

rst-answer :
    (c d : TcpConnection) (seg : TcpSegment) (ok : Bool) → answer c seg ok ≡ some d → d.rst ≡ c.rst
unfolding answer segment_out
rst-answer c d seg ok e = ground arith

rst-acknowledge : (c : TcpConnection) (seg : TcpSegment) → (acknowledge c seg).0.rst ≡ c.rst
unfolding acknowledge
rst-acknowledge c seg = ground arith

rst-rst_front :
    (c d : TcpConnection) (segs : List TcpSegment) → rst_front c segs ≡ some d → d.rst ≡ c.rst
unfolding rst_front
rst-rst_front c d [] e = cc
rst-rst_front c d (seg ∷ segs) e = ground arith

rst-rst_segment : (c d : TcpConnection) → rst_segment c ≡ some d → d.rst ≡ c.rst
unfolding rst_segment
rst-rst_segment c d e =
    rst-rst_front
      (record c {
        sender =
            if length c.sender.segments_out == 0
            then Sender.send_empty_segment c.sender
            else c.sender;
      })
      d
      (if length c.sender.segments_out == 0
        then Sender.send_empty_segment c.sender
        else c.sender).segments_out
      e

-- The connection that `segment_received` acknowledges.
abbrev pub noticed : TcpConnection → TcpConnection
noticed c =
    let heard : TcpConnection = record c { last_segment_time = c.time } in
    if ByteStream.input_ended (Receiver.stream_out heard.receiver)
      && not (Sender.fin_sent heard.sender)
    then record heard { linger_after_streams_finish = false }
    else heard

rst-noticed : (c : TcpConnection) → (noticed c).rst ≡ c.rst
rst-noticed c = ground arith

-- What follows the tests of `segment_received`, from the connection it acknowledges.
rst-answered :
    (c d : TcpConnection) (seg : TcpSegment)
    → answer (acknowledge c seg).0 seg (acknowledge c seg).1 ≡ some d
    → d.rst ≡ c.rst
rst-answered c d seg e =
    rst-answer (acknowledge c seg).0 d seg (acknowledge c seg).1 e ∙ rst-acknowledge c seg

pub received_answer :
    (c : TcpConnection) (seg : TcpSegment)
    → seg.header.rst ≡ false
    → not (has_ackno c.receiver) && (length_in_sequence_space seg == 0) ≡ false
    → segment_received c seg
      ≡ answer (acknowledge (noticed c) seg).0 seg (acknowledge (noticed c) seg).1
unfolding segment_received
received_answer c seg h t = ground (arith, h, t)

segment_received_cases :
    (c d : TcpConnection) (seg : TcpSegment)
    → segment_received c seg ≡ some d
    → (d.rst ≡ true) ⊎ (d.rst ≡ c.rst)
unfolding segment_received reset
segment_received_cases c d seg e = elim (Bool-cases seg.header.rst) [
  | inl h ↦ inl (ground (arith, h))
  | inr h ↦ elim (Bool-cases (not (has_ackno c.receiver) && (length_in_sequence_space seg == 0))) [
    | inl t ↦ inr (ground (arith, h, t))
    | inr t ↦
        inr (rst-answered (noticed c) d seg (sym (received_answer c seg h t) ∙ e) ∙ rst-noticed c)
  ]
]

rst-segment_received :
    (c d : TcpConnection) (seg : TcpSegment)
    → segment_received c seg ≡ some d
    → c.rst ≡ true
    → d.rst ≡ true
rst-segment_received c d seg e h = elim (segment_received_cases c d seg e) [
  | inl r ↦ r
  | inr r ↦ r ∙ h
]

rst-tick : (c d : TcpConnection) (ms : ℕ) → tick c ms ≡ some d → c.rst ≡ true → d.rst ≡ true
unfolding tick reset segment_out
rst-tick c d ms e h = elim (Option-cases (Sender.tick c.sender ms)) [
  | inl n ↦ ground (arith, n)
  | inr (s, n) ↦ grind (arith, n, rst-rst_segment)
]

rst-step : (x : Call) (c d : TcpConnection) → step c x ≡ some d → c.rst ≡ true → d.rst ≡ true
unfolding step write tick end_input_stream connect segment_out segment_received
rst-step (receives seg) c d e h = rst-segment_received c d seg e h
rst-step (writes bytes) c d e h = ground (arith, e, h)
rst-step (ticks ms) c d e h = rst-tick c d ms e h
rst-step ends c d e h = ground (arith, e, h)
rst-step connects c d e h = ground (arith, e, h)

-- A connection that was reset stays reset: whatever calls follow, in any order, as long as they
-- return, it is not active after any of them.
pub run-reset :
    (calls : List Call) (c d : TcpConnection)
    → run c calls ≡ some d
    → c.rst ≡ true
    → active d ≡ false
unfolding active run
run-reset [] c d e h = ground (arith, e, h)
run-reset (x ∷ xs) c d e h = elim (Option-cases (step c x)) [
  | inl n ↦ ground (arith, n)
  | inr (f, n) ↦
      run-reset xs f d (subst (λ (o : Option TcpConnection). (o >>= λ b. run b xs) ≡ some d) n e)
        (rst-step x c f n h)
]
