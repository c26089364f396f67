-- ===== src/Connection/Appended.antt =====
-- What the calls of a connection (libsponge/tcp_connection.cc) do with the bytes that wait for its owner.
use csed353_tcp.Prelude.{
  ℕ, ◌≡◌, refl, sym, ap, ◌∙◌, subst, Bool, not, ◌&&◌, Option, none, some, List, [], ◌∷◌, ◌++◌,
  arith, ltb, ◌==◌, if◌then◌else◌, Bytes, length, add64, Bool-cases, if_lem, inl, inr, bind-eq-some,
  some-injective,
}
use csed353_tcp.ByteStream
use csed353_tcp.ByteStream.{ByteStream}
use csed353_tcp.Connection.{
  TcpConnection, segment_received, answer, acknowledge, reset, write, tick, end_input_stream,
  segment_out, rst_segment, rst_front, has_ackno, max_retx_attempts,
}
use csed353_tcp.Connection.Lifetime.{noticed, received_answer}
use csed353_tcp.Receiver
use csed353_tcp.Receiver.{TcpReceiver}
use csed353_tcp.Segment.{TcpSegment, length_in_sequence_space}
use csed353_tcp.Sender
use csed353_tcp.Sender.{TcpSender}
use csed353_tcp.Receiver.Appended.{Extends, Extends-same, Goes, receiver-Goes}

-- The bytes of the receiver's stream.
abbrev pub held : TcpConnection → Bytes
held c = (Receiver.stream_out c.receiver).content

answer-Extends :
    (c d : TcpConnection) (seg : TcpSegment) (ok : Bool)
    → answer c seg ok ≡ some d
    → Extends (held c) (held d)
unfolding answer segment_out
answer-Extends c d seg ok h =
    let ((q, check), e, r) = bind-eq-some (Receiver.segment_received c.receiver seg) _ _ h in
    let goes : Goes c.receiver.reassembler q.reassembler = receiver-Goes c.receiver seg q check e in
    let Kept : Option TcpConnection → Type 0 =
      λ x. (d : TcpConnection) × (x ≡ some d) × (held d ≡ q.reassembler.output.content) in
    let f : TcpConnection = record c { receiver = q } in
    let asked : TcpConnection = record f { sender = Sender.send_empty_segment f.sender } in
    let g : TcpConnection = if length f.sender.segments_out == 0 && has_ackno q then asked else f in
    let same : held g ≡ q.reassembler.output.content =
      if_lem (λ (x : TcpConnection). held x ≡ q.reassembler.output.content)
        (length f.sender.segments_out == 0 && has_ackno q) {x = asked} {y = f} refl refl in
    let (d', e', k) =
      if_lem Kept (length_in_sequence_space seg == 0 && check && ok) {x = some f}
        {y = some (segment_out g)} (f, refl, refl) (segment_out g, refl, same) in
    let eq : d' ≡ d = some-injective (sym e' ∙ r) in
    subst (λ (x : Bytes). Extends (held c) x) (sym k ∙ ap held eq) goes

held-acknowledge : (c : TcpConnection) (seg : TcpSegment) → held (acknowledge c seg).0 ≡ held c
unfolding acknowledge
held-acknowledge c seg = ground arith

held-noticed : (c : TcpConnection) → held (noticed c) ≡ held c
held-noticed c = ground arith

-- A segment from the network only puts bytes behind those that wait for the owner, or none.
pub segment_received-Extends :
    (c d : TcpConnection) (seg : TcpSegment)
    → segment_received c seg ≡ some d
    → Extends (held c) (held d)
unfolding segment_received reset ByteStream.set_error
segment_received-Extends c d seg h =
    let unknown : Bool = not (has_ackno c.receiver) && (length_in_sequence_space seg == 0) in
    elim (Bool-cases seg.header.rst) [
      | inl y ↦ Extends-same _ _ (ap held (some-injective (sym (rw y at h))))
      | inr y ↦ elim (Bool-cases unknown) [
        | inl z ↦ Extends-same _ _ (ap held (some-injective (sym (rw (y, z) at h))))
        | inr z ↦
            let e = sym (received_answer c seg y z) ∙ h in
            let (n, ok) = acknowledge (noticed c) seg in
            let (m, same) = answer-Extends n d seg ok e in
            (
              m,
              same ∙ ap (λ (x : Bytes). x ++ m) (held-acknowledge (noticed c) seg ∙ held-noticed c),
            )
      ]
    ]

held-rst_front :
    (c d : TcpConnection) (segs : List TcpSegment) → rst_front c segs ≡ some d → held d ≡ held c
unfolding rst_front
held-rst_front c d [] h = absurd (let bad : none ≡ some d = h in cc)
held-rst_front c d (seg ∷ segs) h = ap held (sym (some-injective h))

held-rst_segment : (c d : TcpConnection) → rst_segment c ≡ some d → held d ≡ held c
unfolding rst_segment
held-rst_segment c d h =
    let sender : TcpSender =
      if length c.sender.segments_out == 0 then Sender.send_empty_segment c.sender else c.sender in
    held-rst_front (record c { sender = sender }) d sender.segments_out h

pub held-tick : (c d : TcpConnection) (ms : ℕ) → tick c ms ≡ some d → held d ≡ held c
unfolding tick reset segment_out ByteStream.set_error
held-tick c d ms h =
    let (sender, _, r) = bind-eq-some (Sender.tick c.sender ms) _ _ h in
    let f : TcpConnection = record c { sender = sender; time = add64 c.time ms } in
    let (g, e, q) =
      bind-eq-some
        (if ltb max_retx_attempts sender.consecutive_retrans then rst_segment (reset f) else some f)
        _ _ r in
    let same : held g ≡ held c =
      elim (Bool-cases (ltb max_retx_attempts sender.consecutive_retrans)) [
        | inl y ↦
            let c : rst_segment (reset f) ≡ some g = sym (rw y refl) ∙ e in
            held-rst_segment (reset f) g c
        | inr y ↦
            let same : some f ≡ some g = sym (rw y refl) ∙ e in ap held (sym (some-injective same))
      ] in
    ap held (sym (some-injective q)) ∙ same

pub held-write : (c : TcpConnection) (bytes : Bytes) → held (write c bytes).0 ≡ held c
unfolding write segment_out
held-write c bytes = refl

pub held-end_input_stream : (c : TcpConnection) → held (end_input_stream c) ≡ held c
unfolding end_input_stream segment_out
held-end_input_stream c = refl
