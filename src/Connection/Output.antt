-- ===== src/Connection/Output.antt =====
-- What libsponge/tcp_connection.cc hands to the network.
use mathlib.Core.Path.{subst}
use csed353_tcp.Prelude.{
  ◌<◌, ◌%◌, ◌≡◌, refl, sym, ap, ◌∙◌, Bool, true, ◌&&◌, none, some, Option-cases, List, [], ◌∷◌,
  ◌++◌, map, arith, length, ◌==◌, if◌then◌else◌, inl, inr, u16_mod, length-map,
}
use csed353_tcp.Wrapping.{WrappingInt32}
use csed353_tcp.Segment.{TcpSegment, empty_segment, empty_header, length_in_sequence_space}
use csed353_tcp.Receiver
use csed353_tcp.Receiver.{TcpReceiver}
use csed353_tcp.Sender
use csed353_tcp.Connection.{TcpConnection, receiver_info, segment_out, answer, has_ackno}

-- The segment acknowledges what the receiver has and announces its window.
pub record Acknowledges (r : TcpReceiver) (seg : TcpSegment) : Type 0 where
  pub ack : seg.header.ack ≡ true
  pub ackno : Receiver.ackno r ≡ some seg.header.ackno
  pub win : seg.header.win ≡ Receiver.window_size r % u16_mod

abbrev pub All {ℓ} : (TcpSegment → Type ℓ) → List TcpSegment → Type ℓ
All P [] = Unit
All P (seg ∷ segs) = P seg × All P segs

receiver_info-Acknowledges :
    (r : TcpReceiver) (seg : TcpSegment) (a : WrappingInt32)
    → Receiver.ackno r ≡ some a
    → Acknowledges r (receiver_info r seg)
unfolding receiver_info
receiver_info-Acknowledges r seg a e = ground (arith, e)

map_info :
    (r : TcpReceiver) (a : WrappingInt32) (segs : List TcpSegment)
    → Receiver.ackno r ≡ some a
    → All (Acknowledges r) (map (receiver_info r) segs)
map_info r a [] e = tt
map_info r a (seg ∷ segs) e = (receiver_info-Acknowledges r seg a e, map_info r a segs e)

-- `_segment_out` empties the sender's queue: once there is something to acknowledge, as many segments
-- as it held are queued for the network, and each acknowledges what the receiver has and announces
-- its window.
pub segment_out-Acknowledges :
    (c : TcpConnection) (a : WrappingInt32)
    → Receiver.ackno c.receiver ≡ some a
    → (segs : List TcpSegment) × ((segment_out c).segments_out ≡ c.segments_out ++ segs)
      × (length segs ≡ length c.sender.segments_out)
      × All (Acknowledges c.receiver) segs
      × ((segment_out c).sender.segments_out ≡ [])
unfolding segment_out
segment_out-Acknowledges c a e = (
  map (receiver_info c.receiver) c.sender.segments_out,
  refl,
  length-map (receiver_info c.receiver) c.sender.segments_out,
  map_info c.receiver a c.sender.segments_out e,
  refl,
)

-- The sender's queue before the answer goes out: never empty, once there is something to acknowledge.
abbrev reply_sender : TcpConnection → TcpReceiver → Sender.TcpSender
reply_sender c r =
    if length c.sender.segments_out == 0 && has_ackno r
    then Sender.send_empty_segment c.sender
    else c.sender

reply_queue :
    (c : TcpConnection) (r : TcpReceiver) (segs : List TcpSegment) (a : WrappingInt32)
    → c.sender.segments_out ≡ segs
    → Receiver.ackno r ≡ some a
    → (y : TcpSegment) × (ys : List TcpSegment) × ((reply_sender c r).segments_out ≡ y ∷ ys)
unfolding has_ackno Sender.send_empty_segment
reply_queue c r [] a e h =
    let y : TcpSegment = record empty_segment {
      header = record empty_header { seqno = Sender.next_seqno c.sender };
    } in
    (y, [], ground (arith, e, h))
reply_queue c r (x ∷ xs) a e h = (x, xs, ground (arith, e, h))

answer_eq :
    (c : TcpConnection) (seg : TcpSegment) (ok check : Bool) (r : TcpReceiver)
    → Receiver.segment_received c.receiver seg ≡ some (r, check)
    → 0 < length_in_sequence_space seg
    → answer c seg ok ≡ some (segment_out (record c { receiver = r; sender = reply_sender c r }))
unfolding answer
answer_eq c seg ok check r e pos = ground (arith, e)

sent_reply :
    (c : TcpConnection) (r : TcpReceiver) (a : WrappingInt32)
    → Receiver.ackno r ≡ some a
    → let d : TcpConnection = segment_out (record c { receiver = r; sender = reply_sender c r }) in
      (first : TcpSegment) × (rest : List TcpSegment) × (d.segments_out
        ≡ c.segments_out ++ first ∷ rest)
      × All (Acknowledges d.receiver) (first ∷ rest)
unfolding segment_out
sent_reply c r a h =
    let q = reply_queue c r c.sender.segments_out a refl h in
    (
      receiver_info r q.0,
      map (receiver_info r) q.1,
      ap (λ l. c.segments_out ++ map (receiver_info r) l) q.2,
      map_info r a (q.0 ∷ q.1) h,
    )

ackno_of :
    (c : TcpConnection) (r : TcpReceiver)
    → Receiver.ackno (segment_out (record c { receiver = r; sender = reply_sender c r })).receiver
      ≡ Receiver.ackno r
unfolding segment_out
ackno_of c r = refl

no_result : {c : TcpConnection} → none ≡ some c → ⊥
no_result e = cc

some_eq : {c d : TcpConnection} → some c ≡ some d → c ≡ d
some_eq e = cc

unanswered :
    (c : TcpConnection) (seg : TcpSegment) (ok : Bool)
    → Receiver.segment_received c.receiver seg ≡ none
    → answer c seg ok ≡ none
unfolding answer
unanswered c seg ok e = ground (arith, e)

-- A segment that takes up sequence numbers is answered, once the sender has taken its acknowledgment:
-- if the receiver, after it, has
-- something to acknowledge, at least one segment is queued for the network, and all those that
-- are acknowledge what the receiver has by then and announce its window.
pub answer_acks :
    (c d : TcpConnection) (seg : TcpSegment) (ok : Bool) (a : WrappingInt32)
    → answer c seg ok ≡ some d
    → 0 < length_in_sequence_space seg
    → Receiver.ackno d.receiver ≡ some a
    → (first : TcpSegment) × (rest : List TcpSegment) × (d.segments_out
        ≡ c.segments_out ++ first ∷ rest)
      × All (Acknowledges d.receiver) (first ∷ rest)
answer_acks c d seg ok a e pos h = elim (Option-cases (Receiver.segment_received c.receiver seg)) [
  | inl fault ↦ absurd (no_result (sym (unanswered c seg ok fault) ∙ e))
  | inr ((r, check), got) ↦
      let mid : TcpConnection = record c { receiver = r; sender = reply_sender c r } in
      let eq : segment_out mid ≡ d = some_eq (sym (answer_eq c seg ok check r got pos) ∙ e) in
      subst
        (λ (d' : TcpConnection).
          (first : TcpSegment) × (rest : List TcpSegment) × (d'.segments_out
            ≡ c.segments_out ++ first ∷ rest)
          × All (Acknowledges d'.receiver) (first ∷ rest))
        eq
        (sent_reply c r a
          (sym (ackno_of c r) ∙ ap (λ (d' : TcpConnection). Receiver.ackno d'.receiver) eq ∙ h))
]
