-- ===== src/Tests/Connecting.antt =====
-- A connection (libsponge/tcp_connection.cc) at concrete inputs.
use csed353_tcp.Prelude.{◌≡◌, refl, true, false, Option, none, some, List, [], ◌∷◌, ◌++◌, arith}
use csed353_tcp.Wrapping.{WrappingInt32, wrap}
use csed353_tcp.ByteStream
use csed353_tcp.Reassembler
use csed353_tcp.Reassembler.{push_substring}
use csed353_tcp.Segment.{TcpSegment, empty_header, empty_segment}
use csed353_tcp.Receiver
use csed353_tcp.Receiver.{TcpReceiver}
use csed353_tcp.Sender
use csed353_tcp.Sender.{TcpSender}
use csed353_tcp.Connection.{
  TcpConnection, TcpConfig, init, active, segment_received, answer, reset, tick,
}
use csed353_tcp.Connection.Output.{Acknowledges, All, answer_acks}
use csed353_tcp.Connection.Lifetime.{Call, step, run, run-reset}
use csed353_tcp.Connection.Lifetime.Call.{receives, writes, ends, connects}
use csed353_tcp.Connection.Abort.{tick_gives_up}

abbrev isn : WrappingInt32
isn = record { raw_value = 4294967290 }

abbrev config : TcpConfig
config = record { rt_timeout = 1000; recv_capacity = 4; send_capacity = 4; fixed_isn = some isn }

abbrev fresh : TcpConnection
fresh = init config 0

-- A SYN of the peer.
abbrev syn : TcpSegment
syn = record empty_segment { header = record empty_header { syn = true; seqno = isn } }

abbrev rst : TcpSegment
rst = record empty_segment { header = record empty_header { rst = true; seqno = isn } }

abbrev result {ℓ} : {A : Type ℓ} → A → Option A → A
result a none = a
result a (some b) = b

-- The connection has answered the SYN.
abbrev answered : TcpConnection
answered = result fresh (answer fresh syn true)

answered_result : answer fresh syn true ≡ some answered
unfolding answer Receiver.segment_received init Receiver.init push_substring
answered_result = refl

answered_ackno : Receiver.ackno answered.receiver ≡ some (wrap 1 isn)
unfolding answer Receiver.ackno Receiver.segment_received init Receiver.init push_substring
    Sender.init Reassembler.init ByteStream.init
answered_ackno = refl

answer_acks_example :
    (first : TcpSegment) × (rest : List TcpSegment) × (answered.segments_out
      ≡ fresh.segments_out ++ first ∷ rest)
    × All (Acknowledges answered.receiver) (first ∷ rest)
answer_acks_example =
    answer_acks fresh answered syn true (wrap 1 isn) answered_result (omega arith) answered_ackno

-- Calls on a connection that was reset.
abbrev dead : TcpConnection
dead = reset fresh

abbrev calls : List Call
calls = connects ∷ receives rst ∷ writes (1 ∷ 2 ∷ []) ∷ ends ∷ []

abbrev left : TcpConnection
left = result fresh (run dead calls)

left_result : run dead calls ≡ some left
unfolding run step segment_received
left_result = refl

run-reset_example : active left ≡ false
unfolding reset
run-reset_example = run-reset calls dead left left_result refl

-- The SYN has been sent again eight times.
abbrev tired : TcpConnection
tired = record fresh {
  sender = record (Sender.fill_window fresh.sender) { consecutive_retrans = 8 };
}

abbrev exhausted : TcpSender
exhausted = result tired.sender (Sender.tick tired.sender 1000)

exhausted_result : Sender.tick tired.sender 1000 ≡ some exhausted
unfolding Sender.tick Sender.fill_window Sender.next_segment init Sender.init ByteStream.eof
    ByteStream.init ByteStream.buffer_size ByteStream.read Sender.rto_reset
exhausted_result = refl

exhausted_count : exhausted.consecutive_retrans ≡ 9
unfolding Sender.tick Sender.fill_window Sender.next_segment init Sender.init ByteStream.eof
    ByteStream.init ByteStream.buffer_size ByteStream.read Sender.rto_reset
exhausted_count = refl

tick_gives_up_example :
    (d : TcpConnection) × (tick tired 1000 ≡ some d)
    × (active d ≡ false)
    × (ByteStream.error d.sender.stream ≡ true)
    × (ByteStream.error (Receiver.stream_out d.receiver) ≡ true)
    × (seg : TcpSegment) × (rest : List TcpSegment) × (d.segments_out
        ≡ tired.segments_out ++ seg ∷ rest)
    × (seg.header.rst ≡ true)
tick_gives_up_example =
    tick_gives_up tired exhausted 1000 exhausted_result (omega (arith, exhausted_count))
