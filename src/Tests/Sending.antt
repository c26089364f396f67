-- ===== src/Tests/Sending.antt =====
-- The sender (libsponge/tcp_sender.cc) at concrete inputs.
use csed353_tcp.Prelude.{◌≡◌, refl, true, false, some, arith}
use csed353_tcp.Wrapping.{WrappingInt32, wrap, unwrap}
use csed353_tcp.ByteStream
use csed353_tcp.Sender.{
  TcpSender, init, fill_window, next_segment, ack_received, advance, start, rto_reset,
}
use csed353_tcp.Sender.Invariant.{IsValid, init-IsValid}
use csed353_tcp.Sender.Filling.{Filled, fill_window-Filled}
use csed353_tcp.Sender.Popping.{Popped}
use csed353_tcp.Sender.Acks.{told, ack_received_unsent, ack_received_new}

abbrev isn : WrappingInt32
isn = record { raw_value = 4294967290 }

abbrev fresh : TcpSender
fresh = init 100 1000 (some isn) 0

fresh-IsValid : IsValid fresh
fresh-IsValid = init-IsValid 100 1000 0 isn (omega arith) (omega arith)

fill_window-Filled_example : Filled fresh (fill_window fresh)
fill_window-Filled_example = fill_window-Filled fresh fresh-IsValid

-- The SYN is in flight.
abbrev connecting : TcpSender
connecting = fill_window fresh

connecting-IsValid : IsValid connecting
connecting-IsValid = fill_window-Filled_example.valid

-- What has been computed of it.
record Facts : Type 0 where
  sent : connecting.byte_sent ≡ 1
  received : connecting.byte_received ≡ 0
  time : connecting.time ≡ 0
  timed : connecting.timer.active ≡ true
  since : connecting.timer.start_time ≡ 0
  rto : connecting.timer.rto ≡ 1000

facts : Facts
unfolding fill_window init next_segment ByteStream.eof ByteStream.init ByteStream.buffer_size
    ByteStream.read start rto_reset
facts = record { sent = refl; received = refl; time = refl; timed = refl; since = refl; rto = refl }

ack_received_new_example :
    let (t, ok) = ack_received connecting (wrap 1 connecting.isn) 3 in
    let mid = advance (told connecting 3) 1 in
    (ok ≡ true)
    × Filled mid t
    × (t.byte_received ≡ 1)
    × Popped connecting.isn connecting-IsValid.oldest connecting.byte_sent 1 connecting.unacked
        mid.unacked
ack_received_new_example =
    ack_received_new connecting connecting-IsValid 1 3 (omega arith) (omega arith)
      (omega (arith, facts.sent)) (omega arith) (omega (arith, facts.received))
      (omega (arith, facts.received)) (omega (arith, facts.sent))

ack_received_unsent_example :
    ack_received connecting (wrap 2 connecting.isn) 3 ≡ (told connecting 3, false)
ack_received_unsent_example =
    ack_received_unsent connecting connecting-IsValid 2 3 (omega arith) (omega arith)
      (omega (arith, facts.sent)) (omega arith) (omega (arith, facts.received))
      (omega (arith, facts.sent))

-- Everything sent is acknowledged.
abbrev connected : TcpSender
connected = (ack_received connecting (wrap 1 connecting.isn) 3).0

connected-IsValid : IsValid connected
connected-IsValid = ack_received_new_example.1.valid

connected_received : connected.byte_received ≡ 1
connected_received = ack_received_new_example.2

connected_sent : connected.byte_sent ≡ 1
unfolding ack_received fill_window init next_segment ByteStream.eof ByteStream.init
    ByteStream.buffer_size ByteStream.read unwrap
connected_sent = refl
