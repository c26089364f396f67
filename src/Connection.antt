-- ===== src/Connection.antt =====
-- libsponge/tcp_connection.hh and tcp_connection.cc: an endpoint joins a sender and a receiver, passes
-- segments between them and the network, and decides when the connection is over.
-- `none` is an exception or a fault of a part: the reassembler's `std::out_of_range`, or `front()` of
-- an empty queue.
pub mod Output
pub mod Lifetime
pub mod Abort
pub mod Appended
use csed353_tcp.Prelude.{
  ℕ, ◌*◌, ◌%◌, Bool, true, false, not, ◌&&◌, ◌||◌, Option, none, some, List, [], ◌∷◌, ◌++◌, map,
  ltb, leb, ◌==◌, if◌then◌else◌, ◌>>=◌, Bytes, length, add64, sub64, u16_mod,
}
use csed353_tcp.Wrapping.{WrappingInt32}
use csed353_tcp.ByteStream
use csed353_tcp.ByteStream.{ByteStream}
use csed353_tcp.Segment.{TcpSegment, length_in_sequence_space}
use csed353_tcp.Receiver
use csed353_tcp.Receiver.{TcpReceiver}
use csed353_tcp.Sender
use csed353_tcp.Sender.{TcpSender}

-- class TCPConfig (libsponge/tcp_helpers/tcp_config.hh).
pub record TcpConfig : Type 0 where
  pub rt_timeout : ℕ
  pub recv_capacity : ℕ
  pub send_capacity : ℕ
  pub fixed_isn : Option WrappingInt32

abbrev pub max_retx_attempts : ℕ
max_retx_attempts = 8

-- class TCPConnection.
pub record TcpConnection : Type 0 where
  pub cfg : TcpConfig
  pub receiver : TcpReceiver
  pub sender : TcpSender
  pub segments_out : List TcpSegment
  pub linger_after_streams_finish : Bool
  pub rst : Bool
  pub time : ℕ
  pub last_segment_time : ℕ

-- `random` is the number that the sender draws where the configuration fixes none.
unfoldable pub init : TcpConfig → ℕ → TcpConnection
init cfg random = record {
  cfg = cfg;
  receiver = Receiver.init cfg.recv_capacity;
  sender = Sender.init cfg.send_capacity cfg.rt_timeout cfg.fixed_isn random;
  segments_out = [];
  linger_after_streams_finish = true;
  rst = false;
  time = 0;
  last_segment_time = 0;
}

-- `_sender.stream_in()` and `_receiver.stream_out()` are references: a change goes to their owner.
abbrev pub with_sender_stream : TcpConnection → (ByteStream → ByteStream) → TcpConnection
with_sender_stream c f = record c { sender = record (c.sender) { stream = f c.sender.stream } }

abbrev pub with_receiver_stream : TcpConnection → (ByteStream → ByteStream) → TcpConnection
with_receiver_stream c f = record c {
  receiver = record (c.receiver) {
    reassembler = record (c.receiver.reassembler) { output = f c.receiver.reassembler.output };
  };
}

unfoldable pub remaining_outbound_capacity : TcpConnection → ℕ
remaining_outbound_capacity c = ByteStream.remaining_capacity c.sender.stream

unfoldable pub bytes_in_flight : TcpConnection → ℕ
bytes_in_flight c = Sender.bytes_in_flight c.sender

unfoldable pub unassembled_bytes : TcpConnection → ℕ
unassembled_bytes c = Receiver.unassembled_bytes c.receiver

unfoldable pub time_since_last_segment_received : TcpConnection → ℕ
time_since_last_segment_received c = sub64 c.time c.last_segment_time

-- `receiver_info`: the acknowledgment and the window, cut to 16 bits, go into a segment.
unfoldable pub receiver_info : TcpReceiver → TcpSegment → TcpSegment
receiver_info r seg = elim (Receiver.ackno r) [
  | none ↦ seg
  | some ackno ↦ record seg {
    header = record (seg.header) {
      ack = true;
      ackno = ackno;
      win = Receiver.window_size r % u16_mod;
    };
  }
]

-- `_segment_out`: every segment of the sender's queue is completed and queued for the network.
unfoldable pub segment_out : TcpConnection → TcpConnection
segment_out c = record c {
  segments_out = c.segments_out ++ map (receiver_info c.receiver) c.sender.segments_out;
  sender = record (c.sender) { segments_out = [] };
}

unfoldable pub mark_rst : TcpSegment → TcpSegment
mark_rst seg = record seg { header = record (seg.header) { rst = true } }

-- The front of the sender's queue goes out as a reset.
unfoldable pub rst_front : TcpConnection → List TcpSegment → Option TcpConnection
unfolding mark_rst
rst_front c [] = none
rst_front c (seg ∷ rest) = some (record c {
  segments_out = c.segments_out ++ mark_rst (receiver_info c.receiver seg) ∷ [];
  sender = record (c.sender) { segments_out = rest };
})

-- `_rst_segment`.
unfoldable pub rst_segment : TcpConnection → Option TcpConnection
unfolding rst_front
rst_segment c =
    let sender : TcpSender =
      if length c.sender.segments_out == 0 then Sender.send_empty_segment c.sender else c.sender in
    rst_front (record c { sender = sender }) sender.segments_out

-- Both streams are put into the error state.
unfoldable pub reset : TcpConnection → TcpConnection
unfolding ByteStream.set_error
reset c =
    with_sender_stream (with_receiver_stream (record c { rst = true }) ByteStream.set_error)
      ByteStream.set_error

-- `_receiver.ackno().has_value()`.
unfoldable pub has_ackno : TcpReceiver → Bool
has_ackno r = elim (Receiver.ackno r) [ none ↦ false | some _ ↦ true ]

-- What follows the sender's turn in `segment_received`.
unfoldable pub answer : TcpConnection → TcpSegment → Bool → Option TcpConnection
unfolding segment_out has_ackno
answer c seg ack_no_check =
    Receiver.segment_received c.receiver seg >>= λ (receiver, payload_check).
    let d : TcpConnection = record c { receiver = receiver } in
    let e : TcpConnection =
      if length d.sender.segments_out == 0 && has_ackno receiver
      then record d { sender = Sender.send_empty_segment d.sender }
      else d in
    if length_in_sequence_space seg == 0 && payload_check && ack_no_check
    then some d
    else some (segment_out e)

unfoldable pub acknowledge : TcpConnection → TcpSegment → TcpConnection × Bool
acknowledge c seg =
    if seg.header.ack
    then (let (sender, ok) = Sender.ack_received c.sender seg.header.ackno seg.header.win in
        (record c { sender = sender }, ok))
    else (record c { sender = Sender.fill_window c.sender }, true)

unfoldable pub segment_received : TcpConnection → TcpSegment → Option TcpConnection
unfolding reset answer acknowledge has_ackno
segment_received c₀ seg =
    let c : TcpConnection = record c₀ { last_segment_time = c₀.time } in
    let passive : Bool =
      ByteStream.input_ended (Receiver.stream_out c.receiver) && not (Sender.fin_sent c.sender) in
    let d : TcpConnection =
      if passive then record c { linger_after_streams_finish = false } else c in
    let (e, ok) = acknowledge d seg in
    if seg.header.rst
    then some (reset c)
    else if not (has_ackno c.receiver) && (length_in_sequence_space seg == 0)
    then some c
    else answer e seg ok

unfoldable pub active : TcpConnection → Bool
unfolding time_since_last_segment_received
active c =
    if c.rst
    then false
    else if not (Sender.fin_sent c.sender)
        || not (Sender.fin_acked c.sender)
        || not (ByteStream.input_ended (Receiver.stream_out c.receiver))
    then true
    else if c.linger_after_streams_finish
    then (if leb (10 * c.cfg.rt_timeout) (time_since_last_segment_received c) then false else true)
    else false

unfoldable pub write : TcpConnection → Bytes → TcpConnection × ℕ
unfolding segment_out
write c bytes =
    let (stream, size) = ByteStream.write c.sender.stream bytes in
    (
      segment_out
          (record c { sender = Sender.fill_window (record (c.sender) { stream = stream }) }),
      size,
    )

unfoldable pub tick : TcpConnection → ℕ → Option TcpConnection
unfolding reset rst_segment segment_out
tick c ms = Sender.tick c.sender ms >>= λ sender.
    let d : TcpConnection = record c { sender = sender; time = add64 c.time ms } in
    (if ltb max_retx_attempts sender.consecutive_retrans then rst_segment (reset d) else some d)
    >>= λ e. some (segment_out e)

unfoldable pub end_input_stream : TcpConnection → TcpConnection
unfolding segment_out ByteStream.end_input
end_input_stream c =
    let sender : TcpSender = record (c.sender) { stream = ByteStream.end_input c.sender.stream } in
    segment_out (record c { sender = Sender.fill_window sender })

unfoldable pub connect : TcpConnection → TcpConnection
unfolding segment_out
connect c = segment_out (record c { sender = Sender.fill_window c.sender })

-- The destructor's last segment, for a connection that is still alive.
unfoldable pub destroy : TcpConnection → Option TcpConnection
unfolding rst_segment
destroy c = if active c then rst_segment c else some c
