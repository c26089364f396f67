-- ===== src/Tests/Looping.antt =====
-- The event loop and the rules of the sponge socket at concrete inputs.
use csed353_tcp.Prelude.{
  ◌≡◌, refl, true, false, Option, none, some, List, [], ◌∷◌, ◌++◌, ◌<◌, ◌⊎◌, ◌||◌, length, Bytes,
  if◌then◌else◌,
}
use csed353_tcp.ByteStream
use csed353_tcp.Buffer.{view_size_from, view_remove_prefix}
use csed353_tcp.Connection
use csed353_tcp.Connection.{TcpConnection, TcpConfig}
use csed353_tcp.Descriptor
use csed353_tcp.Descriptor.{FdWrapper, open_fd, register_read}
use csed353_tcp.EventLoop.{
  Rule, Direction, Result, PollFd, PollAnswer, always, do_nothing, prepare, something_to_poll,
  wait_next_event,
}
use csed353_tcp.EventLoop.Rounds.{wait_next_event-failed}
use csed353_tcp.Reassembler
use csed353_tcp.Receiver
use csed353_tcp.Sender
use csed353_tcp.Segment.{empty_segment}
use csed353_tcp.SpongeSocket.{SpongeSocket, inbound, write_inbound, read_outbound, finish_outbound}
use csed353_tcp.SpongeSocket.Moves.{write_inbound-conserved, read_outbound-accepted}
use csed353_tcp.Tests.Machine.{Machine, machine, adapter, machine-IsStream}

-- A descriptor that is read whenever it is ready.
abbrev reader : Rule FdWrapper
reader = record {
  fd = λ d. d;
  direction = Direction.reading;
  callback = λ d. some (register_read d);
  interest = always;
  cancel = do_nothing;
}

abbrev entries : List (Rule FdWrapper × PollFd)
entries = (reader, record { fd = 4; events = some Direction.reading }) ∷ []

wait_next_event-failed_example :
    wait_next_event (λ s es. (s, PollAnswer.failed)) (reader ∷ []) (open_fd 4)
    ≡ some (Result.success, (reader ∷ [], open_fd 4))
unfolding prepare something_to_poll open_fd
wait_next_event-failed_example =
    wait_next_event-failed (λ s es. (s, PollAnswer.failed)) (reader ∷ []) (open_fd 4) (open_fd 4)
      (open_fd 4) entries refl refl refl

-- A connection that has received three bytes, and has a segment to send.
abbrev config : TcpConfig
config = record {
  rt_timeout = 1000;
  recv_capacity = 4;
  send_capacity = 4;
  fixed_isn = some (record { raw_value = 7 });
}

abbrev holding : TcpConnection
holding =
    record (Connection.with_receiver_stream (Connection.init config 0)
      (λ stream. record stream { content = 1 ∷ 2 ∷ 3 ∷ [] })) { segments_out = empty_segment ∷ [] }

abbrev world : Machine
world = record {
  sent = λ x. [];
  received = λ x. [];
  supply = λ x. 6 ∷ 7 ∷ 8 ∷ [];
  incoming = [];
  wire = [];
  clock = 0;
}

abbrev socket : SpongeSocket Machine FdWrapper
socket = record {
  world = world;
  thread_data = open_fd 5;
  datagram_adapter = open_fd 6;
  tcp = holding;
  inbound_shutdown = false;
  outbound_shutdown = false;
  fully_acked = false;
}

abbrev result : Option (SpongeSocket Machine FdWrapper) → SpongeSocket Machine FdWrapper
result none = socket
result (some t) = t

abbrev read_result : Option (FdWrapper × (Machine × Bytes)) → FdWrapper × (Machine × Bytes)
read_result none = (open_fd 5, (world, []))
read_result (some r) = r

-- Two of the bytes go to the owner.
abbrev written : SpongeSocket Machine FdWrapper
written = result (write_inbound machine adapter socket)

written_result : write_inbound machine adapter socket ≡ some written
unfolding write_inbound Descriptor.write view_size_from view_remove_prefix ByteStream.peek_output
    ByteStream.pop_output ByteStream.buffer_size ByteStream.eof ByteStream.buffer_empty
    ByteStream.error open_fd Connection.init Receiver.init Reassembler.init ByteStream.init
written_result = refl

write_inbound-conserved_example :
    (written.world.sent 5 ++ (inbound written).content ≡ 1 ∷ 2 ∷ 3 ∷ [])
    × ((length (inbound socket).content ≡ 0) ⊎ (length (inbound written).content < 3))
    × (written.inbound_shutdown ≡ (
        if ByteStream.eof (inbound written) || ByteStream.error (inbound written)
        then true
        else false))
unfolding open_fd Connection.init Receiver.init Reassembler.init ByteStream.init
write_inbound-conserved_example =
    write_inbound-conserved machine adapter (λ w. w.sent) machine-IsStream socket written
      written_result

-- A read of the owner's bytes: three of them.
abbrev got : FdWrapper × (Machine × Bytes)
got = read_result (Descriptor.read machine (open_fd 5) world 3)

got_result :
    Descriptor.read machine (open_fd 5) world (Connection.remaining_outbound_capacity holding)
    ≡ some got
unfolding Descriptor.read open_fd Connection.init Sender.init ByteStream.init
    Connection.remaining_outbound_capacity ByteStream.remaining_capacity
got_result = refl

read_outbound-accepted_example :
    let (tcp, amount) = Connection.write holding got.1.1 in
    let t : SpongeSocket Machine FdWrapper = record socket {
      world = got.1.0;
      thread_data = got.0;
      tcp = tcp;
    } in
    (amount ≡ 3)
    × (read_outbound machine adapter socket ≡ some (if got.0.eof then finish_outbound t else t))
unfolding Descriptor.read open_fd
read_outbound-accepted_example =
    read_outbound-accepted machine adapter socket got.0 got.1.0 got.1.1 got_result
