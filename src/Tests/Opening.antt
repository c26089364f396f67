-- ===== src/Tests/Opening.antt =====
-- How a sponge socket connects (libsponge/tcp_helpers/tcp_sponge_socket.cc), at concrete inputs.
use csed353_tcp.Prelude.{
  ℕ, Bytes, ◌≡◌, refl, sym, ap, some-injective, inl, inr, true, false, Option, none, some, List, [],
  ◌∷◌, map, Bool,
}
use csed353_tcp.Adapter.{FdAdapterConfig}
use csed353_tcp.ByteStream
use csed353_tcp.Buffer.{view_size_from, view_remove_prefix}
use csed353_tcp.Connection
use csed353_tcp.Connection.{TcpConnection, TcpConfig}
use csed353_tcp.Descriptor
use csed353_tcp.Descriptor.{FdWrapper, open_fd}
use csed353_tcp.EventLoop.{PollFd, PollAnswer, wait_next_event}
use csed353_tcp.Reassembler
use csed353_tcp.Reassembler.{push_substring}
use csed353_tcp.Receiver
use csed353_tcp.Segment.{TcpSegment, empty_header, empty_segment}
use csed353_tcp.Sender
use csed353_tcp.SpongeSocket.{
  SpongeSocket, rules, receive_datagram, read_outbound, write_inbound, send_datagrams,
  wants_datagram, wants_outbound, wants_inbound, wants_send,
}
use csed353_tcp.SpongeSocket.Session.{
  ClosedSocket, Session, Ending, in_state, start_connect, tcp_loop, connect,
}
use csed353_tcp.SpongeSocket.Session.Opening.{connect-starts, syn_segment}
use csed353_tcp.Receiver.Appended.{Extends}
use csed353_tcp.SpongeSocket.Session.Inbound.{Apart, bytes_of}
use csed353_tcp.SpongeSocket.Session.Looped.{tcp_loop-appends}
use csed353_tcp.Tests.Machine.{
  Machine, machine, adapter, machine-IsStream, machine-IsRecord, take_first-sent,
}
use csed353_tcp.TcpState.{State, state, of_state, same_state, same_sender, same_receiver}
use csed353_tcp.Wrapping.{wrap, unwrap}

abbrev config : TcpConfig
config = record {
  rt_timeout = 1000;
  recv_capacity = 4;
  send_capacity = 4;
  fixed_isn = some (record { raw_value = 7 });
}

abbrev anywhere : FdAdapterConfig
anywhere = record {
  source = record { ipv4_numeric = 1; port = 2 };
  destination = record { ipv4_numeric = 3; port = 4 };
  loss_rate_dn = 0;
  loss_rate_up = 0;
}

-- The answer of a peer to a SYN with the number 7.
abbrev syn_ack : TcpSegment
syn_ack = record empty_segment {
  header = record empty_header {
    syn = true;
    ack = true;
    seqno = record { raw_value = 100 };
    ackno = record { raw_value = 8 };
    win = 1000;
  };
}

abbrev closed : ClosedSocket Machine FdWrapper
closed = record {
  world = record {
    sent = λ x. [];
    received = λ x. [];
    supply = λ x. 6 ∷ 7 ∷ 8 ∷ [];
    incoming = syn_ack ∷ [];
    wire = [];
    clock = 0;
  };
  thread_data = open_fd 5;
  datagram_adapter = open_fd 6;
  tcp = none;
}

abbrev poll :
    SpongeSocket Machine FdWrapper → List PollFd → SpongeSocket Machine FdWrapper × PollAnswer
poll s entries = (
  s,
  PollAnswer.ready (
      map
        (λ (x : PollFd). record {
          readable = true;
          writable = true;
          hangup = false;
          failure = false;
        })
        entries),
)

abbrev aborted : Machine → Bool
aborted w = false

abbrev begun : Session Machine FdWrapper
begun = start_connect machine adapter closed config anywhere 0

connect-starts_example :
    (connect machine adapter poll aborted 5 closed config anywhere 0
      ≡ tcp_loop machine adapter poll aborted 5 (in_state State.syn_sent) begun)
    × (state begun.socket.tcp ≡ of_state State.syn_sent)
    × (begun.socket.tcp.segments_out ≡ syn_segment begun.socket.tcp.sender.isn ∷ [])
connect-starts_example = connect-starts machine adapter poll aborted 5 closed config anywhere 0 refl

abbrev result : Option (Ending × Session Machine FdWrapper) → Session Machine FdWrapper
result none = begun
result (some (ending, m)) = m

abbrev opened : Session Machine FdWrapper
opened = result (connect machine adapter poll aborted 5 closed config anywhere 0)

opened_result :
    connect machine adapter poll aborted 5 closed config anywhere 0
    ≡ some (Ending.fulfilled, opened)
unfolding connect rules wait_next_event receive_datagram read_outbound write_inbound send_datagrams
    wants_datagram wants_outbound wants_inbound wants_send open_fd Descriptor.read Descriptor.write
    Descriptor.shutdown view_size_from view_remove_prefix push_substring Reassembler.init state
    of_state same_state same_sender same_receiver Connection.init Connection.connect
    Connection.segment_received Connection.active Connection.write Connection.bytes_in_flight
    Connection.tick Connection.remaining_outbound_capacity Connection.end_input_stream Receiver.init
    Receiver.segment_received Receiver.ackno Receiver.window_size Sender.init Sender.fill_window
    Sender.next_segment Sender.ack_received Sender.tick Sender.bytes_in_flight Sender.fin_sent
    Sender.fin_acked Sender.send_empty_segment ByteStream.write ByteStream.read
    ByteStream.peek_output ByteStream.pop_output ByteStream.buffer_size ByteStream.eof
    ByteStream.buffer_empty ByteStream.remaining_capacity ByteStream.end_input ByteStream.error
    ByteStream.init ByteStream.input_ended wrap unwrap
opened_result = refl

-- Two bytes from the peer, after its answer.
abbrev data_segment : TcpSegment
data_segment = record {
  header = record empty_header {
    ack = true;
    seqno = record { raw_value = 101 };
    ackno = record { raw_value = 8 };
    win = 1000;
  };
  payload = 1 ∷ 2 ∷ [];
}

abbrev started : Session Machine FdWrapper
started =
    start_connect machine adapter
      (record closed { world = record (closed.world) { incoming = syn_ack ∷ data_segment ∷ [] } })
      config anywhere 0

abbrev ran : Session Machine FdWrapper
ran = result (tcp_loop machine adapter poll aborted 3 (λ s. true) started)

ran_result :
    tcp_loop machine adapter poll aborted 3 (λ s. true) started ≡ some (Ending.running, ran)
unfolding start_connect tcp_loop rules wait_next_event receive_datagram read_outbound write_inbound
    send_datagrams wants_datagram wants_outbound wants_inbound wants_send open_fd Descriptor.read
    Descriptor.write Descriptor.shutdown view_size_from view_remove_prefix push_substring
    Reassembler.init state of_state same_state same_sender same_receiver Connection.init
    Connection.connect Connection.segment_received Connection.active Connection.write
    Connection.bytes_in_flight Connection.tick Connection.remaining_outbound_capacity
    Connection.end_input_stream Receiver.init Receiver.segment_received Receiver.ackno
    Receiver.window_size Sender.init Sender.fill_window Sender.next_segment Sender.ack_received
    Sender.tick Sender.bytes_in_flight Sender.fin_sent Sender.fin_acked Sender.send_empty_segment
    ByteStream.write ByteStream.read ByteStream.peek_output ByteStream.pop_output
    ByteStream.buffer_size ByteStream.eof ByteStream.buffer_empty ByteStream.remaining_capacity
    ByteStream.end_input ByteStream.error ByteStream.init ByteStream.input_ended wrap unwrap
ran_result = refl

-- The two bytes have gone to the owner.
ran_sent : ran.socket.world.sent 5 ≡ 1 ∷ 2 ∷ []
unfolding start_connect tcp_loop rules wait_next_event receive_datagram read_outbound write_inbound
    send_datagrams wants_datagram wants_outbound wants_inbound wants_send open_fd Descriptor.read
    Descriptor.write Descriptor.shutdown view_size_from view_remove_prefix push_substring
    Reassembler.init state of_state same_state same_sender same_receiver Connection.init
    Connection.connect Connection.segment_received Connection.active Connection.write
    Connection.bytes_in_flight Connection.tick Connection.remaining_outbound_capacity
    Connection.end_input_stream Receiver.init Receiver.segment_received Receiver.ackno
    Receiver.window_size Sender.init Sender.fill_window Sender.next_segment Sender.ack_received
    Sender.tick Sender.bytes_in_flight Sender.fin_sent Sender.fin_acked Sender.send_empty_segment
    ByteStream.write ByteStream.read ByteStream.peek_output ByteStream.pop_output
    ByteStream.buffer_size ByteStream.eof ByteStream.buffer_empty ByteStream.remaining_capacity
    ByteStream.end_input ByteStream.error ByteStream.init ByteStream.input_ended wrap unwrap
ran_sent = refl

machine-Apart : Apart machine adapter poll (λ w. w.sent) 5
machine-Apart = record {
  read_apart = λ w v fd n bytes h.
      (let (_, _, same) = machine-IsRecord.read_receives w fd n v bytes h in same 5);
  clock_apart = λ w. refl;
  adapter_read = λ a b w v seg h.
      ap (λ (x : ℕ → Bytes). x 5) (take_first-sent a b w v seg w.incoming (some-injective h));
  adapter_write =
      λ a b w v seg h. ap (λ (x : FdWrapper × Machine). x.1.sent 5) (sym (some-injective h));
  adapter_tick =
      λ a b w v ms h. ap (λ (x : FdWrapper × Machine). x.1.sent 5) (sym (some-injective h));
  poll_world = λ s es. refl;
  poll_tcp = λ s es. refl;
  poll_owner = λ s es. refl;
}

tcp_loop-appends_example :
    (ran.socket.thread_data.fd ≡ 5)
    × Extends
        (bytes_of machine adapter poll (λ w. w.sent) 5 started.socket)
        (bytes_of machine adapter poll (λ w. w.sent) 5 ran.socket)
unfolding start_connect rules open_fd
tcp_loop-appends_example =
    tcp_loop-appends machine adapter poll (λ w. w.sent) 5 machine-Apart machine-IsStream aborted
      (λ s. true) 3 started ran Ending.running
      (inl refl, (inr (inl refl), (inr (inr (inl refl)), (inr (inr (inr refl)), tt)))) refl
      ran_result
