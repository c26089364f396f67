-- ===== src/SpongeSocket.antt =====
-- libsponge/tcp_helpers/tcp_sponge_socket.hh and tcp_sponge_socket.cc: a connection between a stream socket,
-- on which its owner reads and writes, and an adapter to the network, run by an event loop.
--
-- The parameters: the world's state `W` with the system calls, and the adapter, a state `A` with its
-- operations. Another thread sets `_abort` at any time, so it is read off the world. What is printed on
-- `cerr` is left out. `none` is an exception.
pub mod Session
pub mod Moves
pub mod Service
pub mod Devices
use csed353_tcp.Prelude.{
  ℕ, min, Bool, true, false, not, ◌&&◌, ◌||◌, Option, none, some, List, [], ◌∷◌, ltb, ◌==◌,
  if◌then◌else◌, ◌>>=◌, Bytes, length,
}
use csed353_tcp.Adapter.{FdAdapterConfig}
use csed353_tcp.ByteStream
use csed353_tcp.ByteStream.{ByteStream}
use csed353_tcp.Connection
use csed353_tcp.Connection.{TcpConnection}
use csed353_tcp.Descriptor
use csed353_tcp.Descriptor.{Kernel, FdWrapper, How}
use csed353_tcp.EventLoop.{Rule, Direction, always, do_nothing}
use csed353_tcp.Receiver
use csed353_tcp.Segment.{TcpSegment}

-- What the socket uses of its adapter, `AdaptT`.
pub record Datagrams (W A : Type 0) : Type 0 where
  pub descriptor : A → FdWrapper
  pub read : A → W → Option (A × (W × Option TcpSegment))
  pub write : A → W → TcpSegment → Option (A × W)
  pub tick : A → W → ℕ → Option (A × W)
  pub configure : A → FdAdapterConfig → A
  pub set_listening : A → Bool → A

-- class TCPSpongeSocket, once its connection is there.
pub record SpongeSocket (W A : Type 0) : Type 0 where
  pub world : W
  pub thread_data : FdWrapper
  pub datagram_adapter : A
  pub tcp : TcpConnection
  pub inbound_shutdown : Bool
  pub outbound_shutdown : Bool
  pub fully_acked : Bool

-- The largest number of bytes that are offered to the owner at once.
abbrev pub max_offer : ℕ
max_offer = 65536

abbrev pub is_empty : List TcpSegment → Bool
is_empty [] = true
is_empty (seg ∷ segs) = false

module _ {W A : Type 0} where
  -- `inbound_stream()`.
  abbrev pub inbound : SpongeSocket W A → ByteStream
  inbound s = Receiver.stream_out s.tcp.receiver

  unfoldable pub finish_outbound : SpongeSocket W A → SpongeSocket W A
  finish_outbound s = record s { tcp = Connection.end_input_stream s.tcp; outbound_shutdown = true }

  -- The interests of the rules 1 to 4.
  unfoldable pub wants_datagram : SpongeSocket W A → Bool
  wants_datagram s = Connection.active s.tcp

  unfoldable pub wants_outbound : SpongeSocket W A → Bool
  wants_outbound s =
      Connection.active s.tcp
      && not s.outbound_shutdown
      && ltb 0 (Connection.remaining_outbound_capacity s.tcp)

  unfoldable pub wants_inbound : SpongeSocket W A → Bool
  wants_inbound s =
      not (ByteStream.buffer_empty (inbound s))
      || (ByteStream.eof (inbound s) || ByteStream.error (inbound s)) && not s.inbound_shutdown

  unfoldable pub wants_send : SpongeSocket W A → Bool
  wants_send s = not (is_empty s.tcp.segments_out)

module _ {W A : Type 0} (k : Kernel W) (adapt : Datagrams W A) where
  -- Rule 1: a segment from the network goes to the connection.
  unfoldable pub receive_datagram : SpongeSocket W A → Option (SpongeSocket W A)
  receive_datagram s = adapt.read s.datagram_adapter s.world >>= λ (a, (w, seg)).
      (elim seg [ none ↦ some s.tcp | some received ↦ Connection.segment_received s.tcp received ])
      >>= λ tcp. some (record s {
        world = w;
        datagram_adapter = a;
        tcp = tcp;
        fully_acked =
            if s.thread_data.eof && (Connection.bytes_in_flight tcp == 0)
            then true
            else s.fully_acked;
      })

  -- Rule 2: what the owner writes goes to the connection.
  unfoldable pub read_outbound : SpongeSocket W A → Option (SpongeSocket W A)
  unfolding finish_outbound
  read_outbound s =
      Descriptor.read k s.thread_data s.world (Connection.remaining_outbound_capacity s.tcp)
      >>= λ (fd, (w, bytes)).
          let (tcp, amount_written) = Connection.write s.tcp bytes in
          let t : SpongeSocket W A = record s { world = w; thread_data = fd; tcp = tcp } in
          if not (amount_written == length bytes)
          then none
          else some (if fd.eof then finish_outbound t else t)

  -- The end of rule 3: once the inbound stream is over, the owner is told.
  unfoldable pub finish_inbound : SpongeSocket W A → Option (SpongeSocket W A)
  finish_inbound s =
      if ByteStream.eof (inbound s) || ByteStream.error (inbound s)
      then (Descriptor.shutdown k s.thread_data s.world How.shut_wr >>= λ (fd, w).
          some (record s { world = w; thread_data = fd; inbound_shutdown = true }))
      else some s

  -- Rule 3: what has arrived in order goes to the owner, as far as it takes it.
  unfoldable pub write_inbound : SpongeSocket W A → Option (SpongeSocket W A)
  unfolding finish_inbound
  write_inbound s =
      let amount_to_write : ℕ = min max_offer (ByteStream.buffer_size (inbound s)) in
      let buffer : Bytes = ByteStream.peek_output (inbound s) amount_to_write in
      Descriptor.write k s.thread_data s.world (buffer ∷ []) false >>= λ (fd, (w, bytes_written)).
      finish_inbound (record s {
        world = w;
        thread_data = fd;
        tcp =
            Connection.with_receiver_stream s.tcp
              (λ stream. ByteStream.pop_output stream bytes_written);
      })

  -- Rule 4: the loop over the segments that go out.
  unfoldable pub send_all : List TcpSegment → A → W → Option (A × W)
  send_all [] a w = some (a, w)
  send_all (seg ∷ segs) a w = adapt.write a w seg >>= λ (b, v). send_all segs b v

  unfoldable pub send_datagrams : SpongeSocket W A → Option (SpongeSocket W A)
  unfolding send_all
  send_datagrams s = send_all s.tcp.segments_out s.datagram_adapter s.world >>= λ (a, w).
      some
        (record s { world = w; datagram_adapter = a; tcp = record (s.tcp) { segments_out = [] } })

  abbrev pub rule_datagram : Rule (SpongeSocket W A)
  rule_datagram = record {
    fd = λ s. adapt.descriptor s.datagram_adapter;
    direction = Direction.reading;
    callback = receive_datagram;
    interest = wants_datagram;
    cancel = do_nothing;
  }

  abbrev pub rule_outbound : Rule (SpongeSocket W A)
  rule_outbound = record {
    fd = λ s. s.thread_data;
    direction = Direction.reading;
    callback = read_outbound;
    interest = wants_outbound;
    cancel = λ s. some (finish_outbound s);
  }

  abbrev pub rule_inbound : Rule (SpongeSocket W A)
  rule_inbound = record {
    fd = λ s. s.thread_data;
    direction = Direction.writing;
    callback = write_inbound;
    interest = wants_inbound;
    cancel = do_nothing;
  }

  abbrev pub rule_send : Rule (SpongeSocket W A)
  rule_send = record {
    fd = λ s. adapt.descriptor s.datagram_adapter;
    direction = Direction.writing;
    callback = send_datagrams;
    interest = wants_send;
    cancel = do_nothing;
  }

  -- The rules that `_initialize_TCP` adds.
  unfoldable pub rules : List (Rule (SpongeSocket W A))
  rules = rule_datagram ∷ rule_outbound ∷ rule_inbound ∷ rule_send ∷ []
