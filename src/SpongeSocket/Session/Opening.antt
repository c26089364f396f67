-- ===== src/SpongeSocket/Session/Opening.antt =====
-- How `connect` of libsponge/tcp_helpers/tcp_sponge_socket.cc starts to open a connection.
use csed353_tcp.Prelude.{ℕ, ◌≡◌, refl, Bool, true, none, List, [], ◌∷◌}
use csed353_tcp.Adapter.{FdAdapterConfig}
use csed353_tcp.ByteStream
use csed353_tcp.Connection
use csed353_tcp.Connection.{TcpConnection, TcpConfig}
use csed353_tcp.Descriptor.{Kernel}
use csed353_tcp.EventLoop.{PollFd, PollAnswer}
use csed353_tcp.Reassembler
use csed353_tcp.Receiver
use csed353_tcp.Segment.{TcpSegment, empty_header}
use csed353_tcp.Sender
use csed353_tcp.SpongeSocket.{SpongeSocket, Datagrams}
use csed353_tcp.SpongeSocket.Session.{
  ClosedSocket, Session, tcp_loop, initialize_tcp, in_state, start_connect, connect,
}
use csed353_tcp.TcpState.{
  State, of_state, state, same_state, same_sender, same_receiver, summarise, sender_summary,
  receiver_summary,
}
use csed353_tcp.Wrapping.{WrappingInt32, wrap}

-- The first segment of a connection.
abbrev pub syn_segment : WrappingInt32 → TcpSegment
syn_segment isn = record {
  header = record empty_header { syn = true; seqno = wrap 0 isn };
  payload = [];
}

-- A new connection that connects is in the state SYN_SENT, and has one segment to send.
connect-init :
    (cfg : TcpConfig) (random : ℕ)
    → let c : TcpConnection = Connection.init cfg random in
      (state (Connection.connect c) ≡ of_state State.syn_sent)
      × ((Connection.connect c).segments_out ≡ syn_segment (Connection.connect c).sender.isn ∷ [])
unfolding state of_state Connection.init Connection.connect Sender.init Receiver.init summarise
    receiver_summary sender_summary ByteStream.error ByteStream.init Connection.active
    Connection.has_ackno Receiver.ackno Sender.fin_sent Sender.fin_acked Reassembler.init
    Sender.fill_window Sender.next_segment ByteStream.eof ByteStream.buffer_size ByteStream.read
    Connection.segment_out Connection.receiver_info
connect-init cfg random = (refl, refl)

syn_sent_is : same_state (of_state State.syn_sent) (of_state State.syn_sent) ≡ true
unfolding same_state of_state same_sender same_receiver
syn_sent_is = refl

module _ {W A : Type 0} (k : Kernel W) (adapt : Datagrams W A)
    (poll : SpongeSocket W A → List PollFd → SpongeSocket W A × PollAnswer)
    (aborted : W → Bool) where
  -- `connect` on a socket that has no connection does not throw before it waits: its new
  -- connection is in the state SYN_SENT, with one segment to send, the SYN with its first number;
  -- and what remains is the loop with the condition that it is in that state.
  pub connect-starts :
      (rounds : ℕ) (s : ClosedSocket W A) (c_tcp : TcpConfig) (c_ad : FdAdapterConfig) (random : ℕ)
      → s.tcp ≡ none
      → let n : Session W A = start_connect k adapt s c_tcp c_ad random in
        (connect k adapt poll aborted rounds s c_tcp c_ad random
          ≡ tcp_loop k adapt poll aborted rounds (in_state State.syn_sent) n)
        × (state n.socket.tcp ≡ of_state State.syn_sent)
        × (n.socket.tcp.segments_out ≡ syn_segment n.socket.tcp.sender.isn ∷ [])
  unfolding connect start_connect initialize_tcp
  connect-starts rounds s c_tcp c_ad random free =
      let (st, out) = connect-init c_tcp random in (rw free (rw st (rw syn_sent_is refl)), st, out)
