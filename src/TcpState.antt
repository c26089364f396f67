-- ===== src/TcpState.antt =====
-- libsponge/tcp_helpers/tcp_state.hh and tcp_state.cc: the state of a connection, as the standard names
-- it, and as it is read off the sender and the receiver; and `state()` of libsponge/tcp_connection.hh.
-- A summary, a constant string, is a constructor. `name` is left out.
pub mod Official
pub mod Summaries
use csed353_tcp.Prelude.{
  ℕ, Bool, true, false, not, ◌&&◌, Option, none, some, ltb, ◌==◌, if◌then◌else◌, add64,
}
use csed353_tcp.ByteStream
use csed353_tcp.Connection
use csed353_tcp.Connection.{TcpConnection}
use csed353_tcp.Receiver
use csed353_tcp.Receiver.{TcpReceiver}
use csed353_tcp.Sender
use csed353_tcp.Sender.{TcpSender}

-- TCPReceiverStateSummary.
pub data ReceiverSummary : Type 0 where
  error : ReceiverSummary
  listen : ReceiverSummary
  syn_recv : ReceiverSummary
  fin_recv : ReceiverSummary

-- TCPSenderStateSummary.
pub data SenderSummary : Type 0 where
  error : SenderSummary
  closed : SenderSummary
  syn_sent : SenderSummary
  syn_acked : SenderSummary
  fin_sent : SenderSummary
  fin_acked : SenderSummary

-- class TCPState.
pub record TcpState : Type 0 where
  pub sender : SenderSummary
  pub receiver : ReceiverSummary
  pub active : Bool
  pub linger_after_streams_finish : Bool

-- TCPState::State.
pub data State : Type 0 where
  listen : State
  syn_rcvd : State
  syn_sent : State
  established : State
  close_wait : State
  last_ack : State
  fin_wait_1 : State
  fin_wait_2 : State
  closing : State
  time_wait : State
  closed : State
  reset : State

-- A state that is active and lingers, as the members are before the constructor's `switch`.
abbrev alive : SenderSummary → ReceiverSummary → TcpState
alive sender receiver = record {
  sender = sender;
  receiver = receiver;
  active = true;
  linger_after_streams_finish = true;
}

-- The state for an official name.
unfoldable pub of_state : State → TcpState
of_state State.listen = alive SenderSummary.closed ReceiverSummary.listen
of_state State.syn_rcvd = alive SenderSummary.syn_sent ReceiverSummary.syn_recv
of_state State.syn_sent = alive SenderSummary.syn_sent ReceiverSummary.listen
of_state State.established = alive SenderSummary.syn_acked ReceiverSummary.syn_recv
of_state State.close_wait = record (alive SenderSummary.syn_acked ReceiverSummary.fin_recv) {
  linger_after_streams_finish = false;
}
of_state State.last_ack = record (alive SenderSummary.fin_sent ReceiverSummary.fin_recv) {
  linger_after_streams_finish = false;
}
of_state State.closing = alive SenderSummary.fin_sent ReceiverSummary.fin_recv
of_state State.fin_wait_1 = alive SenderSummary.fin_sent ReceiverSummary.syn_recv
of_state State.fin_wait_2 = alive SenderSummary.fin_acked ReceiverSummary.syn_recv
of_state State.time_wait = alive SenderSummary.fin_acked ReceiverSummary.fin_recv
of_state State.reset = record (alive SenderSummary.error ReceiverSummary.error) {
  linger_after_streams_finish = false;
  active = false;
}
of_state State.closed = record (alive SenderSummary.fin_acked ReceiverSummary.fin_recv) {
  linger_after_streams_finish = false;
  active = false;
}

unfoldable pub receiver_summary : TcpReceiver → ReceiverSummary
receiver_summary r =
    if ByteStream.error (Receiver.stream_out r)
    then ReceiverSummary.error
    else if not (Connection.has_ackno r)
    then ReceiverSummary.listen
    else if ByteStream.input_ended (Receiver.stream_out r)
    then ReceiverSummary.fin_recv
    else ReceiverSummary.syn_recv

unfoldable pub sender_summary : TcpSender → SenderSummary
sender_summary s =
    if ByteStream.error s.stream
    then SenderSummary.error
    else if s.byte_sent == 0
    then SenderSummary.closed
    else if s.byte_sent == Sender.bytes_in_flight s
    then SenderSummary.syn_sent
    else if not (ByteStream.eof s.stream)
    then SenderSummary.syn_acked
    else if ltb s.byte_sent (add64 (ByteStream.bytes_written s.stream) 2)
    then SenderSummary.syn_acked
    else if not (Sender.bytes_in_flight s == 0)
    then SenderSummary.fin_sent
    else SenderSummary.fin_acked

-- The constructor from a sender, a receiver and two flags.
unfoldable pub summarise : TcpSender → TcpReceiver → Bool → Bool → TcpState
unfolding receiver_summary sender_summary
summarise sender receiver active linger = record {
  sender = sender_summary sender;
  receiver = receiver_summary receiver;
  active = active;
  linger_after_streams_finish = if active then linger else false;
}

-- TCPConnection::state.
unfoldable pub state : TcpConnection → TcpState
unfolding summarise
state c = summarise c.sender c.receiver (Connection.active c) c.linger_after_streams_finish

-- `operator==` of the summaries, as strings, and of the states.
unfoldable pub same_receiver : ReceiverSummary → ReceiverSummary → Bool
same_receiver ReceiverSummary.error ReceiverSummary.error = true
same_receiver ReceiverSummary.listen ReceiverSummary.listen = true
same_receiver ReceiverSummary.syn_recv ReceiverSummary.syn_recv = true
same_receiver ReceiverSummary.fin_recv ReceiverSummary.fin_recv = true
same_receiver _ _ = false

unfoldable pub same_sender : SenderSummary → SenderSummary → Bool
same_sender SenderSummary.error SenderSummary.error = true
same_sender SenderSummary.closed SenderSummary.closed = true
same_sender SenderSummary.syn_sent SenderSummary.syn_sent = true
same_sender SenderSummary.syn_acked SenderSummary.syn_acked = true
same_sender SenderSummary.fin_sent SenderSummary.fin_sent = true
same_sender SenderSummary.fin_acked SenderSummary.fin_acked = true
same_sender _ _ = false

unfoldable pub same_state : TcpState → TcpState → Bool
same_state a b =
    same a.active b.active
    && same a.linger_after_streams_finish b.linger_after_streams_finish
    && same_sender a.sender b.sender
    && same_receiver a.receiver b.receiver
  where
    same : Bool → Bool → Bool
    same true y = y
    same false true = false
    same false false = true
