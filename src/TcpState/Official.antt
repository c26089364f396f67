-- ===== src/TcpState/Official.antt =====
-- The official states of libsponge/tcp_helpers/tcp_state.cc and their summaries.
use csed353_tcp.Prelude.{◌≡◌, refl, ap, sym, ◌∙◌, Bool, true, false, arith}
use csed353_tcp.TcpState.{
  TcpState, ReceiverSummary, SenderSummary, State, of_state, same_state, same_sender, same_receiver,
}

-- The official name, read off the summaries. Of the others, any will do.
abbrev name : SenderSummary → ReceiverSummary → Bool → Bool → State
name SenderSummary.closed r a l = State.listen
name SenderSummary.syn_sent ReceiverSummary.listen a l = State.syn_sent
name SenderSummary.syn_sent _ a l = State.syn_rcvd
name SenderSummary.syn_acked ReceiverSummary.fin_recv a l = State.close_wait
name SenderSummary.syn_acked _ a l = State.established
name SenderSummary.fin_sent ReceiverSummary.fin_recv a true = State.closing
name SenderSummary.fin_sent ReceiverSummary.fin_recv a false = State.last_ack
name SenderSummary.fin_sent _ a l = State.fin_wait_1
name SenderSummary.fin_acked ReceiverSummary.fin_recv true l = State.time_wait
name SenderSummary.fin_acked ReceiverSummary.fin_recv false l = State.closed
name SenderSummary.fin_acked _ a l = State.fin_wait_2
name SenderSummary.error r a l = State.reset

abbrev name_of : TcpState → State
name_of s = name s.sender s.receiver s.active s.linger_after_streams_finish

name_of-of_state : (s : State) → name_of (of_state s) ≡ s
unfolding of_state
name_of-of_state State.listen = refl
name_of-of_state State.syn_rcvd = refl
name_of-of_state State.syn_sent = refl
name_of-of_state State.established = refl
name_of-of_state State.close_wait = refl
name_of-of_state State.last_ack = refl
name_of-of_state State.fin_wait_1 = refl
name_of-of_state State.fin_wait_2 = refl
name_of-of_state State.closing = refl
name_of-of_state State.time_wait = refl
name_of-of_state State.closed = refl
name_of-of_state State.reset = refl

same_sender-eq : (a b : SenderSummary) → same_sender a b ≡ true → a ≡ b
unfolding same_sender
same_sender-eq a b h = ground arith

same_receiver-eq : (a b : ReceiverSummary) → same_receiver a b ≡ true → a ≡ b
unfolding same_receiver
same_receiver-eq a b h = ground arith

same_state-eq : (a b : TcpState) → same_state a b ≡ true → a ≡ b
unfolding same_state
same_state-eq a b h =
    ground (arith, same_sender-eq a.sender b.sender, same_receiver-eq a.receiver b.receiver)

-- States that are equal, as `operator==` says, are of one official name: the twelve names stand for twelve
-- different states.
pub same_state-of_state : (a b : State) → same_state (of_state a) (of_state b) ≡ true → a ≡ b
same_state-of_state a b h =
    sym (name_of-of_state a)
    ∙ ap name_of (same_state-eq (of_state a) (of_state b) h)
    ∙ name_of-of_state b
