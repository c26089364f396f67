-- ===== src/Tests/Receiving.antt =====
-- The receiver (libsponge/tcp_receiver.cc) at concrete inputs.
use csed353_tcp.Prelude.{ℕ, ◌+◌, ◌≡◌, refl, Bool, true, false, ◌||◌, some, [], ◌∷◌, arith}
use csed353_tcp.Wrapping.{WrappingInt32, wrap}
use csed353_tcp.ByteStream
use csed353_tcp.Reassembler
use csed353_tcp.Reassembler.Push.{Pushed}
use csed353_tcp.Reassembler.History.{init-Inv}
use csed353_tcp.Segment.{TcpSegment, empty_header}
use csed353_tcp.Receiver
use csed353_tcp.Receiver.{TcpReceiver, init, ackno, segment_received, stream_out}
use csed353_tcp.Receiver.Segments.{IsSynced, Carries, meets_window, segment_received-Pushed}
use csed353_tcp.Receiver.Handshake.{syn_received}
use csed353_tcp.Receiver.Faults.{IsBareFin, bare_fin_acknowledged}

abbrev ident : ℕ → ℕ
ident i = i

abbrev isn : WrappingInt32
isn = record { raw_value = 4294967290 }

-- Synchronised, with nothing received but the SYN.
abbrev synced : TcpReceiver
synced = record {
  reassembler = Reassembler.init 4;
  capacity = 4;
  isn = isn;
  isnset = true;
  finset = false;
}

synced-IsSynced : IsSynced ident 10 synced
unfolding Reassembler.init
synced-IsSynced = record {
  inv = init-Inv ident 10 4 (omega arith) (omega arith);
  set = refl;
  isn_word = omega arith;
  narrow = omega arith;
  short = omega arith;
}

-- The bytes 1 and 2 of the stream, ahead of byte 0.
abbrev ahead : TcpSegment
ahead = record { header = record empty_header { seqno = wrap 2 isn }; payload = 1 ∷ 2 ∷ [] }

ahead-Carries : Carries ident 10 1 synced ahead
unfolding Reassembler.init
ahead-Carries = record {
  seqno_of = refl;
  no_syn = refl;
  payload_of = refl;
  some_bytes = omega arith;
  fits = omega arith;
  starts = omega arith;
  recent = omega arith;
}

segment_received-Pushed_example :
    (q : TcpReceiver) × (segment_received synced ahead ≡ some (q, meets_window synced 1 2))
    × Pushed ident 10 1 2 synced.reassembler q.reassembler
    × (q.finset ≡ synced.finset || ahead.header.fin)
    × (q.isn ≡ synced.isn)
    × (q.isnset ≡ true)
segment_received-Pushed_example =
    segment_received-Pushed ident 10 1 synced ahead synced-IsSynced ahead-Carries

ackno_now : ackno synced ≡ some (wrap 1 isn)
unfolding ackno wrap Reassembler.init ByteStream.init ByteStream.bytes_written
ackno_now = refl

-- A SYN with the first bytes of the stream and the FIN.
abbrev opening : TcpSegment
opening = record {
  header = record empty_header { syn = true; fin = true; seqno = isn };
  payload = 0 ∷ 1 ∷ [];
}

syn_received_example :
    (q : TcpReceiver) × (segment_received (init 4) opening ≡ some (q, true))
    × IsSynced ident 2 q
    × (q.isn ≡ opening.header.seqno)
    × (q.finset ≡ opening.header.fin)
syn_received_example =
    syn_received ident 2 4 opening (omega arith) (omega arith) (omega arith) refl (omega arith) refl
      (omega arith)

-- The FIN of a stream of three bytes, none of which has arrived.
abbrev bare_fin : TcpSegment
bare_fin = record { header = record empty_header { fin = true; seqno = wrap 4 isn }; payload = [] }

bare_fin-IsBareFin : IsBareFin 3 synced bare_fin
unfolding Reassembler.init
bare_fin-IsBareFin = record {
  fin = refl;
  no_syn = refl;
  no_payload = refl;
  seqno_of = refl;
  ahead = omega arith;
  behind = omega arith;
  word = omega arith;
}

bare_fin_acknowledged_example :
    (q : TcpReceiver) × (ok : Bool) × (segment_received synced bare_fin ≡ some (q, ok))
    × (ackno q ≡ some (wrap ((stream_out synced).alwritten + 2) isn))
    × ((stream_out q).alwritten ≡ (stream_out synced).alwritten)
unfolding Reassembler.init Receiver.unassembled_bytes Reassembler.unassembled_bytes
bare_fin_acknowledged_example =
    bare_fin_acknowledged ident 10 3 synced bare_fin synced-IsSynced bare_fin-IsBareFin refl
