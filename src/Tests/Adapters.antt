-- ===== src/Tests/Adapters.antt =====
-- Adapters and connection states (libsponge/tcp_helpers) at concrete inputs.
use csed353_tcp.Prelude.{◌≡◌, ◌↔◌, refl, true, some, [], ◌∷◌, arith}
use csed353_tcp.Adapter.{Address, FdAdapter, new_adapter, set_ports, tun_read, tun_write}
use csed353_tcp.Adapter.Tap
use csed353_tcp.Adapter.Tap.{TapAdapter}
use csed353_tcp.Adapter.Tap.Exchange.{read-write}
use csed353_tcp.Adapter.Transport.{ArePeers, tun_read-tun_write}
use csed353_tcp.Adapter.Wrapped.{IsAddress, IsCarried, received}
use csed353_tcp.Buffer.{BufferList, concatenate}
use csed353_tcp.ByteStream
use csed353_tcp.NetworkInterface.{Learned, lookup}
use csed353_tcp.NetworkInterface.Delivery.{IsInterface}
use csed353_tcp.Segment.{TcpSegment, empty_header}
use csed353_tcp.Sender
use csed353_tcp.Sender.{TcpSender}
use csed353_tcp.Sender.Invariant.{init-IsValid}
use csed353_tcp.TcpState.{SenderSummary, sender_summary}
use csed353_tcp.TcpState.Summaries.{sender_summary-fin_acked}

abbrev here : Address
here = record { ipv4_numeric = 1; port = 80 }

abbrev there : Address
there = record { ipv4_numeric = 2; port = 81 }

here-IsAddress : IsAddress here
here-IsAddress = record { ip_word = omega arith; port_word = omega arith }

there-IsAddress : IsAddress there
there-IsAddress = record { ip_word = omega arith; port_word = omega arith }

abbrev adapter : FdAdapter
adapter = record new_adapter {
  cfg = record (new_adapter.cfg) { source = here; destination = there };
}

abbrev peer : FdAdapter
peer = record new_adapter { cfg = record (new_adapter.cfg) { source = there; destination = here } }

adapter-ArePeers : ArePeers adapter peer
adapter-ArePeers = record { busy = refl; here = refl; there = refl }

-- A SYN with three bytes.
abbrev segment : TcpSegment
segment = record { header = record empty_header { syn = true }; payload = 7 ∷ 8 ∷ 9 ∷ [] }

segment-IsCarried : IsCarried segment
segment-IsCarried = record {
  header_ok = record {
    sport_word = omega arith;
    dport_word = omega arith;
    seqno_word = omega arith;
    ackno_word = omega arith;
    long = omega arith;
    doff_nibble = omega arith;
    win_word = omega arith;
    cksum_word = omega arith;
    uptr_word = omega arith;
  };
  bytes = ground arith;
  size = omega arith;
}

tun_read-tun_write_example :
    (bs : BufferList) × (tun_write adapter segment ≡ some (bs, set_ports adapter segment))
    × (tun_read (λ n. n) peer (concatenate bs)
        ≡ some (
          peer,
          some (received adapter segment here-IsAddress there-IsAddress segment-IsCarried),
        ))
tun_read-tun_write_example =
    tun_read-tun_write (λ n. n) adapter peer segment here-IsAddress there-IsAddress
      segment-IsCarried adapter-ArePeers

-- An adapter that waits at a port.
abbrev open_port : FdAdapter
open_port = record new_adapter {
  cfg = record (new_adapter.cfg) { source = record { ipv4_numeric = 0; port = 81 } };
  listening = true;
}

-- Two interfaces, of which the first has learned the address of the second.
abbrev learned : Learned
learned = record { ethernet_address = 2 ∷ 0 ∷ 0 ∷ 0 ∷ 0 ∷ 2 ∷ []; time_ethernet = 0 }

abbrev first : TapAdapter
first = record {
  base = adapter;
  interface = record {
    ethernet_address = 2 ∷ 0 ∷ 0 ∷ 0 ∷ 0 ∷ 1 ∷ [];
    ip_address = 1;
    frames_out = [];
    unsent = [];
    arp_req = [];
    ip_ethernet_map = (2, learned) ∷ [];
    time = 9000;
  };
  next_hop = there;
}

abbrev second : TapAdapter
second = record {
  base = peer;
  interface = record (first.interface) {
    ethernet_address = 2 ∷ 0 ∷ 0 ∷ 0 ∷ 0 ∷ 2 ∷ [];
    ip_address = 2;
    ip_ethernet_map = [];
  };
  next_hop = here;
}

first-IsInterface : IsInterface first.interface
first-IsInterface = record {
  ethernet_array = record { size = refl; small = ground arith };
  ip_word = omega arith;
}

second-IsInterface : IsInterface second.interface
second-IsInterface = record {
  ethernet_array = record { size = refl; small = ground arith };
  ip_word = omega arith;
}

read-write_example :
    (c : TapAdapter) × (frame : BufferList) × (Tap.write 0 first segment
      ≡ some (c, (set_ports adapter segment, frame ∷ [])))
    × (Tap.read (λ n. n) second (concatenate frame)
        ≡ some (
          second,
          (some (received adapter segment here-IsAddress there-IsAddress segment-IsCarried), []),
        ))
unfolding lookup
read-write_example =
    read-write (λ n. n) 0 first second learned segment here-IsAddress there-IsAddress
      segment-IsCarried adapter-ArePeers first-IsInterface second-IsInterface refl refl
      (omega arith) refl refl

abbrev sender : TcpSender
sender = Sender.init 4 1000 (some (record { raw_value = 5 })) 0

sender_summary-fin_acked_example :
    (sender_summary sender ≡ SenderSummary.fin_acked) ↔ (Sender.fin_acked sender ≡ true)
unfolding Sender.init ByteStream.init ByteStream.error
sender_summary-fin_acked_example =
    sender_summary-fin_acked sender
      (init-IsValid 4 1000 0 (record { raw_value = 5 }) (omega arith) (omega arith)) refl
