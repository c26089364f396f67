-- ===== src/Tests/Interfaces.antt =====
-- A network interface (libsponge/network_interface.cc) at concrete inputs.
use csed353_tcp.Prelude.{◌+◌, ◌≡◌, refl, none, some, Option, List, [], ◌∷◌, ◌++◌, arith}
use csed353_tcp.Buffer.{of_string, concatenate, str}
use csed353_tcp.Ethernet.{EthernetFrame}
use csed353_tcp.Ipv4
use csed353_tcp.Ipv4.{Ipv4Header, Ipv4Datagram}
use csed353_tcp.Ipv4.Fields.{IsHeader}
use csed353_tcp.NetworkInterface.{
  NetworkInterface, Request, init, push_frame, blank_frame, recv_frame, send_datagram, send_request,
  lookup, find_request,
}
use csed353_tcp.NetworkInterface.Carried.{carried}
use csed353_tcp.NetworkInterface.Conservation.{Call, carried-run, sends}
use csed353_tcp.NetworkInterface.Delivery.{IsInterface, recv_wire, delivered}
use csed353_tcp.NetworkInterface.Requests.{waiting}
use csed353_tcp.NetworkInterface.Resolution.{send_datagram-resolved}

abbrev here : NetworkInterface
here = record {
  ethernet_address = 2 ∷ 0 ∷ 0 ∷ 0 ∷ 0 ∷ 1 ∷ [];
  ip_address = 1;
  frames_out = [];
  unsent = [];
  arp_req = [];
  ip_ethernet_map = [];
  time = 9000;
}

abbrev there : NetworkInterface
there = record here { ethernet_address = 2 ∷ 0 ∷ 0 ∷ 0 ∷ 0 ∷ 2 ∷ []; ip_address = 2 }

here-IsInterface : IsInterface here
here-IsInterface = record {
  ethernet_array = record { size = refl; small = ground arith };
  ip_word = omega arith;
}

there-IsInterface : IsInterface there
there-IsInterface = record {
  ethernet_array = record { size = refl; small = ground arith };
  ip_word = omega arith;
}

-- Two bytes to the other interface.
abbrev dgram : Ipv4Datagram
dgram = record {
  header = record Ipv4.new_header { len = 22; src = 1; dst = 2 };
  payload = of_string (1 ∷ 2 ∷ []) ∷ [];
}

dgram-IsHeader : IsHeader dgram.header
dgram-IsHeader = record {
  version = refl;
  long = omega arith;
  hlen_nibble = omega arith;
  tos_byte = omega arith;
  len_word = omega arith;
  id_word = omega arith;
  offset_small = omega arith;
  ttl_byte = omega arith;
  proto_byte = omega arith;
  cksum_word = omega arith;
  src_word = omega arith;
  dst_word = omega arith;
}

send_datagram-resolved_example :
    (q s m : NetworkInterface) × (request reply frame : EthernetFrame) × (send_datagram 0 here dgram
        2
      ≡ some q)
    × (q.frames_out ≡ [] ++ request ∷ [])
    × (recv_wire there request ≡ some (s, none))
    × (s.frames_out ≡ [] ++ reply ∷ [])
    × (recv_wire q reply ≡ some (m, none))
    × (m.frames_out ≡ q.frames_out ++ frame ∷ [])
    × (m.unsent ≡ [])
    × (recv_wire s frame ≡ some (s, some (delivered dgram)))
unfolding concatenate str lookup find_request
send_datagram-resolved_example =
    send_datagram-resolved 0 here there dgram here-IsInterface there-IsInterface dgram-IsHeader refl
      refl refl (omega arith) refl

-- Nothing is read past the end within 5 seconds: a datagram that waits, and time that passes.
abbrev calls : List Call
calls = Call.send 8000 dgram 2 ∷ Call.pass 5 ∷ []

abbrev after : NetworkInterface
after = record (push_frame (waiting here dgram 2) (blank_frame here)) { time = 9005 }

carried-run_example : carried after ≡ carried here + sends calls
unfolding send_datagram csed353_tcp.NetworkInterface.send_unknown lookup find_request
    csed353_tcp.NetworkInterface.tick
carried-run_example = carried-run here after calls refl

-- A request of 6 seconds ago.
abbrev stale : NetworkInterface
stale = record here { arp_req = record { arp_addr = 2; time_arp = 3000 } ∷ [] }

abbrev result {ℓ} : {A : Type ℓ} → A → Option A → A
result a none = a
result a (some b) = b

abbrev asked : NetworkInterface
asked = result stale (send_datagram 0 stale dgram 2)

asked_lem : send_datagram 0 stale dgram 2 ≡ some asked
unfolding send_datagram csed353_tcp.NetworkInterface.send_unknown lookup find_request send_request
    csed353_tcp.NetworkInterface.request_message csed353_tcp.Arp.serialize csed353_tcp.Arp.supported
asked_lem = refl
