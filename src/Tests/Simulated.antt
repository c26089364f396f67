-- ===== src/Tests/Simulated.antt =====
-- The hosts of apps/network_simulator.cc at concrete inputs.
use csed353_tcp.Prelude.{ℕ, ◌≡◌, ◌↔◌, refl, Option, none, some, [], ◌∷◌, Bytes}
use csed353_tcp.Buffer.{list_size}
use csed353_tcp.Ethernet.{ethernet_broadcast}
use csed353_tcp.Ipv4
use csed353_tcp.Ipv4.{Ipv4Datagram, new_header}
use csed353_tcp.NetworkInterface
use csed353_tcp.NetworkSimulator.{Host, text, check, init, expect}
use csed353_tcp.NetworkSimulator.Checked.{count, check_iff}

abbrev dgram : ℕ → Ipv4Datagram
dgram to = record { header = record new_header { len = 20; dst = to }; payload = [] }

abbrev result : Option Bytes → Bytes
result none = []
result (some t) = t

abbrev written : ℕ → Bytes
written to = result (text (dgram to))

written_3 : text (dgram 3) ≡ some (written 3)
unfolding text Ipv4.serialize list_size Ipv4.payload_length Ipv4.serialize_header
written_3 = refl

written_4 : text (dgram 4) ≡ some (written 4)
unfolding text Ipv4.serialize list_size Ipv4.payload_length Ipv4.serialize_header
written_4 = refl

-- Two datagrams are expected, and have come in the other order.
abbrev host : Host
host =
    record (expect (expect (init (NetworkInterface.init ethernet_broadcast 1) 1 2) (dgram 3))
      (dgram 4)) {
        interface = record {
          interface = NetworkInterface.init ethernet_broadcast 1;
          datagrams_out = dgram 4 ∷ dgram 3 ∷ [];
        };
      }

check_iff_example :
    ((t : Host) × (check host ≡ some t))
    ↔ ((c : Bytes) → count c (written 4 ∷ written 3 ∷ []) ≡ count c (written 3 ∷ written 4 ∷ []))
unfolding expect init
check_iff_example =
    check_iff host (written 4 ∷ written 3 ∷ []) (written 3 ∷ written 4 ∷ [])
      (written_4, (written_3, tt)) (written_3, (written_4, tt))
