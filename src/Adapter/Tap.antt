-- ===== src/Adapter/Tap.antt =====
-- TCPOverIPv4OverEthernetAdapter of libsponge/tcp_helpers/tuntap_adapter.hh and tuntap_adapter.cc: segments
-- in datagrams in Ethernet frames, by a network interface. The results have what is written to the
-- device, in order. `past_end` is what the interface reads past the end of its requests.
pub mod Exchange
use csed353_tcp.Prelude.{
  ℕ, Option, none, some, List, [], ◌∷◌, ◌++◌, map, if◌then◌else◌, ◌>>=◌, Bytes,
}
use csed353_tcp.Adapter.{Address, FdAdapter, new_adapter, unwrap_tcp_in_ip, wrap_tcp_in_ip}
use csed353_tcp.Buffer.{BufferList, of_string}
use csed353_tcp.Ethernet
use csed353_tcp.Ethernet.{EthernetAddress, EthernetFrame, zero_header}
use csed353_tcp.NetworkInterface
use csed353_tcp.NetworkInterface.{NetworkInterface}
use csed353_tcp.Parser.{is_error}
use csed353_tcp.Segment.{TcpSegment}

pub record TapAdapter : Type 0 where
  pub base : FdAdapter
  pub interface : NetworkInterface
  pub next_hop : Address

-- `send_pending`: the queue of frames is written.
unfoldable pub send_pending : TapAdapter → TapAdapter × List BufferList
send_pending a = (
  record a { interface = record (a.interface) { frames_out = [] } },
  map Ethernet.serialize a.interface.frames_out,
)

-- The constructor, which writes a dummy frame.
unfoldable pub init : EthernetAddress → Address → Address → TapAdapter × List BufferList
init eth_address ip_address next_hop = (
  record {
    base = new_adapter;
    interface = NetworkInterface.init eth_address ip_address.ipv4_numeric;
    next_hop = next_hop;
  },
  Ethernet.serialize (record { header = zero_header; payload = [] }) ∷ [],
)

unfoldable pub read :
    (ℕ → ℕ) → TapAdapter → Bytes → Option (TapAdapter × (Option TcpSegment × List BufferList))
read through_text a bytes =
    let (frame, result) = Ethernet.parse (of_string bytes) in
    if is_error result
    then some (a, (none, []))
    else (NetworkInterface.recv_frame a.interface frame >>= λ (interface, ip_dgram).
        let (b, written) = send_pending (record a { interface = interface }) in
        elim ip_dgram [
          | none ↦ some (b, (none, written))
          | some dgram ↦ unwrap_tcp_in_ip through_text b.base dgram >>= λ (base, seg).
              some (record b { base = base }, (seg, written))
        ])

unfoldable pub tick : TapAdapter → ℕ → TapAdapter × List BufferList
unfolding send_pending
tick a ms = send_pending (record a { interface = NetworkInterface.tick a.interface ms })

-- The adapter, the segment as it is left, and what is written.
unfoldable pub write :
    ℕ → TapAdapter → TcpSegment → Option (TapAdapter × (TcpSegment × List BufferList))
write past_end a seg = wrap_tcp_in_ip a.base seg >>= λ (dgram, left).
    NetworkInterface.send_datagram past_end a.interface dgram a.next_hop.ipv4_numeric
    >>= λ interface.
        let (b, written) = send_pending (record a { interface = interface }) in
        some (b, (left, written))
