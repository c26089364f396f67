-- ===== src/Adapter.antt =====
-- libsponge/tcp_helpers/fd_adapter.hh, fd_adapter.cc, tcp_over_ip.cc, lossy_fd_adapter.hh and the adapters
-- of tuntap_adapter.hh and tuntap_adapter.cc: TCP segments in IPv4 datagrams, which go through a TUN
-- device or in Ethernet frames, and in the payloads of UDP.
--
-- An `Address`, of IPv4, is its number and its port. The argument `through_text` is what becomes of a
-- number that `inet_ntoa` writes and `getaddrinfo` reads. What a device or a socket reads is an argument,
-- and what is written to it is a result. `none` is an exception.
pub mod Tap
pub mod Wrapped
pub mod Transport
use csed353_tcp.Prelude.{
  ℕ, ◌+◌, ◌*◌, ◌%◌, Bool, true, false, not, ◌&&◌, Option, none, some, List, [], ◌∷◌, ◌++◌, ltb,
  ◌==◌, if◌then◌else◌, ◌>>=◌, Bytes, length, u16_mod,
}
use csed353_tcp.Buffer.{Buffer, BufferList, to_buffer, of_string}
use csed353_tcp.Ipv4
use csed353_tcp.Ipv4.{Ipv4Datagram}
use csed353_tcp.Parser.{ParseResult, is_error}
use csed353_tcp.Segment.{TcpHeader, TcpSegment}
use csed353_tcp.Segment.Wire

pub record Address : Type 0 where
  pub ipv4_numeric : ℕ
  pub port : ℕ

unfoldable pub same_address : Address → Address → Bool
same_address a b = a.ipv4_numeric == b.ipv4_numeric && (a.port == b.port)

-- class FdAdapterConfig (libsponge/tcp_helpers/tcp_config.hh).
pub record FdAdapterConfig : Type 0 where
  pub source : Address
  pub destination : Address
  pub loss_rate_dn : ℕ
  pub loss_rate_up : ℕ

-- class FdAdapterBase.
pub record FdAdapter : Type 0 where
  pub cfg : FdAdapterConfig
  pub listening : Bool

abbrev pub any_address : Address
any_address = record { ipv4_numeric = 0; port = 0 }

abbrev pub new_adapter : FdAdapter
new_adapter = record {
  cfg = record {
    source = any_address;
    destination = any_address;
    loss_rate_dn = 0;
    loss_rate_up = 0;
  };
  listening = false;
}

unfoldable pub set_listening : FdAdapter → Bool → FdAdapter
set_listening a l = record a { listening = l }

-- The port numbers of `a`'s configuration, put into a segment that goes out.
unfoldable pub set_ports : FdAdapter → TcpSegment → TcpSegment
set_ports a seg = record seg {
  header = record (seg.header) { sport = a.cfg.source.port; dport = a.cfg.destination.port };
}

-- The adapter that has met its peer.
unfoldable pub meet : (ℕ → ℕ) → FdAdapter → Ipv4Datagram → TcpSegment → FdAdapter
meet through_text a ip_dgram seg = record a {
  cfg = record (a.cfg) {
    source = record { ipv4_numeric = through_text ip_dgram.header.dst; port = a.cfg.source.port };
    destination = record {
      ipv4_numeric = through_text ip_dgram.header.src;
      port = seg.header.sport;
    };
  };
  listening = false;
}

-- What `unwrap_tcp_in_ip` does with a segment that it has parsed.
unfoldable pub accept :
    (ℕ → ℕ) → FdAdapter → Ipv4Datagram → TcpSegment → FdAdapter × Option TcpSegment
accept through_text a ip_dgram tcp_seg =
    let b : FdAdapter = if a.listening then meet through_text a ip_dgram tcp_seg else a in
    if not (tcp_seg.header.dport == a.cfg.source.port)
    then (a, none)
    else if a.listening && not (tcp_seg.header.syn && not tcp_seg.header.rst)
    then (a, none)
    else if not (tcp_seg.header.sport == b.cfg.destination.port)
    then (b, none)
    else (b, some tcp_seg)

-- TCPOverIPv4Adapter::unwrap_tcp_in_ip.
unfoldable pub unwrap_tcp_in_ip :
    (ℕ → ℕ) → FdAdapter → Ipv4Datagram → Option (FdAdapter × Option TcpSegment)
unwrap_tcp_in_ip through_text a ip_dgram =
    if not a.listening && not (ip_dgram.header.dst == a.cfg.source.ipv4_numeric)
    then some (a, none)
    else if not a.listening && not (ip_dgram.header.src == a.cfg.destination.ipv4_numeric)
    then some (a, none)
    else if not (ip_dgram.header.proto == Ipv4.proto_tcp)
    then some (a, none)
    else (to_buffer ip_dgram.payload >>= λ buffer.
        let (tcp_seg, result) = Wire.parse buffer (Ipv4.pseudo_cksum ip_dgram.header) in
        some (if is_error result then (a, none) else accept through_text a ip_dgram tcp_seg))

-- The header of the datagram that carries a segment.
unfoldable pub carrier : FdAdapter → TcpSegment → Ipv4.Ipv4Header
carrier a seg = record Ipv4.new_header {
  src = a.cfg.source.ipv4_numeric;
  dst = a.cfg.destination.ipv4_numeric;
  len = (5 * 4 + seg.header.doff * 4 + length seg.payload) % u16_mod;
}

-- TCPOverIPv4Adapter::wrap_tcp_in_ip: the datagram, and the segment as it is left.
unfoldable pub wrap_tcp_in_ip : FdAdapter → TcpSegment → Option (Ipv4Datagram × TcpSegment)
unfolding set_ports carrier
wrap_tcp_in_ip a seg₀ =
    let seg : TcpSegment = set_ports a seg₀ in
    let header : Ipv4.Ipv4Header = carrier a seg in
    Wire.serialize seg (Ipv4.pseudo_cksum header) >>= λ payload.
    some (record { header = header; payload = payload }, seg)

-- TCPOverIPv4OverTunFdAdapter::read, of the bytes that the device gives, and write.
unfoldable pub tun_read : (ℕ → ℕ) → FdAdapter → Bytes → Option (FdAdapter × Option TcpSegment)
tun_read through_text a bytes =
    let (ip_dgram, result) = Ipv4.parse (of_string bytes) in
    if is_error result then some (a, none) else unwrap_tcp_in_ip through_text a ip_dgram

unfoldable pub tun_write : FdAdapter → TcpSegment → Option (BufferList × TcpSegment)
tun_write a seg = wrap_tcp_in_ip a seg >>= λ (ip_dgram, left).
    Ipv4.serialize ip_dgram >>= λ bytes. some (bytes, left)

-- TCPOverUDPSocketAdapter::read, of the source and the payload of what the socket gets, and write, with
-- the address that it is for.
unfoldable pub udp_read : FdAdapter → Address → Buffer → FdAdapter × Option TcpSegment
udp_read a source_address payload =
    let (seg, result) = Wire.parse payload 0 in
    let met : FdAdapter = record a {
      cfg = record (a.cfg) { destination = source_address };
      listening = false;
    } in
    if not a.listening && not (same_address source_address a.cfg.destination)
    then (a, none)
    else if is_error result
    then (a, none)
    else if a.listening
    then (if seg.header.syn && not seg.header.rst then (met, some seg) else (a, none))
    else (a, some seg)

unfoldable pub udp_write : FdAdapter → TcpSegment → Option (Address × BufferList × TcpSegment)
unfolding set_ports
udp_write a seg₀ =
    let seg : TcpSegment = set_ports a seg₀ in
    Wire.serialize seg 0 >>= λ payload. some (a.cfg.destination, payload, seg)

-- LossyFdAdapter::_should_drop; `draw` is the random number where one is drawn.
unfoldable pub should_drop : FdAdapterConfig → ℕ → Bool → Bool
should_drop cfg draw uplink =
    let loss : ℕ = if uplink then cfg.loss_rate_up else cfg.loss_rate_dn in
    not (loss == 0) && ltb (draw % u16_mod) loss

-- LossyFdAdapter::read, of what the adapter has read, and write, by what the adapter writes.
unfoldable pub lossy_read {ℓ} : {A : Type ℓ} → FdAdapterConfig → ℕ → Option A → Option A
lossy_read cfg draw ret = if should_drop cfg draw false then none else ret

unfoldable pub lossy_write {ℓ} :
    {A : Type ℓ} → FdAdapterConfig → ℕ → (TcpSegment → A) → TcpSegment → Option A
lossy_write cfg draw write seg = if should_drop cfg draw true then none else some (write seg)
