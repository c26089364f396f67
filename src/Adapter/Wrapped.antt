-- ===== src/Adapter/Wrapped.antt =====
-- Segments that libsponge/tcp_helpers/tcp_over_ip.cc wraps and unwraps.
use csed353_tcp.Prelude.{
  ℕ, ◌+◌, ◌*◌, ◌<◌, ◌≡◌, refl, false, not, ◌&&◌, some, arith, length, ◌==◌, u16_mod, u32_mod,
}
use csed353_tcp.Adapter.{
  Address, FdAdapter, set_ports, carrier, accept, unwrap_tcp_in_ip, wrap_tcp_in_ip, tun_read,
  tun_write,
}
use csed353_tcp.Buffer.{BufferList, concatenate, to_buffer}
use csed353_tcp.Checksum.Sums.{AllBytes}
use csed353_tcp.Ipv4.{Ipv4Header, Ipv4Datagram, pseudo_cksum, payload_length}
use csed353_tcp.Ipv4.Fields as IpFields
use csed353_tcp.Ipv4.RoundTrip as IpRoundTrip
use csed353_tcp.NetworkInterface.Delivery.{delivered}
use csed353_tcp.Segment.{TcpSegment}
use csed353_tcp.Segment.RoundTrip.{IsHeader}
use csed353_tcp.Segment.Checksummed
use csed353_tcp.Segment.Checksummed.{with_cksum, Fits}

-- An address's number and port fit their types.
pub record IsAddress (a : Address) : Type 0 where
  pub ip_word : a.ipv4_numeric < u32_mod
  pub port_word : a.port < u16_mod

-- A segment that one datagram can carry.
pub record IsCarried (seg : TcpSegment) : Type 0 where
  pub header_ok : IsHeader seg.header
  pub bytes : AllBytes seg.payload
  pub size : 20 + 4 * seg.header.doff + length seg.payload < u16_mod

module _ (a : FdAdapter) (seg : TcpSegment) (source : IsAddress a.cfg.source)
    (destination : IsAddress a.cfg.destination) (carried : IsCarried seg) where
  pub set_ports-IsHeader : IsHeader (set_ports a seg).header
  unfolding set_ports
  set_ports-IsHeader = record {
    sport_word = source.port_word;
    dport_word = destination.port_word;
    seqno_word = carried.header_ok.seqno_word;
    ackno_word = carried.header_ok.ackno_word;
    long = carried.header_ok.long;
    doff_nibble = carried.header_ok.doff_nibble;
    win_word = carried.header_ok.win_word;
    cksum_word = carried.header_ok.cksum_word;
    uptr_word = carried.header_ok.uptr_word;
  }

  carrier-IsHeader : IpFields.IsHeader (carrier a (set_ports a seg))
  unfolding carrier set_ports
  carrier-IsHeader = record {
    version = refl;
    long = omega arith;
    hlen_nibble = omega arith;
    tos_byte = omega arith;
    len_word = omega arith;
    id_word = omega arith;
    offset_small = omega arith;
    ttl_byte = omega arith;
    proto_byte = omega arith;
    cksum_word = omega arith;
    src_word = source.ip_word;
    dst_word = destination.ip_word;
  }

  -- The sum of the pseudo-header is small.
  carrier-Fits : Fits seg.payload (pseudo_cksum (carrier a (set_ports a seg)))
  unfolding carrier set_ports pseudo_cksum payload_length
  carrier-Fits = record {
    small = carried.bytes;
    short = omega (arith, carried.size);
    pseudo = omega (arith, source.ip_word, destination.ip_word);
  }

  -- The segment that arrives: the one that went out, with its checksum.
  abbrev pub received : TcpSegment
  received = record (set_ports a seg) {
    header =
        with_cksum (set_ports a seg).header
          (Checksummed.cksum_of (set_ports a seg) (pseudo_cksum (carrier a (set_ports a seg))));
  }

  -- The segment is wrapped in a datagram that can be written, with the adapter's addresses; and as it is
  -- read, with a checksum and one buffer, its segment is accepted or not.
  pub wrapped :
      (dgram : Ipv4Datagram) × (wrap_tcp_in_ip a seg ≡ some (dgram, set_ports a seg))
      × IpFields.IsHeader dgram.header
      × (dgram.header.len ≡ 4 * dgram.header.hlen + length (concatenate dgram.payload))
      × (dgram.header.src ≡ a.cfg.source.ipv4_numeric)
      × (dgram.header.dst ≡ a.cfg.destination.ipv4_numeric)
      × ((through_text : ℕ → ℕ) (b : FdAdapter)
          → (not b.listening && not (a.cfg.destination.ipv4_numeric == b.cfg.source.ipv4_numeric))
            ≡ false
          → (not b.listening && not (a.cfg.source.ipv4_numeric == b.cfg.destination.ipv4_numeric))
            ≡ false
          → unwrap_tcp_in_ip through_text b (delivered dgram)
            ≡ some (accept through_text b (delivered dgram) received))
  unfolding wrap_tcp_in_ip unwrap_tcp_in_ip carrier set_ports to_buffer pseudo_cksum payload_length
  wrapped =
      let out : TcpSegment = set_ports a seg in
      let h : Ipv4Header = carrier a out in
      let d : ℕ = pseudo_cksum h in
      let (tp, written, size, read) =
        Checksummed.parse-serialize_segment out d set_ports-IsHeader carrier-Fits in
      let len : h.len ≡ 4 * 5 + length (concatenate tp) = omega (arith, size, carried.size) in
      (
        record { header = h; payload = tp },
        rw written refl,
        carrier-IsHeader,
        len,
        refl,
        refl,
        λ through_text b dst src. rw (dst, src, read) refl,
      )

  -- What is written to a device is read from it.
  pub crossing :
      (bs : BufferList) × (dgram : Ipv4Datagram) × (tun_write a seg ≡ some (bs, set_ports a seg))
      × (dgram.header.src ≡ a.cfg.source.ipv4_numeric)
      × (dgram.header.dst ≡ a.cfg.destination.ipv4_numeric)
      × ((through_text : ℕ → ℕ) (b : FdAdapter)
          → (not b.listening && not (a.cfg.destination.ipv4_numeric == b.cfg.source.ipv4_numeric))
            ≡ false
          → (not b.listening && not (a.cfg.source.ipv4_numeric == b.cfg.destination.ipv4_numeric))
            ≡ false
          → tun_read through_text b (concatenate bs) ≡ some (accept through_text b dgram received))
  unfolding tun_write tun_read
  crossing =
      let (dgram, written, v, len, src, dst, taken) = wrapped in
      let (bs, sent, got, _) = IpRoundTrip.parse-serialize_datagram dgram v len in
      (
        bs,
        delivered dgram,
        rw (written, sent) refl,
        src,
        dst,
        λ through_text b us peer. rw got (taken through_text b us peer),
      )
