-- ===== src/Adapter/Transport.antt =====
-- A segment through libsponge/tcp_helpers/tcp_over_ip.cc and back.
use csed353_tcp.Prelude.{
  ℕ, ◌<◌, ◌≡◌, refl, ap, ◌∙◌, true, false, not, ◌&&◌, some, arith, ◌==◌, u32_mod,
}
use csed353_tcp.Adapter.{Address, FdAdapter, set_ports, accept, meet, tun_read, tun_write}
use csed353_tcp.Buffer.{BufferList, concatenate}
use csed353_tcp.Ipv4.{Ipv4Datagram}
use csed353_tcp.Segment.{TcpSegment}
use csed353_tcp.Adapter.Wrapped.{IsAddress, IsCarried, received, crossing}

-- Two adapters whose configurations name each other, of which `b` does not wait for a peer.
pub record ArePeers (a b : FdAdapter) : Type 0 where
  pub busy : b.listening ≡ false
  pub here : b.cfg.source ≡ a.cfg.destination
  pub there : b.cfg.destination ≡ a.cfg.source

module _ (a b : FdAdapter) (peers : ArePeers a b) where
  pub for_us :
      (not b.listening && not (a.cfg.destination.ipv4_numeric == b.cfg.source.ipv4_numeric)) ≡ false
  for_us = ground (arith, ap (λ (t : Address). t.ipv4_numeric) peers.here)

  pub from_peer :
      (not b.listening && not (a.cfg.source.ipv4_numeric == b.cfg.destination.ipv4_numeric)) ≡ false
  from_peer = ground (arith, ap (λ (t : Address). t.ipv4_numeric) peers.there)

  pub accept-received :
      (through_text : ℕ → ℕ) (dgram : Ipv4Datagram) (seg : TcpSegment)
      (source : IsAddress a.cfg.source) (destination : IsAddress a.cfg.destination)
      (carried : IsCarried seg)
      → accept through_text b dgram (received a seg source destination carried)
        ≡ (b, some (received a seg source destination carried))
  unfolding accept set_ports
  accept-received through_text dgram seg source destination carried =
      let ours : (a.cfg.destination.port == b.cfg.source.port) ≡ true =
        ground (arith, ap (λ (t : Address). t.port) peers.here) in
      let theirs : (a.cfg.source.port == b.cfg.destination.port) ≡ true =
        ground (arith, ap (λ (t : Address). t.port) peers.there) in
      rw (peers.busy, ours, theirs) refl

-- A segment that one datagram can carry, written by an adapter to its device, is read from there by an
-- adapter that does not wait for a peer, where each is configured as the other's peer, with addresses
-- that fit their types: with the ports of the connection, the checksum put in, and all else as it was.
-- The adapter that reads does not change.
pub tun_read-tun_write :
    (through_text : ℕ → ℕ) (a b : FdAdapter) (seg : TcpSegment) (source : IsAddress a.cfg.source)
    (destination : IsAddress a.cfg.destination) (carried : IsCarried seg)
    → ArePeers a b
    → (bs : BufferList) × (tun_write a seg ≡ some (bs, set_ports a seg))
      × (tun_read through_text b (concatenate bs)
          ≡ some (b, some (received a seg source destination carried)))
tun_read-tun_write through_text a b seg source destination carried peers =
    let (bs, dgram, written, src, dst, reads) = crossing a seg source destination carried in
    (
      bs,
      written,
      reads through_text b (for_us a b peers) (from_peer a b peers)
          ∙ ap some (accept-received a b peers through_text dgram seg source destination carried),
    )

-- An adapter that waits for a peer takes a segment with SYN and without RST, which one datagram can
-- carry, which is for its port, and which comes from an adapter with addresses that fit their types,
-- whatever these are. It then has that adapter's addresses, exchanged, and waits no longer; here
-- writing a number of 32 bits as text and reading it is to give the number.
pub tun_read-listening :
    (through_text : ℕ → ℕ) (a b : FdAdapter) (seg : TcpSegment) (source : IsAddress a.cfg.source)
    (destination : IsAddress a.cfg.destination) (carried : IsCarried seg)
    → ((n : ℕ) → n < u32_mod → through_text n ≡ n)
    → b.listening ≡ true
    → b.cfg.source.port ≡ a.cfg.destination.port
    → seg.header.syn ≡ true
    → seg.header.rst ≡ false
    → (bs : BufferList) × (tun_write a seg ≡ some (bs, set_ports a seg))
      × (tun_read through_text b (concatenate bs)
          ≡ some (
            record b {
              cfg = record (b.cfg) { source = a.cfg.destination; destination = a.cfg.source };
              listening = false;
            },
            some (received a seg source destination carried),
          ))
unfolding accept set_ports meet
tun_read-listening through_text a b seg source destination carried same waits port syn rst =
    let (bs, dgram, written, src, dst, reads) = crossing a seg source destination carried in
    let for_us : (not b.listening
          && not (a.cfg.destination.ipv4_numeric == b.cfg.source.ipv4_numeric))
        ≡ false =
      rw waits refl in
    let from_peer : (not b.listening
          && not (a.cfg.source.ipv4_numeric == b.cfg.destination.ipv4_numeric))
        ≡ false =
      rw waits refl in
    let ours : (a.cfg.destination.port == b.cfg.source.port) ≡ true = ground (arith, port) in
    let theirs : (a.cfg.source.port == a.cfg.source.port) ≡ true = ground arith in
    let ip : through_text dgram.header.dst ≡ a.cfg.destination.ipv4_numeric =
      rw dst (same a.cfg.destination.ipv4_numeric destination.ip_word) in
    let ip' : through_text dgram.header.src ≡ a.cfg.source.ipv4_numeric =
      rw src (same a.cfg.source.ipv4_numeric source.ip_word) in
    (
      bs,
      written,
      reads through_text b for_us from_peer
          ∙ rw (waits, ours, syn, rst, theirs, ip, ip', port) refl,
    )
