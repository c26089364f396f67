-- ===== src/SpongeSocket/Devices/Sending.antt =====
-- What the socket sends through TCPOverUDPSocketAdapter (libsponge/tcp_helpers/fd_adapter.cc) to a peer.
use csed353_tcp.Prelude.{
  ℕ, ◌+◌, ◌*◌, ◌≤◌, ◌≡◌, refl, sym, ap, ◌∙◌, true, false, Option, some, List, [], ◌∷◌, ◌++◌, map,
  append-nil, append_assoc, arith, ◌==◌, Bytes, length,
}
use csed353_tcp.Adapter.{Address, FdAdapter, same_address, set_ports, udp_read, udp_write}
use csed353_tcp.Adapter.Wrapped.{IsAddress, IsCarried, set_ports-IsHeader}
use csed353_tcp.Buffer.{
  BufferList, BufferViewList, of_string, str, concatenate, views, view_size_from,
}
use csed353_tcp.Descriptor.{Kernel, FdWrapper, register_write}
use csed353_tcp.Descriptor.Documented.{shown, view_size_from_lem}
use csed353_tcp.EventLoop.Rounds.{All}
use csed353_tcp.Parser.ParseResult.{no_error}
use csed353_tcp.Segment.{TcpSegment}
use csed353_tcp.Segment.Wire
use csed353_tcp.Segment.Checksummed.{Fits, with_cksum, cksum_of, parse-serialize_segment}
use csed353_tcp.Sockets.{UdpKernel, sendto, sendmsg_helper}
use csed353_tcp.SpongeSocket.{SpongeSocket, send_all, send_datagrams}
use csed353_tcp.SpongeSocket.Devices.{Device, write_udp, udp_adapter}

-- A datagram on its way: its destination, and its payload.
abbrev pub Packet : Type 0
Packet = Address × Bytes

-- The longest payload of UDP over IPv4.
abbrev pub max_payload : ℕ
max_payload = 65507

-- What is documented of `sendmsg` on a datagram socket, where it does not fail: a payload that fits a
-- datagram goes out whole, behind those that have been sent.
pub record IsDatagram {W : Type 0} (u : UdpKernel W) (out : W → List Packet) : Type 0 where
  pub sendmsg_sends :
      (w : W) (fd : ℕ) (destination : Address) (vs : BufferViewList)
      → length (shown vs) ≤ max_payload
      → (v : W) × (u.sendmsg w fd (some destination) vs ≡ some (v, length (shown vs)))
        × (out v ≡ out w ++ (destination, shown vs) ∷ [])

-- A segment that one datagram of UDP can carry.
pub record IsUdp (seg : TcpSegment) : Type 0 where
  pub carried : IsCarried seg
  pub size : 4 * seg.header.doff + length seg.payload ≤ max_payload

shown-views : (bs : BufferList) → shown (views bs) ≡ concatenate bs
unfolding views concatenate
shown-views [] = refl
shown-views (b ∷ bs) = ap (◌++◌ (str b)) (shown-views bs)

-- The segment that arrives: the one that went out, with the ports of the adapter and its checksum.
abbrev pub stamped : FdAdapter → TcpSegment → TcpSegment
stamped a seg = record (set_ports a seg) {
  header = with_cksum (set_ports a seg).header (cksum_of (set_ports a seg) 0);
}

-- What is written for a segment.
stamp :
    (a : FdAdapter) (seg : TcpSegment)
    → IsAddress a.cfg.source
    → IsAddress a.cfg.destination
    → IsUdp seg
    → (bs : BufferList) × (udp_write a seg ≡ some (a.cfg.destination, bs, set_ports a seg))
      × (length (concatenate bs) ≤ max_payload)
      × (Wire.parse (of_string (concatenate bs)) 0 ≡ (stamped a seg, no_error))
unfolding udp_write set_ports
stamp a seg source destination udp =
    let fits : Fits seg.payload 0 = record {
      small = udp.carried.bytes;
      short = omega (arith, udp.carried.size);
      pseudo = omega arith;
    } in
    let (bs, e, size, back) =
      parse-serialize_segment (set_ports a seg) 0
        (set_ports-IsHeader a seg source destination udp.carried) fits in
    (bs, rw e refl, omega (arith, size, udp.size), back)

sendto-sends :
    {W : Type 0} (u : UdpKernel W) (out : W → List Packet) (d : FdWrapper) (w : W)
    (destination : Address) (vs : BufferViewList)
    → IsDatagram u out
    → length (shown vs) ≤ max_payload
    → (v : W) × (sendto u d w destination vs ≡ some (register_write d, v))
      × (out v ≡ out w ++ (destination, shown vs) ∷ [])
unfolding sendto sendmsg_helper
sendto-sends u out d w destination vs law small =
    let (v, e, s) = law.sendmsg_sends w d.fd destination vs small in
    let size = view_size_from_lem vs 0 (omega (arith, small)) in
    let whole : (length (shown vs) == view_size_from vs 0) ≡ true = ground (arith, size) in
    (v, rw e (rw whole refl), s)

-- A peer takes what comes from the address that it talks to.
udp_read-takes :
    (b : FdAdapter) (from : Address) (payload : Bytes) (seg : TcpSegment)
    → b.listening ≡ false
    → same_address from b.cfg.destination ≡ true
    → Wire.parse (of_string payload) 0 ≡ (seg, no_error)
    → udp_read b from (of_string payload) ≡ (b, some seg)
unfolding udp_read
udp_read-takes b from payload seg busy known e = rw (e, busy, known) refl

module _ {W : Type 0} (k : Kernel W) (u : UdpKernel W) (out : W → List Packet)
    (law : IsDatagram u out) (b : FdAdapter) (from : Address) (busy : b.listening ≡ false)
    (known : same_address from b.cfg.destination ≡ true) where
  -- What the peer makes of a datagram,
  abbrev arrived : Packet → Address × (FdAdapter × Option TcpSegment)
  arrived (destination, payload) = (destination, udp_read b from (of_string payload))

  -- and what it is to make of a segment.
  abbrev expected : FdAdapter → TcpSegment → Address × (FdAdapter × Option TcpSegment)
  expected a seg = (a.cfg.destination, (b, some (stamped a seg)))

  write_udp-sends :
      (a : Device FdAdapter) (w : W) (seg : TcpSegment)
      → IsAddress a.adapter.cfg.source
      → IsAddress a.adapter.cfg.destination
      → IsUdp seg
      → (d : FdWrapper) × (v : W) × (p : Packet) × (write_udp u a w seg
          ≡ some (record a { descriptor = d }, v))
        × (out v ≡ out w ++ p ∷ [])
        × (arrived p ≡ expected a.adapter seg)
  unfolding write_udp
  write_udp-sends a w seg source destination udp =
      let (bs, e, small, back) = stamp a.adapter seg source destination udp in
      let same = shown-views bs in
      let (v, s, o) =
        sendto-sends u out a.descriptor w a.adapter.cfg.destination (views bs) law
          (omega (arith, small, ap length same)) in
      (
        register_write a.descriptor,
        v,
        (a.adapter.cfg.destination, concatenate bs),
        rw e (rw s refl),
        o ∙ ap (λ (x : Bytes). out w ++ (a.adapter.cfg.destination, x) ∷ []) same,
        ap (λ (x : FdAdapter × Option TcpSegment). (a.adapter.cfg.destination, x))
            (udp_read-takes b from (concatenate bs) (stamped a.adapter seg) busy known back),
      )

  send_all-arrives :
      (segs : List TcpSegment) (a : Device FdAdapter) (w : W)
      → IsAddress a.adapter.cfg.source
      → IsAddress a.adapter.cfg.destination
      → All IsUdp segs
      → (d : FdWrapper) × (v : W) × (ps : List Packet) × (send_all k (udp_adapter u) segs a w
          ≡ some (record a { descriptor = d }, v))
        × (out v ≡ out w ++ ps)
        × (map arrived ps ≡ map (expected a.adapter) segs)
  unfolding send_all
  send_all-arrives [] a w source destination udp =
      (a.descriptor, w, [], refl, sym (append-nil (out w)), refl)
  send_all-arrives (seg ∷ segs) a w source destination (one, others) =
      let (d, v, p, e, o, r) = write_udp-sends a w seg source destination one in
      let (d', v', ps, e', o', r') =
        send_all-arrives segs (record a { descriptor = d }) v source destination others in
      (
        d',
        v',
        p ∷ ps,
        rw e e',
        o' ∙ ap (λ (x : List Packet). x ++ ps) o ∙ append_assoc (out w) (p ∷ []) ps,
        rw (r, r') refl,
      )

  -- With the adapter for UDP, with addresses that fit their types, over a `sendmsg` as it is documented
  -- and that does not fail, a turn of rule 4 returns, if one datagram of UDP can carry each segment of
  -- the connection's queue. It leaves this queue empty and the rest of the connection as it was, and
  -- sends one datagram for each segment, in the order of the queue and to the address that is
  -- configured. A peer that waits for no other, and talks to the address that they come from, reads
  -- from them these segments, with the ports of the adapter and a checksum, and does not change.
  pub send_datagrams-arrives :
      (s : SpongeSocket W (Device FdAdapter))
      → IsAddress s.datagram_adapter.adapter.cfg.source
      → IsAddress s.datagram_adapter.adapter.cfg.destination
      → All IsUdp s.tcp.segments_out
      → (t : SpongeSocket W (Device FdAdapter)) × (ps : List Packet) × (send_datagrams k
            (udp_adapter u)
            s
          ≡ some t)
        × (t.tcp ≡ record (s.tcp) { segments_out = [] })
        × (out t.world ≡ out s.world ++ ps)
        × (map arrived ps ≡ map (expected s.datagram_adapter.adapter) s.tcp.segments_out)
  unfolding send_datagrams
  send_datagrams-arrives s source destination udp =
      let (d, v, ps, e, o, r) =
        send_all-arrives s.tcp.segments_out s.datagram_adapter s.world source destination udp in
      (
        record s {
          world = v;
          datagram_adapter = record (s.datagram_adapter) { descriptor = d };
          tcp = record (s.tcp) { segments_out = [] };
        },
        ps,
        rw e refl,
        refl,
        o,
        r,
      )
