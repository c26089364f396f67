-- ===== src/Adapter/Tap/Exchange.antt =====
-- A segment from one adapter of libsponge/tcp_helpers/tuntap_adapter.cc to another one by Ethernet.
use csed353_tcp.Prelude.{
  ℕ, ◌≤◌, ◌≡◌, refl, ap, sym, ◌∙◌, Bool, true, false, none, some, Option, [], ◌∷◌, List, map,
  if◌then◌else◌, ◌>>=◌, sub64,
}
use csed353_tcp.Adapter.{set_ports, unwrap_tcp_in_ip}
use csed353_tcp.Adapter.Tap.{TapAdapter, read, write, send_pending}
use csed353_tcp.Adapter.Transport.{ArePeers, for_us, from_peer, accept-received}
use csed353_tcp.Adapter.Wrapped.{IsAddress, IsCarried, received, wrapped}
use csed353_tcp.Buffer.{BufferList, of_string, concatenate}
use csed353_tcp.Ethernet
use csed353_tcp.Ethernet.{EthernetFrame}
use csed353_tcp.Ipv4.{Ipv4Datagram}
use csed353_tcp.NetworkInterface.{Learned, lookup, recv_frame}
use csed353_tcp.NetworkInterface.Delivery.{
  IsInterface, recv_wire, recv_wire-send_datagram, delivered,
}
use csed353_tcp.Parser.{ParseResult, is_error}
use csed353_tcp.Segment.{TcpSegment}

-- A frame that an interface takes from the wire is taken by the adapter.
if_some {ℓ} :
    {A : Type ℓ} (e : Bool) (x : Option A) (a : A)
    → (if e then none else x) ≡ some a
    → (e ≡ false) × (x ≡ some a)
if_some true x a h = absurd (cc)
if_some false x a h = (refl, h)

read-recv_wire :
    (through_text : ℕ → ℕ) (a : TapAdapter) (f : EthernetFrame) (dgram : Ipv4Datagram)
    → recv_wire a.interface f ≡ some (a.interface, some dgram)
    → read through_text a (concatenate (Ethernet.serialize f)) ≡ (
        unwrap_tcp_in_ip through_text a.base dgram >>= λ (base, seg).
        let (b, written) = send_pending a in some (record b { base = base }, (seg, written)))
unfolding read send_pending
read-recv_wire through_text a f dgram h =
    let r : EthernetFrame × ParseResult =
      Ethernet.parse (of_string (concatenate (Ethernet.serialize f))) in
    let (fine, taken) =
      if_some (is_error r.1) (recv_frame a.interface r.0) (a.interface, some dgram) h in
    rw (fine, taken) refl

-- With no frame queued, nothing is written and nothing changes.
send_pending_idle : (a : TapAdapter) → a.interface.frames_out ≡ [] → send_pending a ≡ (a, [])
unfolding send_pending
send_pending_idle a idle =
    ap
      (λ (fs : List EthernetFrame). (
        record a { interface = record (a.interface) { frames_out = [] } },
        map Ethernet.serialize fs,
      ))
      idle
    ∙ ap
        (λ (fs : List EthernetFrame).
          (record a { interface = record (a.interface) { frames_out = fs } }, []))
        (sym idle)

-- Two adapters on one network, each configured as the other's peer, with addresses that fit their
-- types. The second one does not wait for a peer. The interface of the first one has learned, at most
-- 30 seconds ago, for the next hop the address of the interface of the second one. No frame is queued.
-- Then a segment that one datagram can carry is written as one frame, and read from it: with the ports
-- of the connection, the checksum put in, and all else as it was. Nothing is written in answer, and
-- the second one does not change.
pub read-write :
    (through_text : ℕ → ℕ) (past_end : ℕ) (a b : TapAdapter) (e : Learned) (seg : TcpSegment)
    (source : IsAddress a.base.cfg.source) (destination : IsAddress a.base.cfg.destination)
    (carried : IsCarried seg)
    → ArePeers a.base b.base
    → IsInterface a.interface
    → IsInterface b.interface
    → lookup a.next_hop.ipv4_numeric a.interface.ip_ethernet_map ≡ some e
    → e.ethernet_address ≡ b.interface.ethernet_address
    → sub64 a.interface.time e.time_ethernet ≤ 30000
    → a.interface.frames_out ≡ []
    → b.interface.frames_out ≡ []
    → (c : TapAdapter) × (frame : BufferList) × (write past_end a seg
        ≡ some (c, (set_ports a.base seg, frame ∷ [])))
      × (read through_text b (concatenate frame)
          ≡ some (b, (some (received a.base seg source destination carried), [])))
unfolding write send_pending
read-write through_text past_end a b e seg source destination carried peers va vb found known fresh
      idle quiet =
    let (dgram, put, v, len, _, _, taken) = wrapped a.base seg source destination carried in
    let (frame, sent, arrives) =
      recv_wire-send_datagram past_end a.interface b.interface dgram a.next_hop.ipv4_numeric e va vb
        v len found known fresh in
    let accepted =
      taken through_text b.base (for_us a.base b.base peers) (from_peer a.base b.base peers)
      ∙ ap some (
          accept-received a.base b.base peers through_text (delivered dgram) seg source destination
            carried) in
    (
      record a { interface = record (a.interface) { frames_out = [] } },
      Ethernet.serialize frame,
      rw (put, sent, idle) refl,
      read-recv_wire through_text b frame (delivered dgram) arrives
          ∙ rw accepted (
              ap
                (λ (p : TapAdapter × List BufferList). some (
                  record (p.0) { base = b.base },
                  (some (received a.base seg source destination carried), p.1),
                ))
                (send_pending_idle b quiet)),
    )
