-- ===== src/NetworkInterface/Delivery.antt =====
-- What one network interface (libsponge/network_interface.cc) sends to another one through the wire.
use csed353_tcp.Prelude.{
  ℕ, ◌≤◌, ◌<◌, ◌+◌, ◌*◌, ◌≡◌, refl, ap, ◌∙◌, true, false, not, ◌&&◌, some, none, Option, [], ◌∷◌,
  arith, length, ltb, sub64, Bool-cases, inl, inr, u32_mod, u16_mod, if◌then◌else◌,
}
use csed353_tcp.Buffer.{BufferList, of_string, concatenate, to_buffer}
use csed353_tcp.Ethernet
use csed353_tcp.Ethernet.{
  EthernetAddress, EthernetFrame, ethernet_broadcast, same_address, type_arp, type_ipv4,
}
use csed353_tcp.Ethernet.RoundTrip as EthernetRoundTrip
use csed353_tcp.Ethernet.RoundTrip.{IsArray}
use csed353_tcp.Ipv4
use csed353_tcp.Ipv4.{Ipv4Datagram}
use csed353_tcp.Ipv4.Fields.{IsHeader}
use csed353_tcp.Ipv4.RoundTrip as Ipv4RoundTrip
use csed353_tcp.Ipv4.RoundTrip.{cksum_of, with_cksum}
use csed353_tcp.Parser.{ParseResult, is_error}
use csed353_tcp.NetworkInterface.{
  NetworkInterface, Learned, lookup, push_frame, frame_of, send_datagram, send_known, recv_frame,
}

-- The interface's addresses are an array of six bytes and a word of 32 bits.
pub record IsInterface (n : NetworkInterface) : Type 0 where
  pub ethernet_array : IsArray 6 n.ethernet_address
  pub ip_word : n.ip_address < u32_mod

-- What an interface does with the frame that is read from what another one is written as; `none` also if
-- it cannot be read.
abbrev pub recv_wire :
    NetworkInterface → EthernetFrame → Option (NetworkInterface × Option Ipv4Datagram)
recv_wire n f =
    let (frame, result) = Ethernet.parse (of_string (concatenate (Ethernet.serialize f))) in
    if is_error result then none else recv_frame n frame

pub same_address_lem : (a : EthernetAddress) → same_address a a ≡ true
unfolding same_address
same_address_lem [] = refl
same_address_lem (x ∷ xs) = ground (arith, same_address_lem xs)

-- No frame for an interface's own address is passed over.
pub for_us : (a b : EthernetAddress) → (not (same_address a b) && not (same_address a a)) ≡ false
for_us a b =
    rw (same_address_lem a)
      (elim (Bool-cases (same_address a b)) [ inl e ↦ rw e refl | inr e ↦ rw e refl ])

-- The frame comes as it was sent, with one buffer.
pub recv_wire_lem :
    (n : NetworkInterface) (src dst : EthernetAddress) (type : ℕ) (payload : BufferList)
    → IsArray 6 src
    → IsArray 6 dst
    → type < u16_mod
    → recv_wire n (frame_of src dst type payload)
      ≡ recv_frame n (frame_of src dst type (of_string (concatenate payload) ∷ []))
recv_wire_lem n src dst type payload s d t =
    ap (λ (r : EthernetFrame × ParseResult). if is_error r.1 then none else recv_frame n r.0)
      (EthernetRoundTrip.parse-serialize_frame (frame_of src dst type payload)
        (record { dst_array = d; src_array = s; type_word = t }))

-- The datagram as it is read: with the checksum put in, and the payload as one buffer.
abbrev pub delivered : Ipv4Datagram → Ipv4Datagram
delivered dgram = record {
  header = with_cksum dgram.header (cksum_of dgram.header);
  payload = of_string (concatenate dgram.payload) ∷ [];
}

-- A datagram can be written as a frame to an interface, which then delivers it.
pub deliver :
    (src : EthernetAddress) (r : NetworkInterface) (dgram : Ipv4Datagram)
    → IsArray 6 src
    → IsInterface r
    → IsHeader dgram.header
    → dgram.header.len ≡ 4 * dgram.header.hlen + length (concatenate dgram.payload)
    → (bs : BufferList) × (Ipv4.serialize dgram ≡ some bs)
      × (recv_wire r (frame_of src r.ethernet_address type_ipv4 bs)
          ≡ some (r, some (delivered dgram)))
unfolding recv_frame to_buffer
deliver src r dgram vs vr vd l =
    let (bs, written, read, _) = Ipv4RoundTrip.parse-serialize_datagram dgram vd l in
    (
      bs,
      written,
      recv_wire_lem r src r.ethernet_address type_ipv4 bs vs vr.ethernet_array (omega arith)
          ∙ rw (for_us r.ethernet_address ethernet_broadcast, read) refl,
    )

-- A datagram whose header's fields fit, and that announces its length, is sent in one frame when the
-- address of its next hop was learned at most 30 seconds ago; and the interface that has that address
-- delivers it from the wire: with the checksum put in, and the payload as one buffer.
pub recv_wire-send_datagram :
    (past_end : ℕ) (n r : NetworkInterface) (dgram : Ipv4Datagram) (ip : ℕ) (e : Learned)
    → IsInterface n
    → IsInterface r
    → IsHeader dgram.header
    → dgram.header.len ≡ 4 * dgram.header.hlen + length (concatenate dgram.payload)
    → lookup ip n.ip_ethernet_map ≡ some e
    → e.ethernet_address ≡ r.ethernet_address
    → sub64 n.time e.time_ethernet ≤ 30000
    → (frame : EthernetFrame) × (send_datagram past_end n dgram ip ≡ some (push_frame n frame))
      × (recv_wire r frame ≡ some (r, some (delivered dgram)))
unfolding send_datagram send_known
recv_wire-send_datagram past_end n r dgram ip e vn vr vd l found known fresh =
    let (bs, written, arrives) = deliver n.ethernet_address r dgram vn.ethernet_array vr vd l in
    let sooner : ltb 30000 (sub64 n.time e.time_ethernet) ≡ false = ground (arith, fresh) in
    (
      frame_of n.ethernet_address r.ethernet_address type_ipv4 bs,
      rw (found, send_datagram, sooner, written, known) refl,
      arrives,
    )
