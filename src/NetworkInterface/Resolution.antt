-- ===== src/NetworkInterface/Resolution.antt =====
-- How a network interface (libsponge/network_interface.cc) finds the Ethernet address of another one:
-- a request is broadcast, answered, and what waited for the answer is sent.
use csed353_tcp.Prelude.{
  ℕ, ◌<◌, ◌+◌, ◌*◌, ◌≡◌, refl, ap, sym, ◌∙◌, true, false, some, none, [], ◌∷◌, ◌++◌, List, arith,
  length, leb, ◌==◌, Bytes, sub64, append-nil,
}
use csed353_tcp.Arp
use csed353_tcp.Arp.{ArpMessage, supported}
use csed353_tcp.Arp.RoundTrip
use csed353_tcp.Arp.RoundTrip.{IsMessage}
use csed353_tcp.Buffer.{BufferList, of_string, concatenate, str}
use csed353_tcp.Ethernet.{EthernetAddress, EthernetFrame, ethernet_broadcast, type_arp, type_ipv4}
use csed353_tcp.Ethernet.RoundTrip.{IsArray}
use csed353_tcp.Parser.ParseResult.{no_error}
use csed353_tcp.Ipv4
use csed353_tcp.Ipv4.Fields.{IsHeader}
use csed353_tcp.Ipv4.{Ipv4Datagram}
use csed353_tcp.NetworkInterface.{
  NetworkInterface, lookup, push_frame, frame_of, find_request, send_request, request_message,
  reply_message, send_reply, take_message, take_reply, learn, send_unknown, send_datagram,
  recv_frame, flush, clear_requests,
}
use csed353_tcp.NetworkInterface.Delivery.{
  IsInterface, recv_wire, recv_wire_lem, for_us, deliver, delivered, same_address_lem,
}
use csed353_tcp.NetworkInterface.Messages.{
  ethernet_broadcast-IsArray, request_message-IsMessage, reply_message-IsMessage,
  recv_frame-message,
}

-- What an interface has noted once it has asked for an address.
abbrev pub asking : NetworkInterface → ℕ → NetworkInterface
asking n ip = record n { arp_req = n.arp_req ++ record { time_arp = n.time; arp_addr = ip } ∷ [] }

-- The request of one interface is answered by the one that it asks for, which learns its address.
answer :
    (n r : NetworkInterface)
    → IsInterface n
    → IsInterface r
    → (request reply : Bytes) × (send_request n r.ip_address
        ≡ some (
            push_frame
              (asking n r.ip_address)
              (frame_of n.ethernet_address ethernet_broadcast type_arp (of_string request ∷ []))))
      × (recv_frame r
            (frame_of n.ethernet_address ethernet_broadcast type_arp (of_string request ∷ []))
          ≡ some (
            push_frame
                (learn r (request_message n r.ip_address))
                (frame_of r.ethernet_address n.ethernet_address type_arp (of_string reply ∷ [])),
            none,
          ))
      × (Arp.parse Arp.new_message (of_string reply)
          ≡ (reply_message r (request_message n r.ip_address), no_error))
unfolding send_request request_message learn take_message send_reply reply_message supported
answer n r vn vr =
    let msg : ArpMessage = request_message n r.ip_address in
    let back : ArpMessage = reply_message r msg in
    let (request, asked, read) =
      RoundTrip.parse-serialize_arp msg Arp.new_message []
        (request_message-IsMessage n r.ip_address vn vr.ip_word) refl in
    let (reply, replied, read') =
      RoundTrip.parse-serialize_arp back Arp.new_message []
        (reply_message-IsMessage n r r.ip_address vn vr) refl in
    let whole : Arp.parse Arp.new_message (of_string request) ≡ (msg, no_error) =
      rw (sym (append-nil request)) read in
    let whole' : Arp.parse Arp.new_message (of_string reply) ≡ (back, no_error) =
      rw (sym (append-nil reply)) read' in
    let self : (r.ip_address == r.ip_address) ≡ true = ground arith in
    (
      request,
      reply,
      rw asked refl,
      recv_frame-message r n.ethernet_address ethernet_broadcast msg request
            (rw (same_address_lem ethernet_broadcast) refl) whole
          ∙ rw (self, replied) refl,
      whole',
    )

-- A reply sends what waited for its sender.
take_message-reply :
    (q : NetworkInterface) (msg : ArpMessage) (src : EthernetAddress) (frames : List EthernetFrame)
    (left : List (Ipv4Datagram × ℕ))
    → msg.opcode ≡ Arp.opcode_reply
    → flush q.ethernet_address msg.sender_ethernet_address msg.sender_ip_address q.unsent
      ≡ some (frames, left)
    → take_message q msg src
      ≡ some (record (learn q msg) {
        frames_out = q.frames_out ++ frames;
        unsent = left;
        arp_req = clear_requests msg.sender_ip_address q.arp_req;
      })
unfolding take_message take_reply learn
take_message-reply q msg src frames left reply flushed = rw (reply, flushed) refl

flush-one :
    (src dst : EthernetAddress) (ip : ℕ) (dgram : Ipv4Datagram) (bs : BufferList)
    (us : List (Ipv4Datagram × ℕ))
    → us ≡ []
    → Ipv4.serialize dgram ≡ some bs
    → flush src dst ip (us ++ (dgram, ip) ∷ []) ≡ some (frame_of src dst type_ipv4 bs ∷ [], [])
unfolding flush
flush-one src dst ip dgram bs us idle written =
    let self : (ip == ip) ≡ true = ground arith in rw (idle, self, written) refl

-- Where no address and no request is noted, the address is asked for.
send_datagram-unknown :
    (past_end : ℕ) (n : NetworkInterface) (dgram : Ipv4Datagram) (ip : ℕ)
    → lookup ip n.ip_ethernet_map ≡ none
    → find_request ip n.arp_req ≡ none
    → 5000 < sub64 n.time past_end
    → send_datagram past_end n dgram ip
      ≡ send_request (record n { unsent = n.unsent ++ (dgram, ip) ∷ [] }) ip
unfolding send_datagram send_unknown
send_datagram-unknown past_end n dgram ip unknown fresh late =
    let longer : leb (sub64 n.time past_end) 5000 ≡ false = ground (arith, late) in
    rw (unknown, send_datagram, fresh, send_unknown, send_datagram, longer) refl

-- A message's frame comes as it was sent.
recv_wire-message :
    (n : NetworkInterface) (src dst : EthernetAddress) (bytes : Bytes)
    → IsArray 6 src
    → IsArray 6 dst
    → recv_wire n (frame_of src dst type_arp (of_string bytes ∷ []))
      ≡ recv_frame n (frame_of src dst type_arp (of_string bytes ∷ []))
unfolding concatenate str
recv_wire-message n src dst bytes s d =
    recv_wire_lem n src dst type_arp (of_string bytes ∷ []) s d (omega arith)
    ∙ ap (λ (t : Bytes). recv_frame n (frame_of src dst type_arp (of_string t ∷ [])))
        (append-nil bytes)

-- A datagram for an unknown neighbour gets there by one exchange. The addresses of both interfaces fit
-- their types, and so do the fields of the datagram's header, which announces its length; nothing
-- waits, no request for the address is noted, and what is read as the time of the missing one is more
-- than 5 seconds ago. Then the interface queues one frame; the neighbour, which reads it from the
-- wire, queues one frame in answer; that one, read in turn, makes the interface queue one more, with
-- nothing left to wait; and from it the neighbour delivers the datagram, with the checksum put in and
-- the payload as one buffer.
pub send_datagram-resolved :
    (past_end : ℕ) (n r : NetworkInterface) (dgram : Ipv4Datagram)
    → IsInterface n
    → IsInterface r
    → IsHeader dgram.header
    → dgram.header.len ≡ 4 * dgram.header.hlen + length (concatenate dgram.payload)
    → lookup r.ip_address n.ip_ethernet_map ≡ none
    → find_request r.ip_address n.arp_req ≡ none
    → 5000 < sub64 n.time past_end
    → n.unsent ≡ []
    → (q s m : NetworkInterface) × (request reply frame : EthernetFrame) × (send_datagram past_end n
          dgram r.ip_address
        ≡ some q)
      × (q.frames_out ≡ n.frames_out ++ request ∷ [])
      × (recv_wire r request ≡ some (s, none))
      × (s.frames_out ≡ r.frames_out ++ reply ∷ [])
      × (recv_wire q reply ≡ some (m, none))
      × (m.frames_out ≡ q.frames_out ++ frame ∷ [])
      × (m.unsent ≡ [])
      × (recv_wire s frame ≡ some (s, some (delivered dgram)))
unfolding learn request_message reply_message
send_datagram-resolved past_end n r dgram vn vr vd l unknown fresh late idle =
    let waiting : NetworkInterface = record n { unsent = n.unsent ++ (dgram, r.ip_address) ∷ [] } in
    let (request, reply, asked, answered, read) =
      answer waiting r (record { ethernet_array = vn.ethernet_array; ip_word = vn.ip_word }) vr in
    let q : NetworkInterface =
      push_frame (asking waiting r.ip_address)
        (frame_of n.ethernet_address ethernet_broadcast type_arp (of_string request ∷ [])) in
    let s : NetworkInterface =
      push_frame (learn r (request_message waiting r.ip_address))
        (frame_of r.ethernet_address n.ethernet_address type_arp (of_string reply ∷ [])) in
    let (bs, written, arrives) =
      deliver n.ethernet_address s dgram vn.ethernet_array
        (record { ethernet_array = vr.ethernet_array; ip_word = vr.ip_word }) vd l in
    let frame : EthernetFrame = frame_of n.ethernet_address r.ethernet_address type_ipv4 bs in
    let taken : flush n.ethernet_address r.ethernet_address r.ip_address q.unsent
        ≡ some (frame ∷ [], []) =
      flush-one n.ethernet_address r.ethernet_address r.ip_address dgram bs n.unsent idle written in
    let msg : ArpMessage = reply_message r (request_message waiting r.ip_address) in
    let m : NetworkInterface = record (learn q msg) {
      frames_out = q.frames_out ++ frame ∷ [];
      unsent = [];
      arp_req = clear_requests r.ip_address q.arp_req;
    } in
    (
      q,
      s,
      m,
      frame_of n.ethernet_address ethernet_broadcast type_arp (of_string request ∷ []),
      frame_of r.ethernet_address n.ethernet_address type_arp (of_string reply ∷ []),
      frame,
      send_datagram-unknown past_end n dgram r.ip_address unknown fresh late ∙ asked,
      refl,
      recv_wire-message r n.ethernet_address ethernet_broadcast request vn.ethernet_array
            ethernet_broadcast-IsArray
          ∙ answered,
      refl,
      recv_wire-message q r.ethernet_address n.ethernet_address reply vr.ethernet_array
            vn.ethernet_array
          ∙ recv_frame-message q r.ethernet_address n.ethernet_address msg reply
              (for_us n.ethernet_address ethernet_broadcast) read
          ∙ rw (take_message-reply q msg r.ethernet_address (frame ∷ []) [] refl taken) refl,
      refl,
      refl,
      arrives,
    )
