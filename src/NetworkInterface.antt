-- ===== src/NetworkInterface.antt =====
-- libsponge/network_interface.hh and network_interface.cc: datagrams go out in Ethernet frames, to
-- addresses that are learned by ARP. An `Address` is used by its number, `ipv4_numeric()`, only. The
-- map is an association list. `none` is an exception: of a datagram or message that cannot be
-- written, or of a payload of several buffers that is to be one. The message on `cerr` is left out.
--
-- `send_datagram` reads through `end()` where it finds no entry. What it reads of the map and of
-- `arp_addr` does not matter; what it reads as `time_arp` is the argument `past_end`.
pub mod Requests
pub mod Carried
pub mod Conservation
pub mod Delivery
pub mod Messages
pub mod Resolution
use csed353_tcp.Prelude.{
  ℕ, Bool, true, false, not, ◌&&◌, Option, none, some, List, [], ◌∷◌, ◌++◌, ltb, leb, ◌==◌,
  if◌then◌else◌, ◌>>=◌, Bytes, add64, sub64,
}
use csed353_tcp.Arp
use csed353_tcp.Arp.{ArpMessage}
use csed353_tcp.Buffer.{BufferList, of_string, to_buffer}
use csed353_tcp.Ethernet.{
  EthernetAddress, EthernetFrame, EthernetHeader, zero_header, ethernet_broadcast, same_address,
  type_ipv4, type_arp,
}
use csed353_tcp.Ipv4
use csed353_tcp.Ipv4.{Ipv4Datagram}
use csed353_tcp.Parser.{ParseResult, is_error}

-- struct ARP: a request that was sent.
pub record Request : Type 0 where
  pub arp_addr : ℕ
  pub time_arp : ℕ

-- struct Ethernet: an address that was learned.
pub record Learned : Type 0 where
  pub ethernet_address : EthernetAddress
  pub time_ethernet : ℕ

pub record NetworkInterface : Type 0 where
  pub ethernet_address : EthernetAddress
  pub ip_address : ℕ
  pub frames_out : List EthernetFrame
  pub unsent : List (Ipv4Datagram × ℕ)
  pub arp_req : List Request
  pub ip_ethernet_map : List (ℕ × Learned)
  pub time : ℕ

unfoldable pub init : EthernetAddress → ℕ → NetworkInterface
init ethernet_address ip_address = record {
  ethernet_address = ethernet_address;
  ip_address = ip_address;
  frames_out = [];
  unsent = [];
  arp_req = [];
  ip_ethernet_map = [];
  time = 0;
}

-- `find` and `map[key] = value` of `std::map`.
unfoldable pub lookup : ℕ → List (ℕ × Learned) → Option Learned
lookup k [] = none
lookup k ((j, v) ∷ m) = if j == k then some v else lookup k m

unfoldable pub insert : ℕ → Learned → List (ℕ × Learned) → List (ℕ × Learned)
insert k v [] = (k, v) ∷ []
insert k v ((j, w) ∷ m) = if j == k then (k, v) ∷ m else (j, w) ∷ insert k v m

-- The loop over `arp_req`: the time of the first request for the address, if there is one.
unfoldable pub find_request : ℕ → List Request → Option ℕ
find_request ip [] = none
find_request ip (r ∷ rs) = if r.arp_addr == ip then some r.time_arp else find_request ip rs

abbrev pub push_frame : NetworkInterface → EthernetFrame → NetworkInterface
push_frame n frame = record n { frames_out = n.frames_out ++ frame ∷ [] }

abbrev pub frame_of : EthernetAddress → EthernetAddress → ℕ → BufferList → EthernetFrame
frame_of src dst type payload = record {
  header = record { dst = dst; src = src; type = type };
  payload = payload;
}

unfoldable pub request_message : NetworkInterface → ℕ → ArpMessage
request_message n ip = record Arp.new_message {
  opcode = Arp.opcode_request;
  target_ip_address = ip;
  sender_ip_address = n.ip_address;
  sender_ethernet_address = n.ethernet_address;
}

-- A request is broadcast and noted.
unfoldable pub send_request : NetworkInterface → ℕ → Option NetworkInterface
send_request n ip = Arp.serialize (request_message n ip) >>= λ bytes. some (
    push_frame
      (record n { arp_req = n.arp_req ++ record { time_arp = n.time; arp_addr = ip } ∷ [] })
      (frame_of n.ethernet_address ethernet_broadcast type_arp (of_string bytes ∷ [])))

-- The frame of `send_datagram` before anything but its source is set.
abbrev pub blank_frame : NetworkInterface → EthernetFrame
blank_frame n = record { header = record zero_header { src = n.ethernet_address }; payload = [] }

-- The datagram waits for the address of its next hop.
unfoldable pub send_unknown : ℕ → NetworkInterface → Ipv4Datagram → ℕ → Option NetworkInterface
send_unknown past_end n₀ dgram ip =
    let n : NetworkInterface = record n₀ { unsent = n₀.unsent ++ (dgram, ip) ∷ [] } in
    elim (find_request ip n.arp_req) [
      | some time_arp ↦ if leb (sub64 n.time time_arp) 5000 then some n else send_request n ip
      | none ↦
          if leb (sub64 n.time past_end) 5000
          then some (push_frame n (blank_frame n))
          else send_request n ip
    ]

unfoldable pub send_known :
    NetworkInterface → Ipv4Datagram → EthernetAddress → Option NetworkInterface
send_known n dgram dst = Ipv4.serialize dgram >>= λ payload.
    some (push_frame n (frame_of n.ethernet_address dst type_ipv4 payload))

unfoldable pub send_datagram : ℕ → NetworkInterface → Ipv4Datagram → ℕ → Option NetworkInterface
send_datagram past_end n dgram ip = elim (lookup ip n.ip_ethernet_map) [
  | none ↦ send_unknown past_end n dgram ip
  | some e ↦
      if ltb 30000 (sub64 n.time e.time_ethernet)
      then send_unknown past_end n dgram ip
      else send_known n dgram e.ethernet_address
]

-- The loop over `unsent`: the frames for the datagrams that waited for the address, and the others.
unfoldable pub flush :
    EthernetAddress
    → EthernetAddress
    → ℕ
    → List (Ipv4Datagram × ℕ)
    → Option (List EthernetFrame × List (Ipv4Datagram × ℕ))
flush src dst ip [] = some ([], [])
flush src dst ip ((dgram, next_hop) ∷ waiting) =
    let rest = flush src dst ip waiting in
    if next_hop == ip
    then (Ipv4.serialize dgram >>= λ payload.
        rest >>= λ (frames, left). some (frame_of src dst type_ipv4 payload ∷ frames, left))
    else (rest >>= λ (frames, left). some (frames, (dgram, next_hop) ∷ left))

-- The loop that erases requests.
unfoldable pub clear_requests : ℕ → List Request → List Request
clear_requests ip [] = []
clear_requests ip (r ∷ rs) =
    let rest = clear_requests ip rs in if r.arp_addr == ip then rest else r ∷ rest

unfoldable pub reply_message : NetworkInterface → ArpMessage → ArpMessage
reply_message n msg = record Arp.new_message {
  opcode = Arp.opcode_reply;
  target_ip_address = msg.sender_ip_address;
  target_ethernet_address = msg.sender_ethernet_address;
  sender_ip_address = n.ip_address;
  sender_ethernet_address = n.ethernet_address;
}

-- The answer to a request for the interface's own address, to the source of the frame.
unfoldable pub send_reply :
    NetworkInterface → ArpMessage → EthernetAddress → Option NetworkInterface
send_reply n msg dst = Arp.serialize (reply_message n msg) >>= λ bytes.
    some (push_frame n (frame_of n.ethernet_address dst type_arp (of_string bytes ∷ [])))

-- A reply sends what waited for its sender.
unfoldable pub take_reply : NetworkInterface → ArpMessage → Option NetworkInterface
take_reply n msg =
    flush n.ethernet_address msg.sender_ethernet_address msg.sender_ip_address n.unsent
    >>= λ (frames, left). some (record n {
      frames_out = n.frames_out ++ frames;
      unsent = left;
      arp_req = clear_requests msg.sender_ip_address n.arp_req;
    })

unfoldable pub learn : NetworkInterface → ArpMessage → NetworkInterface
learn n msg = record n {
  ip_ethernet_map =
      insert msg.sender_ip_address
        (record { ethernet_address = msg.sender_ethernet_address; time_ethernet = n.time })
        n.ip_ethernet_map;
}

-- What a message makes the interface do. It is a request or a reply.
unfoldable pub take_message :
    NetworkInterface → ArpMessage → EthernetAddress → Option NetworkInterface
take_message n₀ msg src =
    let n : NetworkInterface = learn n₀ msg in
    (if msg.opcode == Arp.opcode_request && (msg.target_ip_address == n.ip_address)
      then send_reply n msg src
      else some n)
    >>= λ m. if msg.opcode == Arp.opcode_reply then take_reply m msg else some m

unfoldable pub recv_frame :
    NetworkInterface → EthernetFrame → Option (NetworkInterface × Option Ipv4Datagram)
recv_frame n frame =
    if not (same_address frame.header.dst ethernet_broadcast)
      && not (same_address frame.header.dst n.ethernet_address)
    then some (n, none)
    else if frame.header.type == type_ipv4
    then (to_buffer frame.payload >>= λ buffer.
        let (dgram, result) = Ipv4.parse buffer in
        some (n, (if is_error result then none else some dgram)))
    else if frame.header.type == type_arp
    then (to_buffer frame.payload >>= λ buffer.
        let (msg, result) = Arp.parse Arp.new_message buffer in
        if is_error result
        then some (n, none)
        else (take_message n msg frame.header.src >>= λ m. some (m, none)))
    else some (n, none)

unfoldable pub tick : NetworkInterface → ℕ → NetworkInterface
tick n ms = record n { time = add64 n.time ms }
