-- ===== src/NetworkInterface/Carried.antt =====
-- How each operation of libsponge/network_interface.cc changes the number of datagrams that an interface
-- has sent or keeps waiting.
use csed353_tcp.Prelude.{
  ℕ, ◌+◌, ◌≡◌, ap, sym, ◌∙◌, Option, none, some, Option-cases, List, [], ◌∷◌, ◌++◌, arith, length,
  ltb, leb, ◌==◌, if◌then◌else◌, suc, ◌&&◌, not, sub64, inl, inr, if_lem, length-append,
  bind-eq-some, some-injective,
}
use csed353_tcp.Arp
use csed353_tcp.Arp.{ArpMessage}
use csed353_tcp.Ethernet.{
  EthernetAddress, EthernetFrame, type_ipv4, type_arp, same_address, ethernet_broadcast,
}
use csed353_tcp.Buffer.{to_buffer}
use csed353_tcp.Parser.{ParseResult, is_error}
use csed353_tcp.Ipv4
use csed353_tcp.Ipv4.{Ipv4Datagram}
use csed353_tcp.NetworkInterface.{
  NetworkInterface, send_datagram, send_unknown, send_known, send_request, recv_frame, flush,
  take_reply, send_reply, take_message, learn, lookup, find_request, blank_frame, push_frame,
  frame_of, request_message, reply_message,
}

-- How many frames carry a datagram.
abbrev pub ipv4_frames : List EthernetFrame → ℕ
ipv4_frames [] = 0
ipv4_frames (f ∷ fs) = (if f.header.type == type_ipv4 then 1 else 0) + ipv4_frames fs

-- How many datagrams the interface has sent or keeps waiting.
abbrev pub carried : NetworkInterface → ℕ
carried n = ipv4_frames n.frames_out + length n.unsent

ipv4_frames-append :
    (xs ys : List EthernetFrame) → ipv4_frames (xs ++ ys) ≡ ipv4_frames xs + ipv4_frames ys
ipv4_frames-append [] ys = omega arith
ipv4_frames-append (x ∷ xs) ys = omega (arith, ipv4_frames-append xs ys)

-- A frame of another type carries no datagram.
carried-push_frame :
    (n : NetworkInterface) (f : EthernetFrame)
    → carried (push_frame n f) ≡ carried n + (if f.header.type == type_ipv4 then 1 else 0)
carried-push_frame n f = omega (arith, ipv4_frames-append n.frames_out (f ∷ []))

carried-send_request :
    (n m : NetworkInterface) (ip : ℕ) → send_request n ip ≡ some m → carried m ≡ carried n
unfolding send_request
carried-send_request n m ip h =
    let (bytes, _, e) = bind-eq-some (Arp.serialize (request_message n ip)) _ m h in
    sym (ap carried (some-injective e)) ∙ omega (arith, ipv4_frames-append n.frames_out)

carried-send_known :
    (n m : NetworkInterface) (dgram : Ipv4Datagram) (dst : EthernetAddress)
    → send_known n dgram dst ≡ some m
    → carried m ≡ carried n + 1
unfolding send_known
carried-send_known n m dgram dst h =
    let (payload, _, e) = bind-eq-some (Ipv4.serialize dgram) _ m h in
    sym (ap carried (some-injective e))
    ∙ carried-push_frame n (frame_of n.ethernet_address dst type_ipv4 payload)

-- A step carries `k` more datagrams if it does not throw.
abbrev pub Carries : NetworkInterface → ℕ → Option NetworkInterface → Type 0
Carries n k o = (m : NetworkInterface) → o ≡ some m → carried m ≡ carried n + k

pub some-Carries :
    (n m : NetworkInterface) (k : ℕ) → carried m ≡ carried n + k → Carries n k (some m)
some-Carries n m k e m' h = sym (ap carried (some-injective h)) ∙ e

send_unknown-Carries :
    (past_end : ℕ) (n : NetworkInterface) (dgram : Ipv4Datagram) (ip : ℕ)
    → Carries n 1 (send_unknown past_end n dgram ip)
unfolding send_unknown
send_unknown-Carries past_end n dgram ip =
    let q : NetworkInterface = record n { unsent = n.unsent ++ (dgram, ip) ∷ [] } in
    let more : carried q ≡ carried n + 1 =
      omega (arith, length-append n.unsent ((dgram, ip) ∷ [])) in
    let request : Carries n 1 (send_request q ip) = λ m h. carried-send_request q m ip h ∙ more in
    let blank : carried (push_frame q (blank_frame q)) ≡ carried n + 1 =
      omega (arith, carried-push_frame q (blank_frame q), more) in
    elim (Option-cases (find_request ip n.arp_req)) [
      | inr (time_arp, e) ↦
          rw (e, send_unknown)
            (if_lem (Carries n 1) (leb (sub64 n.time time_arp) 5000) (some-Carries n q 1 more)
              request)
      | inl e ↦
          rw (e, send_unknown)
            (if_lem (Carries n 1) (leb (sub64 n.time past_end) 5000) (some-Carries n _ 1 blank)
              request)
    ]

pub send_datagram-Carries :
    (past_end : ℕ) (n : NetworkInterface) (dgram : Ipv4Datagram) (ip : ℕ)
    → Carries n 1 (send_datagram past_end n dgram ip)
unfolding send_datagram
send_datagram-Carries past_end n dgram ip = elim (Option-cases (lookup ip n.ip_ethernet_map)) [
  | inl e ↦ rw (e, send_datagram) (send_unknown-Carries past_end n dgram ip)
  | inr (e, h) ↦
      rw (h, send_datagram)
        (if_lem (Carries n 1) (ltb 30000 (sub64 n.time e.time_ethernet))
          (send_unknown-Carries past_end n dgram ip)
          (λ m. carried-send_known n m dgram e.ethernet_address))
]

-- The loop over what waits makes each datagram a frame, or leaves it.
abbrev handled : List EthernetFrame × List (Ipv4Datagram × ℕ) → ℕ
handled (frames, left) = ipv4_frames frames + length left

handled-flush :
    (src dst : EthernetAddress) (ip : ℕ) (waiting : List (Ipv4Datagram × ℕ))
    (r : List EthernetFrame × List (Ipv4Datagram × ℕ))
    → flush src dst ip waiting ≡ some r
    → handled r ≡ length waiting
unfolding flush
handled-flush src dst ip [] r h = sym (ap handled (some-injective h))
handled-flush src dst ip ((dgram, next_hop) ∷ waiting) r h =
    if_lem (λ o. o ≡ some r → handled r ≡ suc (length waiting)) (next_hop == ip)
      (λ g.
        let (payload, _, e) = bind-eq-some (Ipv4.serialize dgram) _ r g in
        let (q, f, e') = bind-eq-some (flush src dst ip waiting) _ r e in
        let t : handled q ≡ length waiting = handled-flush src dst ip waiting q f in
        sym (ap handled (some-injective e')) ∙ omega (arith, t))
      (λ g.
        let (q, f, e) = bind-eq-some (flush src dst ip waiting) _ r g in
        let t : handled q ≡ length waiting = handled-flush src dst ip waiting q f in
        sym (ap handled (some-injective e)) ∙ omega (arith, t))
      h

take_reply-Carries : (n : NetworkInterface) (msg : ArpMessage) → Carries n 0 (take_reply n msg)
unfolding take_reply
take_reply-Carries n msg m h =
    let (q, f, e) =
      bind-eq-some
        (flush n.ethernet_address msg.sender_ethernet_address msg.sender_ip_address n.unsent) _ m
        h in
    let t : handled q ≡ length n.unsent = handled-flush _ _ _ n.unsent q f in
    sym (ap carried (some-injective e)) ∙ omega (arith, ipv4_frames-append n.frames_out q.0, t)

send_reply-Carries :
    (n : NetworkInterface) (msg : ArpMessage) (dst : EthernetAddress)
    → Carries n 0 (send_reply n msg dst)
unfolding send_reply
send_reply-Carries n msg dst m h =
    let (bytes, _, e) = bind-eq-some (Arp.serialize (reply_message n msg)) _ m h in
    sym (ap carried (some-injective e)) ∙ carried-push_frame n _

take_message-Carries :
    (n : NetworkInterface) (msg : ArpMessage) (src : EthernetAddress)
    → Carries n 0 (take_message n msg src)
unfolding take_message learn
take_message-Carries n₀ msg src m h =
    let n : NetworkInterface = learn n₀ msg in
    let (q, f, e) =
      bind-eq-some
        (if msg.opcode == Arp.opcode_request && (msg.target_ip_address == n.ip_address)
          then send_reply n msg src
          else some n)
        _ m h in
    let first : carried q ≡ carried n + 0 =
      if_lem (Carries n 0)
        (msg.opcode == Arp.opcode_request && (msg.target_ip_address == n.ip_address))
        (send_reply-Carries n msg src) (some-Carries n n 0 (omega arith)) q f in
    let second : carried m ≡ carried q + 0 =
      if_lem (Carries q 0) (msg.opcode == Arp.opcode_reply) (take_reply-Carries q msg)
        (some-Carries q q 0 (omega arith)) m e in
    omega (arith, first, second)

-- A received frame changes nothing of what is carried, whatever is delivered.
abbrev pub Keeps : NetworkInterface → Option (NetworkInterface × Option Ipv4Datagram) → Type 0
Keeps n o = (r : NetworkInterface × Option Ipv4Datagram) → o ≡ some r → carried r.0 ≡ carried n

some-Keeps : (n : NetworkInterface) (d : Option Ipv4Datagram) → Keeps n (some (n, d))
some-Keeps n d r h = sym (ap (λ p. carried p.0) (some-injective h))

pub recv_frame-Keeps : (n : NetworkInterface) (frame : EthernetFrame) → Keeps n (recv_frame n frame)
unfolding recv_frame
recv_frame-Keeps n frame =
    if_lem (Keeps n)
      (not (same_address frame.header.dst ethernet_broadcast)
        && not (same_address frame.header.dst n.ethernet_address))
      (some-Keeps n none)
      (if_lem (Keeps n) (frame.header.type == type_ipv4)
        (λ r h.
          let (buffer, _, e) = bind-eq-some (to_buffer frame.payload) _ r h in some-Keeps n _ r e)
        (if_lem (Keeps n) (frame.header.type == type_arp)
          (λ r h.
            let (buffer, _, e) = bind-eq-some (to_buffer frame.payload) _ r h in
            let p : ArpMessage × ParseResult = Arp.parse Arp.new_message buffer in
            if_lem (Keeps n) (is_error p.1) (some-Keeps n none)
              (λ r h.
                let (m, f, g) = bind-eq-some (take_message n p.0 frame.header.src) _ r h in
                let kept : carried m ≡ carried n + 0 =
                  take_message-Carries n p.0 frame.header.src m f in
                sym (ap (λ q. carried q.0) (some-injective g)) ∙ omega (arith, kept))
              r e)
          (some-Keeps n none)))
