-- ===== src/NetworkInterface/Requests.antt =====
-- When `send_datagram` (libsponge/network_interface.cc) asks for an address.
use csed353_tcp.Prelude.{
  ℕ, ◌≤◌, ◌<◌, ◌≡◌, refl, ap, sym, ◌∙◌, true, false, some, none, [], ◌∷◌, ◌++◌, List, arith, leb,
  sub64, bind-eq-some, some-injective,
}
use csed353_tcp.Arp
use csed353_tcp.Ipv4.{Ipv4Datagram}
use csed353_tcp.NetworkInterface.{
  NetworkInterface, Request, lookup, push_frame, blank_frame, find_request, send_request,
  request_message, send_unknown, send_datagram,
}

-- The datagram waits.
abbrev pub waiting : NetworkInterface → Ipv4Datagram → ℕ → NetworkInterface
waiting n dgram ip = record n { unsent = n.unsent ++ (dgram, ip) ∷ [] }

find_request-append :
    (ip t : ℕ) (rs more : List Request)
    → find_request ip rs ≡ some t
    → find_request ip (rs ++ more) ≡ some t
unfolding find_request
find_request-append ip t [] more h = cc
find_request-append ip t (r ∷ rs) more h = ground (arith, find_request-append ip t rs more)

send_datagram-stale :
    (past_end : ℕ) (n : NetworkInterface) (dgram : Ipv4Datagram) (ip t : ℕ)
    → lookup ip n.ip_ethernet_map ≡ none
    → find_request ip n.arp_req ≡ some t
    → 5000 < sub64 n.time t
    → send_datagram past_end n dgram ip ≡ send_request (waiting n dgram ip) ip
unfolding send_datagram send_unknown
send_datagram-stale past_end n dgram ip t unknown noted late =
    let longer : leb (sub64 n.time t) 5000 ≡ false = ground (arith, late) in
    rw (unknown, send_datagram, noted, send_unknown, longer) refl

-- A request of at most 5 seconds ago for an unknown address keeps another one from being sent: the
-- datagram waits, and nothing else changes.
pub send_datagram-asked :
    (past_end : ℕ) (n : NetworkInterface) (dgram : Ipv4Datagram) (ip t : ℕ)
    → lookup ip n.ip_ethernet_map ≡ none
    → find_request ip n.arp_req ≡ some t
    → sub64 n.time t ≤ 5000
    → send_datagram past_end n dgram ip ≡ some (waiting n dgram ip)
unfolding send_datagram send_unknown
send_datagram-asked past_end n dgram ip t unknown noted early =
    let sooner : leb (sub64 n.time t) 5000 ≡ true = ground (arith, early) in
    rw (unknown, send_datagram, noted, send_unknown, sooner) refl

-- Once the first request for an unknown address is more than 5 seconds old, the limit is lost: a
-- datagram that was just sent, with a request and without an exception, does not keep the next one
-- from sending a request at once.
pub send_datagram-repeats :
    (past_end : ℕ) (n m : NetworkInterface) (dgram next : Ipv4Datagram) (ip t : ℕ)
    → lookup ip n.ip_ethernet_map ≡ none
    → find_request ip n.arp_req ≡ some t
    → 5000 < sub64 n.time t
    → send_datagram past_end n dgram ip ≡ some m
    → send_datagram past_end m next ip ≡ send_request (waiting m next ip) ip
unfolding send_request
send_datagram-repeats past_end n m dgram next ip t unknown noted late sent =
    let asked : send_request (waiting n dgram ip) ip ≡ some m =
      sym (send_datagram-stale past_end n dgram ip t unknown noted late) ∙ sent in
    let (bytes, _, e) =
      bind-eq-some (Arp.serialize (request_message (waiting n dgram ip) ip)) _ m asked in
    let same = some-injective e in
    send_datagram-stale past_end m next ip t
      (sym (ap (λ (q : NetworkInterface). lookup ip q.ip_ethernet_map) same) ∙ unknown)
      (sym (ap (λ (q : NetworkInterface). find_request ip q.arp_req) same)
        ∙ find_request-append ip t n.arp_req _ noted)
      (omega (arith, late, ap (λ (q : NetworkInterface). sub64 q.time t) same))

-- Where neither the address nor a request for it is noted, and what is read past the end of the requests
-- as a time is at most 5 seconds ago, no request is sent. A frame with no payload, to an address of
-- zeros, goes out instead, and the datagram waits.
pub send_datagram-blank :
    (past_end : ℕ) (n : NetworkInterface) (dgram : Ipv4Datagram) (ip : ℕ)
    → lookup ip n.ip_ethernet_map ≡ none
    → find_request ip n.arp_req ≡ none
    → sub64 n.time past_end ≤ 5000
    → send_datagram past_end n dgram ip ≡ some (push_frame (waiting n dgram ip) (blank_frame n))
unfolding send_datagram send_unknown
send_datagram-blank past_end n dgram ip unknown fresh early =
    let sooner : leb (sub64 n.time past_end) 5000 ≡ true = ground (arith, early) in
    rw (unknown, send_datagram, fresh, send_unknown, sooner) refl
