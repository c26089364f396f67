-- ===== src/Lab7/Routes.antt =====
-- The routes of apps/lab7.cc.
use csed353_tcp.Prelude.{ℕ, ◌≤◌, ◌<◌, ◌≡◌, Bool, true, false, not, some, arith}
use csed353_tcp.Ethernet.{EthernetAddress}
use csed353_tcp.Lab7.{ip, set_up, SetUp}
use csed353_tcp.Router.{Datagram, route_one_datagram}

-- A datagram goes to an interface and a next hop.
abbrev pub Goes : SetUp → Datagram → ℕ → ℕ → Type 0
Goes n dgram side hop =
    route_one_datagram (λ x. x) n.router.routing_table dgram
    ≡ some (record { interface_num = side; dgram = dgram; next_hop = hop })

-- The network of a host of the lab, of the server or of the client: its first address and the one after
-- its last; and the address of its router on the Internet.
abbrev pub first : Bool → ℕ
first true = ip 172 16 0 0
first false = ip 192 168 0 0

abbrev pub beyond : Bool → ℕ
beyond true = ip 172 32 0 0
beyond false = ip 192 169 0 0

abbrev pub gateway : Bool → ℕ
gateway true = ip 10 0 0 172
gateway false = ip 10 0 0 192

-- Between the two hosts of the lab: a datagram with a TTL of at least two for an address of the server's
-- network, 172.16.0.0/12, is sent by the client's router on its Internet side to 10.0.0.172, the
-- server's router, and by that one on its host side to the destination itself; and one for the client's
-- network, 192.168.0.0/16, by the server's router to 10.0.0.192 and by the client's to the destination.
pub set_up-routes :
    (near far near' far' : EthernetAddress) (to_server : Bool) (dgram : Datagram)
    → 2 ≤ dgram.ttl
    → first to_server ≤ dgram.dst
    → dgram.dst < beyond to_server
    → let sender : SetUp = set_up to_server near far in
      let receiver : SetUp = set_up (not to_server) near' far' in
      Goes sender dgram sender.internet_side (gateway to_server)
      × Goes receiver dgram receiver.host_side dgram.dst
unfolding set_up route_one_datagram
set_up-routes near far near' far' true dgram alive low high =
    (ground (arith, alive, low, high), ground (arith, alive, low, high))
set_up-routes near far near' far' false dgram alive low high =
    (ground (arith, alive, low, high), ground (arith, alive, low, high))
