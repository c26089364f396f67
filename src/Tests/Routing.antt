-- ===== src/Tests/Routing.antt =====
-- The router (libsponge/router.cc) at concrete inputs.
use csed353_tcp.Prelude.{ℕ, ◌≡◌, ◌*◌, ◌+◌, ◌^◌, refl, none, some, Option, List, [], ◌∷◌}
use csed353_tcp.Arp
use csed353_tcp.Buffer.{of_string}
use csed353_tcp.Ipv4
use csed353_tcp.Ipv4.{Ipv4Datagram}
use csed353_tcp.NetworkInterface
use csed353_tcp.NetworkInterface.{NetworkInterface}
use csed353_tcp.Router.Network
use csed353_tcp.Router.Network.{AsyncNetworkInterface, Router, route}
use csed353_tcp.Router.Network.Forwarded.{queues, queued, all_carried, forwarded}
use csed353_tcp.Router.Network.Emptied.{route-Emptied}
use csed353_tcp.Router.{Route, scan, route_one_datagram, Datagram}
use csed353_tcp.Router.Forwarding.{Routed, route_one_datagram-Routed}

-- 10.0.0.0/8 by way of the router 1 and 10.1.0.0/16 directly, after a default route.
abbrev table : List (Route ℕ)
table =
    record { route_prefix = 0; prefix_length = 0; next_hop = some 7; interface_num = 0 }
    ∷ record { route_prefix = 10 * 2 ^ 24; prefix_length = 8; next_hop = some 1; interface_num = 1 }
    ∷ record {
      route_prefix = 10 * 2 ^ 24 + 2 ^ 16;
      prefix_length = 16;
      next_hop = none;
      interface_num = 2;
    }
    ∷ []

abbrev local : Datagram
local = record { dst = 10 * 2 ^ 24 + 2 ^ 16 + 5; ttl = 64 }

local_sent :
    route_one_datagram (λ n. n) table local
    ≡ some (record { interface_num = 2; dgram = local; next_hop = 10 * 2 ^ 24 + 2 ^ 16 + 5 })
unfolding route_one_datagram
local_sent = refl

route_one_datagram-Routed_example :
    Routed (λ n. n) table local (route_one_datagram (λ n. n) table local)
route_one_datagram-Routed_example = route_one_datagram-Routed (λ n. n) table local

abbrev nic : NetworkInterface
nic = record {
  ethernet_address = 2 ∷ 0 ∷ 0 ∷ 0 ∷ 0 ∷ 1 ∷ [];
  ip_address = 1;
  frames_out = [];
  unsent = [];
  arp_req = [];
  ip_ethernet_map = [];
  time = 9000;
}

abbrev dgram : Ipv4Datagram
dgram = record {
  header = record Ipv4.new_header { len = 22; src = 1; dst = 10 * 2 ^ 24 };
  payload = of_string (1 ∷ 2 ∷ []) ∷ [];
}

-- Two interfaces, of which the first has received a datagram that the table sends to the second.
abbrev router : Router
router = record {
  routing_table = table;
  interfaces =
      record { interface = nic; datagrams_out = dgram ∷ [] }
      ∷ record { interface = nic; datagrams_out = [] }
      ∷ [];
}

abbrev result {ℓ} : {A : Type ℓ} → A → Option A → A
result a none = a
result a (some b) = b

abbrev routed : Router
routed = result router (route (λ n. 0) router)

routed_lem : route (λ n. 0) router ≡ some routed
unfolding route Network.send_on Network.interface Network.replace scan route_one_datagram
    NetworkInterface.send_datagram NetworkInterface.send_unknown NetworkInterface.send_request
    NetworkInterface.request_message NetworkInterface.lookup NetworkInterface.find_request
    Arp.serialize Arp.supported
routed_lem = refl

route-Emptied_example :
    (queued (queues routed.interfaces) ≡ 0)
    × (routed.routing_table ≡ router.routing_table)
    × (all_carried routed.interfaces
        ≡ all_carried router.interfaces + forwarded router.routing_table (queues router.interfaces))
route-Emptied_example = route-Emptied (λ n. 0) router routed routed_lem
