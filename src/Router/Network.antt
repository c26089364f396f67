-- ===== src/Router/Network.antt =====
-- libsponge/router.hh and router.cc: the router with its network interfaces, and `route`. An `Address` is
-- its number. `none` is an exception, of an interface that is not there or cannot write a datagram. What
-- an interface reads past the end of its requests is a function `past_end` of the interface.
pub mod Forwarded
pub mod Emptied
use csed353_tcp.Prelude.{
  ℕ, zero, suc, ◌-◌, Option, none, some, List, [], ◌∷◌, ◌++◌, ◌>>=◌, length, get_elem?,
}
use csed353_tcp.Ethernet.{EthernetFrame}
use csed353_tcp.Ipv4.{Ipv4Datagram}
use csed353_tcp.NetworkInterface
use csed353_tcp.NetworkInterface.{NetworkInterface}
use csed353_tcp.Router.{Route, Datagram, Sending, route_one_datagram}

pub record AsyncNetworkInterface : Type 0 where
  pub interface : NetworkInterface
  pub datagrams_out : List Ipv4Datagram

-- AsyncNetworkInterface::recv_frame.
unfoldable pub recv_frame : AsyncNetworkInterface → EthernetFrame → Option AsyncNetworkInterface
recv_frame a frame =
    NetworkInterface.recv_frame a.interface frame >>= λ (interface, optional_dgram).
    elim optional_dgram [
      | none ↦ some (record a { interface = interface })
      | some dgram ↦
          some (record { interface = interface; datagrams_out = a.datagrams_out ++ dgram ∷ [] })
    ]

-- class Router.
pub record Router : Type 0 where
  pub routing_table : List (Route ℕ)
  pub interfaces : List AsyncNetworkInterface

unfoldable pub add_interface : Router → AsyncNetworkInterface → Router × ℕ
add_interface r interface =
    let interfaces : List AsyncNetworkInterface = r.interfaces ++ interface ∷ [] in
    (record r { interfaces = interfaces }, length interfaces - 1)

-- `interface(N)`.
unfoldable pub interface : Router → ℕ → Option AsyncNetworkInterface
interface r n = get_elem? r.interfaces n

-- The interfaces with another one in place of one of them.
unfoldable pub replace :
    ℕ → AsyncNetworkInterface → List AsyncNetworkInterface → List AsyncNetworkInterface
replace n a [] = []
replace zero a (b ∷ bs) = a ∷ bs
replace (suc n) a (b ∷ bs) = b ∷ replace n a bs

-- The part of a datagram that the choice of a route reads.
abbrev pub read_part : Ipv4Datagram → Datagram
read_part dgram = record { dst = dgram.header.dst; ttl = dgram.header.ttl }

-- What `route_one_datagram` calls `send_datagram` with.
abbrev pub chosen : Router → Ipv4Datagram → Option (Sending ℕ)
chosen r dgram = route_one_datagram (λ n. n) r.routing_table (read_part dgram)

module _ (past_end : NetworkInterface → ℕ) where
  unfoldable pub send_on : Router → Ipv4Datagram → Sending ℕ → Option Router
  unfolding interface replace
  send_on r dgram s = interface r s.interface_num >>= λ a.
      NetworkInterface.send_datagram (past_end a.interface) a.interface dgram s.next_hop >>= λ n.
      some (record r {
        interfaces = replace s.interface_num (record a { interface = n }) r.interfaces;
      })

  unfoldable pub route_one : Router → Ipv4Datagram → Option Router
  unfolding send_on
  route_one r dgram = elim (chosen r dgram) [ none ↦ some r | some s ↦ send_on r dgram s ]

  -- The loop over the queue of an interface.
  unfoldable pub route_queue : Router → List Ipv4Datagram → Option Router
  unfolding route_one
  route_queue r [] = some r
  route_queue r (dgram ∷ queue) = route_one r dgram >>= λ q. route_queue q queue

  -- The loop over `k` interfaces, from the one at `i` on. The queue of each is empty after its turn.
  unfoldable pub route_from : ℕ → ℕ → Router → Option Router
  unfolding route_queue
  route_from i zero r = some r
  route_from i (suc k) r = interface r i >>= λ a. route_queue r a.datagrams_out >>= λ q.
      interface q i >>= λ b.
      route_from (suc i) k
        (record q { interfaces = replace i (record b { datagrams_out = [] }) q.interfaces })

  unfoldable pub route : Router → Option Router
  unfolding route_from
  route r = route_from 0 (length r.interfaces) r
