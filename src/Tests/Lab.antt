-- ===== src/Tests/Lab.antt =====
-- The adapters of a sponge socket, and apps/lab7.cc, at concrete inputs.
use csed353_tcp.Prelude.{ℕ, ◌+◌, ◌≡◌, refl, true, false, some, [], ◌∷◌, arith, length, ◌<◌, u64_mod}
use csed353_tcp.Buffer.{views, of_string, append, str}
use csed353_tcp.Parser.Unparser.{u8, u16}
use csed353_tcp.Descriptor.{open_fd}
use csed353_tcp.Descriptor.Documented.{shown}
use csed353_tcp.Ethernet
use csed353_tcp.Ethernet.{EthernetAddress, EthernetFrame, zero_header}
use csed353_tcp.Lab7.{Network, set_up, SetUp, ip, frames_at, router_to_host}
use csed353_tcp.Lab7.Routes.{set_up-routes, Goes}
use csed353_tcp.Lab7.Turns.{router_to_host-sends}
use csed353_tcp.NetworkInterface
use csed353_tcp.Router.Network.{interface}
use csed353_tcp.SpongeSocket.Devices.{udp_adapter, tun_adapter, tap_adapter, lossy}
use csed353_tcp.SpongeSocket.Devices.Calm.{IsCalm, devices-IsCalm}
use csed353_tcp.Tests.Machine.{Machine, machine, machine-IsStream, machine-IsBlocking, datagrams}

devices-IsCalm_example :
    IsCalm machine (udp_adapter datagrams)
    × IsCalm machine (tun_adapter machine (λ n. n))
    × IsCalm machine (tap_adapter machine (λ n. n) (λ n. 0))
    × IsCalm machine (
        lossy
          (udp_adapter datagrams)
          (λ a. a.adapter.cfg)
          (λ w. (record w { clock = w.clock + 1 }, w.clock)))
    × IsCalm machine (
        lossy
          (tun_adapter machine (λ n. n))
          (λ a. a.adapter.cfg)
          (λ w. (record w { clock = w.clock + 1 }, w.clock)))
devices-IsCalm_example =
    devices-IsCalm machine datagrams (λ n. n) (λ n. 0)
      (λ w. (record w { clock = w.clock + 1 }, w.clock))

abbrev near : EthernetAddress
near = Ethernet.ethernet_broadcast

abbrev routers : SetUp
routers = set_up true near near

set_up-routes_example :
    Goes routers (record { dst = ip 172 16 0 100; ttl = 64 }) routers.internet_side (ip 10 0 0 172)
    × Goes
        (set_up false near near)
        (record { dst = ip 172 16 0 100; ttl = 64 })
        (set_up false near near).host_side
        (ip 172 16 0 100)
set_up-routes_example =
    set_up-routes near near near near true (record { dst = ip 172 16 0 100; ttl = 64 })
      (omega arith) (omega arith) (omega arith)

abbrev frame : ℕ → EthernetFrame
frame byte = record { header = zero_header; payload = of_string (byte ∷ []) ∷ [] }

abbrev network : Network Machine
network = record {
  world = record {
    sent = λ x. [];
    received = λ x. [];
    supply = λ x. [];
    incoming = [];
    wire = [];
    clock = 0;
  };
  frame_fd = open_fd 3;
  internet_socket = open_fd 4;
  router = record {
    routing_table = [];
    interfaces =
        record {
          interface = record (NetworkInterface.init near 1) { frames_out = frame 8 ∷ frame 9 ∷ [] };
          datagrams_out = [];
        }
        ∷ [];
  };
}

waits : frames_at network.router 0 ≡ frame 8 ∷ frame 9 ∷ []
unfolding interface
waits = refl

small : length (shown (views (Ethernet.serialize (frame 8)))) < u64_mod
unfolding Ethernet.serialize views Ethernet.serialize_header append str u16 u8 Ethernet.write_bytes
small = omega arith

router_to_host-sends_example :
    (t : Network Machine) × (router_to_host machine datagrams
        (λ n. 0)
        (record { ipv4_numeric = 1; port = 2 })
        0
        1
        network
      ≡ some t)
    × (frames_at t.router 0 ≡ frame 9 ∷ [])
    × (t.world.sent 3 ≡ shown (views (Ethernet.serialize (frame 8))))
unfolding open_fd
router_to_host-sends_example =
    router_to_host-sends machine datagrams (λ n. 0) (record { ipv4_numeric = 1; port = 2 }) 0 1
      network (frame 8) (frame 9 ∷ []) machine-IsStream (machine-IsBlocking 3) waits small
