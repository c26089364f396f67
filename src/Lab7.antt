-- ===== src/Lab7.antt =====
-- apps/lab7.cc: a router between the host, a sponge socket on a pair of descriptors, and the Internet, a
-- UDP socket to a relay. Modelled are the set-up of the router and the thread that runs the network. The
-- number of an address is written out; the relay's address, the random Ethernet addresses and `exit_flag`,
-- which another thread sets, are parameters. `none` is an exception; what the frames say on `cerr` is left out.
pub mod Turns
pub mod Routes
use csed353_tcp.Prelude.{
  ℕ, zero, suc, ◌+◌, ◌*◌, Bool, true, false, not, Option, none, some, List, [], ◌∷◌, if◌then◌else◌,
  ◌>>=◌, Bytes,
}
use csed353_tcp.Adapter.{Address}
use csed353_tcp.Buffer.{of_string, views}
use csed353_tcp.Descriptor
use csed353_tcp.Descriptor.{Kernel, FdWrapper}
use csed353_tcp.Ethernet
use csed353_tcp.Ethernet.{EthernetAddress, EthernetFrame}
use csed353_tcp.EventLoop.{
  Rule, Direction, Result, PollFd, PollAnswer, always, do_nothing, wait_next_event,
}
use csed353_tcp.NetworkInterface
use csed353_tcp.NetworkInterface.{NetworkInterface}
use csed353_tcp.Parser.{is_error}
use csed353_tcp.Router.{Route, add_route}
use csed353_tcp.Router.Network.{
  Router, AsyncNetworkInterface, add_interface, interface, replace, recv_frame, route,
}
use csed353_tcp.Sockets.{UdpKernel, sendto}
use csed353_tcp.SpongeSocket.{Datagrams}
use csed353_tcp.SpongeSocket.Devices.{Device, no_limit, tap_adapter}
use csed353_tcp.Adapter.Tap.{TapAdapter}

-- What the network's thread works on.
pub record Network (W : Type 0) : Type 0 where
  pub world : W
  pub frame_fd : FdWrapper
  pub internet_socket : FdWrapper
  pub router : Router

-- NetworkInterfaceAdapter, with the first descriptor of its pair: the same code as the adapter for a TAP
-- device, on another descriptor.
abbrev pub host_adapter :
    {W : Type 0} → Kernel W → (ℕ → ℕ) → (NetworkInterface → ℕ) → Datagrams W (Device TapAdapter)
host_adapter k through_text past_end = tap_adapter k through_text past_end

-- The number of a dotted quad.
abbrev pub ip : ℕ → ℕ → ℕ → ℕ → ℕ
ip a b c d = ((a * 256 + b) * 256 + c) * 256 + d

abbrev pub new_interface : EthernetAddress → ℕ → AsyncNetworkInterface
new_interface address number = record {
  interface = NetworkInterface.init address number;
  datagrams_out = [];
}

abbrev pub with_route : Router → ℕ → ℕ → Option ℕ → ℕ → Router
with_route r prefix len hop n = record r {
  routing_table = add_route r.routing_table prefix len hop n;
}

-- The router and the numbers of its sides.
pub record SetUp : Type 0 where
  pub router : Router
  pub host_side : ℕ
  pub internet_side : ℕ

unfoldable pub set_up : Bool → EthernetAddress → EthernetAddress → SetUp
unfolding add_interface add_route
set_up is_client first second =
    let empty : Router = record { routing_table = []; interfaces = [] } in
    if is_client
    then (let (a, host_side) = add_interface empty (new_interface first (ip 192 168 0 1)) in
        let (b, internet_side) = add_interface a (new_interface second (ip 10 0 0 192)) in
        let c : Router = with_route b (ip 192 168 0 0) 16 none host_side in
        let d : Router = with_route c (ip 10 0 0 0) 8 none internet_side in
        let e : Router = with_route d (ip 172 16 0 0) 12 (some (ip 10 0 0 172)) internet_side in
        record { router = e; host_side = host_side; internet_side = internet_side })
    else (let (a, host_side) = add_interface empty (new_interface first (ip 172 16 0 1)) in
        let (b, internet_side) = add_interface a (new_interface second (ip 10 0 0 172)) in
        let c : Router = with_route b (ip 172 16 0 0) 12 none host_side in
        let d : Router = with_route c (ip 10 0 0 0) 8 none internet_side in
        let e : Router = with_route d (ip 192 168 0 0) 16 (some (ip 10 0 0 192)) internet_side in
        record { router = e; host_side = host_side; internet_side = internet_side })

-- A frame that is read goes to an interface of the router, which then routes.
unfoldable pub take_frame : (NetworkInterface → ℕ) → Router → ℕ → Bytes → Option Router
take_frame past_end r side bytes =
    let (frame, result) = Ethernet.parse (of_string bytes) in
    if is_error result
    then some r
    else (interface r side >>= λ a. recv_frame a frame >>= λ b.
        route past_end (record r { interfaces = replace side b r.interfaces }))

-- The frames that wait at an interface.
abbrev pub frames_at : Router → ℕ → List EthernetFrame
frames_at r side = elim (interface r side) [ none ↦ [] | some a ↦ a.interface.frames_out ]

abbrev pub is_empty : List EthernetFrame → Bool
is_empty [] = true
is_empty (f ∷ fs) = false

unfoldable pub with_frames : Router → ℕ → List EthernetFrame → Option Router
with_frames r side frames = interface r side >>= λ a. some (record r {
  interfaces =
      replace side (record a { interface = record (a.interface) { frames_out = frames } })
        r.interfaces;
})

module _ {W : Type 0} (k : Kernel W) (u : UdpKernel W) (past_end : NetworkInterface → ℕ)
    (bounce_address : Address) (host_side internet_side : ℕ) where
  -- Frames from the host to the router, and from the Internet to the router.
  unfoldable pub host_to_router : Network W → Option (Network W)
  unfolding take_frame
  host_to_router s = Descriptor.read k s.frame_fd s.world no_limit >>= λ (d, (w, bytes)).
      take_frame past_end s.router host_side bytes >>= λ r.
      some (record s { world = w; frame_fd = d; router = r })

  unfoldable pub internet_to_router : Network W → Option (Network W)
  unfolding take_frame
  internet_to_router s = Descriptor.read k s.internet_socket s.world no_limit >>= λ (d, (w, bytes)).
      take_frame past_end s.router internet_side bytes >>= λ r.
      some (record s { world = w; internet_socket = d; router = r })

  -- The first frame that waits goes from the router to the host, or to the Internet.
  unfoldable pub router_to_host : Network W → Option (Network W)
  unfolding with_frames
  router_to_host s = elim (frames_at s.router host_side) [
    | [] ↦ none
    | f ∷ fs ↦
        Descriptor.write k s.frame_fd s.world (views (Ethernet.serialize f)) true >>= λ (d, (w, n)).
        with_frames s.router host_side fs >>= λ r.
        some (record s { world = w; frame_fd = d; router = r })
  ]

  unfoldable pub router_to_internet : Network W → Option (Network W)
  unfolding with_frames
  router_to_internet s = elim (frames_at s.router internet_side) [
    | [] ↦ none
    | f ∷ fs ↦
        sendto u s.internet_socket s.world bounce_address (views (Ethernet.serialize f))
        >>= λ (d, w). with_frames s.router internet_side fs >>= λ r.
            some (record s { world = w; internet_socket = d; router = r })
  ]

  unfoldable pub rules : List (Rule (Network W))
  rules =
      record {
        fd = λ s. s.frame_fd;
        direction = Direction.reading;
        callback = host_to_router;
        interest = always;
        cancel = do_nothing;
      }
      ∷ record {
        fd = λ s. s.frame_fd;
        direction = Direction.writing;
        callback = router_to_host;
        interest = λ s. not (is_empty (frames_at s.router host_side));
        cancel = do_nothing;
      }
      ∷ record {
        fd = λ s. s.internet_socket;
        direction = Direction.writing;
        callback = router_to_internet;
        interest = λ s. not (is_empty (frames_at s.router internet_side));
        cancel = do_nothing;
      }
      ∷ record {
        fd = λ s. s.internet_socket;
        direction = Direction.reading;
        callback = internet_to_router;
        interest = always;
        cancel = do_nothing;
      }
      ∷ []

-- `tick` of an interface of the router.
unfoldable pub tick_side : Router → ℕ → ℕ → Option Router
tick_side r side ms = interface r side >>= λ a. some (record r {
  interfaces =
      replace side (record a { interface = NetworkInterface.tick a.interface ms }) r.interfaces;
})

module _ {W : Type 0} (poll : Network W → List PollFd → Network W × PollAnswer)
    (exit_flag : W → Bool) (host_side internet_side : ℕ) where
  abbrev pub is_exit : Result → Bool
  is_exit Result.exit = true
  is_exit Result.success = false
  is_exit Result.timeout = false

  -- The loop of the network's thread, on fuel for its rounds; `none` inside is that they are used up.
  unfoldable pub network_loop :
      ℕ → List (Rule (Network W)) → Network W → Option (Option (Network W))
  unfolding tick_side
  network_loop zero rs s = some none
  network_loop (suc rounds) rs s = wait_next_event poll rs s >>= λ (ret, (left, t)).
      elim (is_exit ret) [
        | true ↦ some (some t)
        | false ↦ tick_side t.router host_side 50 >>= λ a. tick_side a internet_side 50 >>= λ b.
            elim (exit_flag t.world) [
              | true ↦ some (some (record t { router = b }))
              | false ↦ network_loop rounds left (record t { router = b })
            ]
      ]
