-- ===== src/NetworkSimulator.antt =====
-- The hosts of apps/network_simulator.cc, and the frames that are exchanged between interfaces. A name is
-- only printed. `none` is an exception. What an interface reads past the end of its requests is a function
-- `past_end` of it. The network itself, of seven interfaces and six hosts, is its constants.
pub mod Checked
use csed353_tcp.Prelude.{
  ℕ, ◌+◌, ◌*◌, ◌%◌, Bool, true, false, ◌&&◌, Option, none, some, List, [], ◌∷◌, ◌++◌, ◌==◌,
  if◌then◌else◌, ◌>>=◌, Bytes, length, drop, u16_mod,
}
use csed353_tcp.Buffer.{of_string, concatenate, str}
use csed353_tcp.Ethernet.{EthernetFrame}
use csed353_tcp.Ipv4
use csed353_tcp.Ipv4.{Ipv4Datagram}
use csed353_tcp.NetworkInterface
use csed353_tcp.NetworkInterface.{NetworkInterface}
use csed353_tcp.Router.Network.{AsyncNetworkInterface, recv_frame}

-- class Host.
pub record Host : Type 0 where
  pub my_address : ℕ
  pub interface : AsyncNetworkInterface
  pub next_hop : ℕ
  pub expecting_to_receive : List Ipv4Datagram

-- `operator==` of strings.
unfoldable pub same_bytes : Bytes → Bytes → Bool
same_bytes [] [] = true
same_bytes [] (y ∷ ys) = false
same_bytes (x ∷ xs) [] = false
same_bytes (x ∷ xs) (y ∷ ys) = x == y && same_bytes xs ys

-- `serialize().concatenate()`.
unfoldable pub text : Ipv4Datagram → Option Bytes
text dgram = Ipv4.serialize dgram >>= λ buffers. some (concatenate buffers)

unfoldable pub expecting : List Ipv4Datagram → Ipv4Datagram → Option Bool
expecting [] expected = some false
expecting (x ∷ xs) expected =
    let rest = expecting xs expected in
    text x >>= λ a. text expected >>= λ b. if same_bytes a b then some true else rest

unfoldable pub remove_expectation : List Ipv4Datagram → Ipv4Datagram → Option (List Ipv4Datagram)
remove_expectation [] expected = some []
remove_expectation (x ∷ xs) expected =
    let rest = remove_expectation xs expected >>= λ left. some (x ∷ left) in
    text x >>= λ a. text expected >>= λ b. if same_bytes a b then some xs else rest

-- The constructor.
unfoldable pub init : NetworkInterface → ℕ → ℕ → Host
init interface my_address next_hop = record {
  my_address = my_address;
  interface = record { interface = interface; datagrams_out = [] };
  next_hop = next_hop;
  expecting_to_receive = [];
}

unfoldable pub expect : Host → Ipv4Datagram → Host
expect h expected = record h { expecting_to_receive = h.expecting_to_receive ++ expected ∷ [] }

-- The loop of `check`: what is still expected once the queue is empty.
unfoldable pub check_queue : List Ipv4Datagram → List Ipv4Datagram → Option (List Ipv4Datagram)
unfolding expecting remove_expectation
check_queue [] expected = some expected
check_queue (dgram ∷ queue) expected = expecting expected dgram >>= λ found.
    if found then (remove_expectation expected dgram >>= λ left. check_queue queue left) else none

unfoldable pub check : Host → Option Host
unfolding check_queue
check h = check_queue h.interface.datagrams_out h.expecting_to_receive >>= λ left. elim left [
  | [] ↦ some (record h {
    interface = record (h.interface) { datagrams_out = [] };
    expecting_to_receive = [];
  })
  | _ ∷ _ ↦ none
]

-- `deliver`: every frame, as one string, is received.
unfoldable pub deliver : List EthernetFrame → AsyncNetworkInterface → Option AsyncNetworkInterface
deliver [] dst = some dst
deliver (frame ∷ frames) dst =
    recv_frame dst (record frame { payload = of_string (concatenate frame.payload) ∷ [] })
    >>= λ next. deliver frames next

-- `clear`, for a queue of the frames that were in the queue of the interface at first.
unfoldable pub clear : List EthernetFrame → AsyncNetworkInterface → AsyncNetworkInterface
clear frames a = record a {
  interface = record (a.interface) { frames_out = drop (length frames) a.interface.frames_out };
}

abbrev pub frames_out : AsyncNetworkInterface → List EthernetFrame
frames_out a = a.interface.frames_out

unfoldable pub exchange_frames :
    AsyncNetworkInterface
    → AsyncNetworkInterface
    → Option (AsyncNetworkInterface × AsyncNetworkInterface)
unfolding deliver clear
exchange_frames x y = deliver (frames_out x) y >>= λ y'.
    deliver (frames_out y) x >>= λ x'. some (clear (frames_out x) x', clear (frames_out y) y')

-- Between three interfaces.
unfoldable pub exchange_three :
    AsyncNetworkInterface
    → AsyncNetworkInterface
    → AsyncNetworkInterface
    → Option (AsyncNetworkInterface × AsyncNetworkInterface × AsyncNetworkInterface)
unfolding deliver clear
exchange_three x y z = deliver (frames_out x) y >>= λ y₁. deliver (frames_out x) z >>= λ z₁.
    deliver (frames_out y) x >>= λ x₁. deliver (frames_out y) z₁ >>= λ z₂.
    deliver (frames_out z) x₁ >>= λ x₂. deliver (frames_out z) y₁ >>= λ y₂.
    some (clear (frames_out x) x₂, clear (frames_out y) y₂, clear (frames_out z) z₂)
