-- ===== src/SpongeSocket/Session.antt =====
-- The loop of libsponge/tcp_helpers/tcp_sponge_socket.cc and the operations that run it. The loop is on
-- fuel for its rounds, which are as many as the peers and the owner make it go; `running` says that they
-- are used up. What the loop in the thread of its own starts with is what `connect` or
-- `listen_and_accept` leaves.
pub mod Opening
pub mod Inbound
pub mod Looped
use csed353_tcp.Prelude.{
  ℕ, zero, suc, Bool, true, false, not, ◌&&◌, ◌||◌, Option, none, some, List, [], ◌∷◌,
  if◌then◌else◌, ◌>>=◌, sub64,
}
use csed353_tcp.Adapter.{FdAdapterConfig}
use csed353_tcp.Connection
use csed353_tcp.Connection.{TcpConnection, TcpConfig}
use csed353_tcp.Descriptor
use csed353_tcp.Descriptor.{Kernel, FdWrapper, How}
use csed353_tcp.EventLoop.{Rule, Result, PollFd, PollAnswer, wait_next_event}
use csed353_tcp.SpongeSocket.{SpongeSocket, Datagrams, rules}
use csed353_tcp.TcpState.{State, of_state, state, same_state}

-- The socket before it has a connection, as `tcp` says.
pub record ClosedSocket (W A : Type 0) : Type 0 where
  pub world : W
  pub thread_data : FdWrapper
  pub datagram_adapter : A
  pub tcp : Option TcpConnection

-- A socket and the rules of its event loop.
pub record Session (W A : Type 0) : Type 0 where
  pub socket : SpongeSocket W A
  pub event_rules : List (Rule (SpongeSocket W A))

-- How a loop ends: by its condition, by a `break`, or not yet.
pub data Ending : Type 0 where
  fulfilled : Ending
  broken : Ending
  running : Ending

module _ {W A : Type 0} where
  abbrev pub in_state : State → SpongeSocket W A → Bool
  in_state expected s = same_state (state s.tcp) (of_state expected)

  abbrev pub awaits : SpongeSocket W A → Bool
  awaits s = in_state State.listen s || in_state State.syn_rcvd s || in_state State.syn_sent s

module _ {W A : Type 0} (k : Kernel W) (adapt : Datagrams W A) where
  -- The time that has passed is given to the connection and the adapter, and becomes the base.
  unfoldable pub tick_by : ℕ → SpongeSocket W A → Option (SpongeSocket W A × ℕ)
  tick_by base_time s =
      if Connection.active s.tcp
      then (let (w, next_time) = k.timestamp_ms s.world in
          Connection.tick s.tcp (sub64 next_time base_time) >>= λ tcp.
          adapt.tick s.datagram_adapter w (sub64 next_time base_time) >>= λ (a, v).
          some (record s { world = v; tcp = tcp; datagram_adapter = a }, next_time))
      else some (s, base_time)

  -- `_initialize_TCP`; `random` is what the sender draws where the configuration fixes no number.
  unfoldable pub initialize_tcp : ClosedSocket W A → TcpConfig → ℕ → Session W A
  initialize_tcp s config random = record {
    socket = record {
      world = s.world;
      thread_data = s.thread_data;
      datagram_adapter = s.datagram_adapter;
      tcp = Connection.init config random;
      inbound_shutdown = false;
      outbound_shutdown = false;
      fully_acked = false;
    };
    event_rules = rules k adapt;
  }

  -- What `connect` does to the socket before it waits.
  unfoldable pub start_connect : ClosedSocket W A → TcpConfig → FdAdapterConfig → ℕ → Session W A
  unfolding initialize_tcp
  start_connect s c_tcp c_ad random =
      let n : Session W A = initialize_tcp s c_tcp random in
      record n {
        socket = record (n.socket) {
          datagram_adapter = adapt.configure n.socket.datagram_adapter c_ad;
          tcp = Connection.connect n.socket.tcp;
        };
      }

module _ {W A : Type 0} (k : Kernel W) (adapt : Datagrams W A)
    (poll : SpongeSocket W A → List PollFd → SpongeSocket W A × PollAnswer)
    (aborted : W → Bool) where
  -- The test after an event.
  abbrev pub breaks : Result → SpongeSocket W A → Bool
  breaks Result.exit s = true
  breaks Result.success s = aborted s.world
  breaks Result.timeout s = aborted s.world

  -- `_tcp_loop`, from the time it took as its base.
  unfoldable pub loop_from :
      ℕ → (SpongeSocket W A → Bool) → ℕ → Session W A → Option (Ending × Session W A)
  unfolding tick_by
  loop_from zero condition base_time n = some (Ending.running, n)
  loop_from (suc rounds) condition base_time n =
      let next : Option (Ending × Session W A) =
        wait_next_event poll n.event_rules n.socket >>= λ (ret, (left, s)). elim (breaks ret s) [
          | true ↦ some (Ending.broken, record { socket = s; event_rules = left })
          | false ↦ tick_by k adapt base_time s >>= λ (t, base).
              loop_from rounds condition base (record { socket = t; event_rules = left })
        ] in
      if condition n.socket then next else some (Ending.fulfilled, n)

  unfoldable pub tcp_loop :
      ℕ → (SpongeSocket W A → Bool) → Session W A → Option (Ending × Session W A)
  unfolding loop_from
  tcp_loop rounds condition n =
      let (w, base_time) = k.timestamp_ms n.socket.world in
      loop_from rounds condition base_time (record n { socket = record (n.socket) { world = w } })

  unfoldable pub connect :
      ℕ → ClosedSocket W A → TcpConfig → FdAdapterConfig → ℕ → Option (Ending × Session W A)
  unfolding start_connect tcp_loop
  connect rounds s c_tcp c_ad random =
      let n : Session W A = start_connect k adapt s c_tcp c_ad random in
      elim s.tcp [
        | some _ ↦ none
        | none ↦
            if not (in_state State.syn_sent n.socket)
            then none
            else tcp_loop rounds (in_state State.syn_sent) n
      ]

  unfoldable pub listen_and_accept :
      ℕ → ClosedSocket W A → TcpConfig → FdAdapterConfig → ℕ → Option (Ending × Session W A)
  unfolding initialize_tcp tcp_loop
  listen_and_accept rounds s c_tcp c_ad random =
      let n : Session W A = initialize_tcp k adapt s c_tcp random in
      let a : A = adapt.set_listening (adapt.configure n.socket.datagram_adapter c_ad) true in
      elim s.tcp [
        | some _ ↦ none
        | none ↦
            tcp_loop rounds awaits
              (record n { socket = record (n.socket) { datagram_adapter = a } })
      ]

  -- `_tcp_main`, which also shuts down `owner`, the owner's end. What comes back is the socket without
  -- its connection, once the loop has ended.
  unfoldable pub tcp_main : ℕ → Session W A → FdWrapper → Option (ClosedSocket W A × FdWrapper)
  unfolding tcp_loop
  tcp_main rounds n owner = tcp_loop rounds (λ s. true) n >>= λ (ending, m).
      Descriptor.shutdown k owner m.socket.world How.shut_rdwr >>= λ (fd, w). some (
        record {
          world = w;
          thread_data = m.socket.thread_data;
          datagram_adapter = m.socket.datagram_adapter;
          tcp = none;
        },
        fd,
      )
