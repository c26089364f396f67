-- ===== src/SpongeSocket/Session/Looped.antt =====
-- The loop of libsponge/tcp_helpers/tcp_sponge_socket.cc and the bytes for the owner.
use csed353_tcp.Prelude.{
  ℕ, zero, suc, ◌≡◌, refl, sym, ◌∙◌, subst, Bool, true, false, Option, some, List, ◌>>=◌, Bytes,
  Bool-cases, inl, inr, bind-eq-some, some-injective,
}
use csed353_tcp.Receiver.Appended.{Extends, Extends-same}
use csed353_tcp.Descriptor.{Kernel}
use csed353_tcp.Descriptor.Documented.{IsStream}
use csed353_tcp.EventLoop.{Rule, Result, PollFd, PollAnswer, wait_next_event}
use csed353_tcp.EventLoop.Rounds.{All, Keeps, wait_next_event-kept}
use csed353_tcp.SpongeSocket.{SpongeSocket, Datagrams}
use csed353_tcp.SpongeSocket.Session.{Session, Ending, tick_by, breaks, loop_from, tcp_loop}
use csed353_tcp.SpongeSocket.Session.Inbound as Inbound
use csed353_tcp.SpongeSocket.Session.Inbound.{Apart, IsOurs, bytes_of}

module _ {W A : Type 0} (k : Kernel W) (adapt : Datagrams W A)
    (poll : SpongeSocket W A → List PollFd → SpongeSocket W A × PollAnswer) (sent : W → ℕ → Bytes)
    (id : ℕ) where
  module _ (apart : Apart k adapt poll sent id) (start : Bytes) (aborted : W → Bool)
      (condition : SpongeSocket W A → Bool) where
    abbrev Kept : SpongeSocket W A → Type 0
    Kept = Inbound.Follows k adapt poll sent id start

    -- What follows an event.
    go_on :
        ℕ
        → ℕ
        → Result × (List (Rule (SpongeSocket W A)) × SpongeSocket W A)
        → Option (Ending × Session W A)
    go_on rounds base_time (ret, (left, s)) = elim (breaks k adapt poll aborted ret s) [
      | true ↦ some (Ending.broken, record { socket = s; event_rules = left })
      | false ↦ tick_by k adapt base_time s >>= λ (t, base).
          loop_from k adapt poll aborted rounds condition base
            (record { socket = t; event_rules = left })
    ]

    loop_from-Follows :
        (rounds base_time : ℕ) (n m : Session W A) (ending : Ending)
        → All (Keeps Kept) n.event_rules
        → Kept n.socket
        → loop_from k adapt poll aborted rounds condition base_time n ≡ some (ending, m)
        → Kept m.socket
    unfolding loop_from go_on
    loop_from-Follows zero base_time n m ending keep p h =
        subst (λ (x : Ending × Session W A). Kept x.1.socket) (some-injective h) p
    loop_from-Follows (suc rounds) base_time n m ending keep p h =
        let End : Ending × Session W A → Type 0 = λ x. Kept x.1.socket in
        elim (Bool-cases (condition n.socket)) [
          | inr done ↦
              let fin : Option (Ending × Session W A) = some (Ending.fulfilled, n) in
              let e : fin ≡ some (ending, m) = sym (rw done refl) ∙ h in
              subst End (some-injective e) p
          | inl more ↦
              let ((ret, (left, s)), e, r) =
                bind-eq-some (wait_next_event poll n.event_rules n.socket) (go_on rounds base_time)
                  (ending, m) (sym (rw more refl) ∙ h) in
              let (q, kept) =
                wait_next_event-kept Kept poll (Inbound.polled k adapt poll sent id apart start)
                  n.event_rules left n.socket s ret keep p e in
              elim (Bool-cases (breaks k adapt poll aborted ret s)) [
                | inl out ↦
                    let fin : Option (Ending × Session W A) =
                      some (Ending.broken, record { socket = s; event_rules = left }) in
                    let bad : fin ≡ some (ending, m) = sym (rw (out, go_on) refl) ∙ r in
                    subst End (some-injective bad) q
                | inr stay ↦
                    let again : SpongeSocket W A × ℕ → Option (Ending × Session W A) = λ x.
                      loop_from k adapt poll aborted rounds condition x.1
                        (record { socket = x.0; event_rules = left }) in
                    let ((t, base), c, z) =
                      bind-eq-some (tick_by k adapt base_time s) again (ending, m)
                        (sym (rw (stay, go_on) refl) ∙ r) in
                    loop_from-Follows rounds base _ m ending kept
                      (Inbound.tick_by-Follows k adapt poll sent id apart start base_time base s t q
                        c)
                      z
              ]
        ]

  -- However the loop of the socket ends, over a `writev` and a `shutdown` as they are documented: what was
  -- sent to the owner, followed by what the inbound stream still holds, are then the same bytes as
  -- before, with bytes behind them or none, and the owner's descriptor is the same. Here the rules are
  -- among those that the socket adds; a read, the clock, the adapter and `poll` send nothing on the
  -- owner's descriptor; and `poll` leaves the connection and the owner's socket as they are. The segments
  -- that come, the bytes from the owner, the readiness and the time may be any.
  pub tcp_loop-appends :
      Apart k adapt poll sent id
      → IsStream k sent
      → (aborted : W → Bool) (condition : SpongeSocket W A → Bool) (rounds : ℕ) (n m : Session W A)
        (ending : Ending)
      → All (IsOurs k adapt poll sent id) n.event_rules
      → n.socket.thread_data.fd ≡ id
      → tcp_loop k adapt poll aborted rounds condition n ≡ some (ending, m)
      → (m.socket.thread_data.fd ≡ id)
        × Extends (bytes_of k adapt poll sent id n.socket) (bytes_of k adapt poll sent id m.socket)
  unfolding tcp_loop
  tcp_loop-appends apart stream aborted condition rounds n m ending ours at h =
      let start : Bytes = bytes_of k adapt poll sent id n.socket in
      let u : SpongeSocket W A = record (n.socket) { world = (k.timestamp_ms n.socket.world).0 } in
      loop_from-Follows apart start aborted condition rounds (k.timestamp_ms n.socket.world).1
        (record n { socket = u }) m ending
        (Inbound.rules-Keeps k adapt poll sent id apart start stream n.event_rules ours)
        (Inbound.moves k adapt poll sent id start n.socket u refl (apart.clock_apart n.socket.world)
          (Extends-same _ _ refl) (at, Extends-same _ _ refl))
        h
