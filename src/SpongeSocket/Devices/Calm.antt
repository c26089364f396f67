-- ===== src/SpongeSocket/Devices/Calm.antt =====
-- The event loop of libsponge/tcp_helpers/tcp_sponge_socket.cc over each of its adapters.
use csed353_tcp.Prelude.{
  ℕ, ◌≡◌, refl, sym, ap, ◌∙◌, true, Option, none, some, List, [], ◌∷◌, take, ltb, Bool-cases, inl,
  inr, bind-eq-some, some-injective,
}
use csed353_tcp.Adapter.{FdAdapter, FdAdapterConfig, tun_read}
use csed353_tcp.Adapter.Tap
use csed353_tcp.Adapter.Tap.{TapAdapter}
use csed353_tcp.Buffer.{BufferList, views}
use csed353_tcp.Descriptor
use csed353_tcp.Descriptor.{Kernel, FdWrapper, register_read}
use csed353_tcp.Descriptor.Counts.{write-read_count}
use csed353_tcp.Descriptor.Reads.{read_once}
use csed353_tcp.EventLoop.{serve}
use csed353_tcp.EventLoop.Rounds.{All}
use csed353_tcp.NetworkInterface.{NetworkInterface}
use csed353_tcp.Segment.{TcpSegment}
use csed353_tcp.Sockets.{UdpKernel, ReceivedDatagram, recv, default_mtu}
use csed353_tcp.SpongeSocket.{SpongeSocket, Datagrams, rules}
use csed353_tcp.SpongeSocket.Devices.{
  Device, no_limit, read_udp, read_tun, read_tap, write_frames, udp_adapter, tun_adapter,
  tap_adapter, read_lossy, lossy,
}
use csed353_tcp.SpongeSocket.Service.{CountsReads, rules-calm}

module _ {W : Type 0} where
  udp-CountsReads : (k : UdpKernel W) → CountsReads (udp_adapter k)
  unfolding read_udp recv register_read
  udp-CountsReads k a b w v seg h =
      let ((d, (u, datagram)), e, r) = bind-eq-some (recv k a.descriptor w default_mtu) _ _ h in
      let ((t, (recv_len, (source, room))), c, q) =
        bind-eq-some (k.recvfrom w a.descriptor.fd default_mtu) _ _ e in
      let x : FdWrapper × (W × ReceivedDatagram) = (d, (u, datagram)) in
      elim (Bool-cases (ltb default_mtu recv_len)) [
        | inl y ↦ absurd (let bad : none ≡ some x = sym (rw y refl) ∙ q in cc)
        | inr n ↦
            let res : FdWrapper × (W × ReceivedDatagram) = (
              register_read a.descriptor,
              (t, record { source_address = source; payload = take recv_len room }),
            ) in
            let z : res ≡ x = some-injective (sym (rw n refl) ∙ q) in
            ap (λ (y : Device FdAdapter × (W × Option TcpSegment)). y.0.descriptor.read_count)
              (sym (some-injective r))
            ∙ ap (λ (y : FdWrapper × (W × ReceivedDatagram)). y.0.read_count) (sym z)
      ]

  tun-CountsReads : (k : Kernel W) (through_text : ℕ → ℕ) → CountsReads (tun_adapter k through_text)
  unfolding read_tun register_read
  tun-CountsReads k through_text a b w v seg h =
      let ((d, (u, bytes)), e, r) =
        bind-eq-some (Descriptor.read k a.descriptor w no_limit) _ _ h in
      let ((adapter, got), c, q) = bind-eq-some (tun_read through_text a.adapter bytes) _ _ r in
      let (_, _, reg) = read_once k a.descriptor w no_limit d u bytes e in
      ap (λ (x : Device FdAdapter × (W × Option TcpSegment)). x.0.descriptor.read_count)
        (sym (some-injective q))
      ∙ ap (λ (x : FdWrapper). x.read_count) reg

  write_frames-read_count :
      (k : Kernel W) (frames : List BufferList) (d : FdWrapper) (w : W) (r : FdWrapper × W)
      → write_frames k d w frames ≡ some r
      → r.0.read_count ≡ d.read_count
  unfolding write_frames
  write_frames-read_count k [] d w r h =
      ap (λ (x : FdWrapper × W). x.0.read_count) (sym (some-injective h))
  write_frames-read_count k (frame ∷ frames) d w r h =
      let ((e, (v, n)), c, q) = bind-eq-some (Descriptor.write k d w (views frame) true) _ _ h in
      write_frames-read_count k frames e v r q
      ∙ write-read_count k d w (views frame) true (e, (v, n)) c

  tap-CountsReads :
      (k : Kernel W) (through_text : ℕ → ℕ) (past_end : NetworkInterface → ℕ)
      → CountsReads (tap_adapter k through_text past_end)
  unfolding read_tap register_read
  tap-CountsReads k through_text past_end a b w v seg h =
      let ((d, (u, bytes)), e, r) =
        bind-eq-some (Descriptor.read k a.descriptor w no_limit) _ _ h in
      let ((adapter, (got, frames)), c, q) =
        bind-eq-some (Tap.read through_text a.adapter bytes) _ _ r in
      let ((f, t), g, p) = bind-eq-some (write_frames k d u frames) _ _ q in
      let (_, _, reg) = read_once k a.descriptor w no_limit d u bytes e in
      ap (λ (x : Device TapAdapter × (W × Option TcpSegment)). x.0.descriptor.read_count)
        (sym (some-injective p))
      ∙ write_frames-read_count k frames d u (f, t) g
      ∙ ap (λ (x : FdWrapper). x.read_count) reg

lossy-CountsReads :
    {W A : Type 0} (adapt : Datagrams W A) (config : A → FdAdapterConfig) (draw : W → W × ℕ)
    → CountsReads adapt
    → CountsReads (lossy adapt config draw)
unfolding read_lossy
lossy-CountsReads {W} {A} adapt config draw counts a b w v seg h =
    let ((c, (u, ret)), e, r) = bind-eq-some (adapt.read a w) _ _ h in
    let same : b ≡ c = ap (λ (x : A × (W × Option TcpSegment)). x.0) (sym (some-injective r)) in
    ap (λ (x : A). (adapt.descriptor x).read_count) same ∙ counts a c w u ret e

-- Serving a rule of a socket over the adapter is its callback.
abbrev pub IsCalm : {W A : Type 0} → Kernel W → Datagrams W A → Type 0
IsCalm {W} {A} k adapt =
    (s : SpongeSocket W A) → All (λ rule. serve rule s ≡ rule.callback s) (rules k adapt)

-- For the five adapters that the sponge socket is made for, over UDP, over a TUN device and over a TAP
-- device, and the first two with losses, the event loop's test never finds a busy wait in one of the four
-- rules of a socket: serving it is its callback, whatever state the socket is in.
pub devices-IsCalm :
    {W : Type 0} (k : Kernel W) (u : UdpKernel W) (through_text : ℕ → ℕ)
    (past_end : NetworkInterface → ℕ) (draw : W → W × ℕ)
    → let config : Device FdAdapter → FdAdapterConfig = λ a. a.adapter.cfg in
      IsCalm k (udp_adapter u)
      × IsCalm k (tun_adapter k through_text)
      × IsCalm k (tap_adapter k through_text past_end)
      × IsCalm k (lossy (udp_adapter u) config draw)
      × IsCalm k (lossy (tun_adapter k through_text) config draw)
devices-IsCalm k u through_text past_end draw =
    let config : Device FdAdapter → FdAdapterConfig = λ a. a.adapter.cfg in
    let udp = udp-CountsReads u in
    let tun = tun-CountsReads k through_text in
    (
      rules-calm k (udp_adapter u) udp,
      rules-calm k (tun_adapter k through_text) tun,
      rules-calm k (tap_adapter k through_text past_end) (tap-CountsReads k through_text past_end),
      rules-calm k (lossy (udp_adapter u) config draw)
          (lossy-CountsReads (udp_adapter u) config draw udp),
      rules-calm k (lossy (tun_adapter k through_text) config draw)
          (lossy-CountsReads (tun_adapter k through_text) config draw tun),
    )
