-- ===== src/SpongeSocket/Devices.antt =====
-- The adapters that libsponge/tcp_helpers/tcp_sponge_socket.cc is made for, as it uses them: those of
-- fd_adapter.cc, tuntap_adapter.hh, tuntap_adapter.cc and lossy_fd_adapter.hh, joined to their socket or device.
-- What an Ethernet interface reads past the end of its requests is the function `past_end` of it, and
-- `draw` is the random generator.
pub mod Calm
pub mod Sending
use csed353_tcp.Prelude.{
  ℕ, Bool, true, false, Option, none, some, List, [], ◌∷◌, ◌==◌, if◌then◌else◌, ◌>>=◌, Bytes, ◌-◌,
  ◌^◌,
}
use csed353_tcp.Adapter.{
  FdAdapter, FdAdapterConfig, Address, tun_read, tun_write, udp_read, udp_write, set_listening,
  lossy_read, should_drop,
}
use csed353_tcp.Adapter.Tap
use csed353_tcp.Adapter.Tap.{TapAdapter}
use csed353_tcp.Buffer.{BufferList, of_string, views}
use csed353_tcp.Descriptor
use csed353_tcp.Descriptor.{Kernel, FdWrapper}
use csed353_tcp.NetworkInterface.{NetworkInterface}
use csed353_tcp.Segment.{TcpSegment}
use csed353_tcp.Sockets.{UdpKernel, recv, sendto, default_mtu}
use csed353_tcp.SpongeSocket.{Datagrams}

-- An adapter and the descriptor that it reads and writes.
pub record Device (B : Type 0) : Type 0 where
  pub adapter : B
  pub descriptor : FdWrapper

-- The default limit of a read.
abbrev pub no_limit : ℕ
no_limit = 2 ^ 64 - 1

abbrev pub configure_base : Device FdAdapter → FdAdapterConfig → Device FdAdapter
configure_base a cfg = record a { adapter = record (a.adapter) { cfg = cfg } }

abbrev pub listen_base : Device FdAdapter → Bool → Device FdAdapter
listen_base a l = record a { adapter = set_listening a.adapter l }

module _ {W : Type 0} where
  -- `tick` of FdAdapterBase.
  abbrev pub idle : {A : Type 0} → A → W → ℕ → Option (A × W)
  idle a w ms = some (a, w)

  -- TCPOverUDPSocketAdapter.
  unfoldable pub read_udp :
      UdpKernel W → Device FdAdapter → W → Option (Device FdAdapter × (W × Option TcpSegment))
  read_udp k a w = recv k a.descriptor w default_mtu >>= λ (d, (v, datagram)).
      let (adapter, seg) =
        udp_read a.adapter datagram.source_address (of_string datagram.payload) in
      some (record { adapter = adapter; descriptor = d }, (v, seg))

  unfoldable pub write_udp :
      UdpKernel W → Device FdAdapter → W → TcpSegment → Option (Device FdAdapter × W)
  write_udp k a w seg = udp_write a.adapter seg >>= λ (destination, payload, left).
      sendto k a.descriptor w destination (views payload) >>= λ (d, v).
      some (record a { descriptor = d }, v)

  -- TCPOverIPv4OverTunFdAdapter.
  unfoldable pub read_tun :
      Kernel W
      → (ℕ → ℕ)
      → Device FdAdapter
      → W
      → Option (Device FdAdapter × (W × Option TcpSegment))
  read_tun k through_text a w = Descriptor.read k a.descriptor w no_limit >>= λ (d, (v, bytes)).
      tun_read through_text a.adapter bytes >>= λ (adapter, seg).
      some (record { adapter = adapter; descriptor = d }, (v, seg))

  unfoldable pub write_tun :
      Kernel W → Device FdAdapter → W → TcpSegment → Option (Device FdAdapter × W)
  write_tun k a w seg = tun_write a.adapter seg >>= λ (datagram, left).
      Descriptor.write k a.descriptor w (views datagram) true >>= λ (d, (v, n)).
      some (record a { descriptor = d }, v)

  -- TCPOverIPv4OverEthernetAdapter. The frames that its interface has queued go out one by one.
  unfoldable pub write_frames : Kernel W → FdWrapper → W → List BufferList → Option (FdWrapper × W)
  write_frames k d w [] = some (d, w)
  write_frames k d w (frame ∷ frames) =
      Descriptor.write k d w (views frame) true >>= λ (e, (v, n)). write_frames k e v frames

  unfoldable pub read_tap :
      Kernel W
      → (ℕ → ℕ)
      → Device TapAdapter
      → W
      → Option (Device TapAdapter × (W × Option TcpSegment))
  unfolding write_frames
  read_tap k through_text a w = Descriptor.read k a.descriptor w no_limit >>= λ (d, (v, bytes)).
      Tap.read through_text a.adapter bytes >>= λ (adapter, (seg, frames)).
      write_frames k d v frames >>= λ (e, u).
      some (record { adapter = adapter; descriptor = e }, (u, seg))

  unfoldable pub write_tap :
      Kernel W
      → (NetworkInterface → ℕ)
      → Device TapAdapter
      → W
      → TcpSegment
      → Option (Device TapAdapter × W)
  unfolding write_frames
  write_tap k past_end a w seg =
      Tap.write (past_end a.adapter.interface) a.adapter seg >>= λ (adapter, (left, frames)).
      write_frames k a.descriptor w frames >>= λ (e, v).
      some (record { adapter = adapter; descriptor = e }, v)

  unfoldable pub tick_tap : Kernel W → Device TapAdapter → W → ℕ → Option (Device TapAdapter × W)
  unfolding write_frames
  tick_tap k a w ms =
      let (adapter, frames) = Tap.tick a.adapter ms in
      write_frames k a.descriptor w frames >>= λ (e, v).
      some (record { adapter = adapter; descriptor = e }, v)

  abbrev pub udp_adapter : UdpKernel W → Datagrams W (Device FdAdapter)
  udp_adapter k = record {
    descriptor = λ a. a.descriptor;
    read = read_udp k;
    write = write_udp k;
    tick = idle;
    configure = configure_base;
    set_listening = listen_base;
  }

  abbrev pub tun_adapter : Kernel W → (ℕ → ℕ) → Datagrams W (Device FdAdapter)
  tun_adapter k through_text = record {
    descriptor = λ a. a.descriptor;
    read = read_tun k through_text;
    write = write_tun k;
    tick = idle;
    configure = configure_base;
    set_listening = listen_base;
  }

  abbrev pub tap_adapter :
      Kernel W → (ℕ → ℕ) → (NetworkInterface → ℕ) → Datagrams W (Device TapAdapter)
  tap_adapter k through_text past_end = record {
    descriptor = λ a. a.descriptor;
    read = read_tap k through_text;
    write = write_tap k past_end;
    tick = tick_tap k;
    configure = λ a cfg. record a {
      adapter = record (a.adapter) { base = record (a.adapter.base) { cfg = cfg } };
    };
    set_listening =
        λ a l. record a { adapter = record (a.adapter) { base = set_listening a.adapter.base l } };
  }

-- LossyFdAdapter, over any adapter with a configuration. A number is drawn only if there is a loss.
module _ {W A : Type 0} (adapt : Datagrams W A) (config : A → FdAdapterConfig)
    (draw : W → W × ℕ) where
  abbrev pub drawn : ℕ → W → W × ℕ
  drawn loss w = if loss == 0 then (w, 0) else draw w

  unfoldable pub read_lossy : A → W → Option (A × (W × Option TcpSegment))
  read_lossy a w = adapt.read a w >>= λ (b, (v, ret)).
      let (u, n) = drawn (config b).loss_rate_dn v in some (b, (u, lossy_read (config b) n ret))

  unfoldable pub write_lossy : A → W → TcpSegment → Option (A × W)
  write_lossy a w seg =
      let (v, n) = drawn (config a).loss_rate_up w in
      if should_drop (config a) n true then some (a, v) else adapt.write a v seg

  abbrev pub lossy : Datagrams W A
  lossy = record (adapt) { read = read_lossy; write = write_lossy }
