-- ===== src/Sockets.antt =====
-- The datagram sockets of libsponge/util/socket.hh and socket.cc. The system calls are a record of functions
-- of the world's state, given as a parameter; `none` is an exception.
use csed353_tcp.Prelude.{ℕ, not, Option, none, some, ltb, ◌==◌, if◌then◌else◌, ◌>>=◌, Bytes, take}
use csed353_tcp.Adapter.{Address}
use csed353_tcp.Buffer.{BufferViewList, view_size_from}
use csed353_tcp.Descriptor.{FdWrapper, register_read, register_write}

-- `recvfrom` gives the length of the datagram, also if it is longer than the room for it, its source and
-- what is in the room; `sendmsg` the number of bytes that were sent.
pub record UdpKernel (W : Type 0) : Type 0 where
  pub recvfrom : W → ℕ → ℕ → Option (W × (ℕ × (Address × Bytes)))
  pub sendmsg : W → ℕ → Option Address → BufferViewList → Option (W × ℕ)

abbrev pub default_mtu : ℕ
default_mtu = 65536

-- UDPSocket::received_datagram.
pub record ReceivedDatagram : Type 0 where
  pub source_address : Address
  pub payload : Bytes

module _ {W : Type 0} (k : UdpKernel W) where
  -- UDPSocket::recv.
  unfoldable pub recv : FdWrapper → W → ℕ → Option (FdWrapper × (W × ReceivedDatagram))
  recv d w mtu = k.recvfrom w d.fd mtu >>= λ (v, (recv_len, (source, room))).
      if ltb mtu recv_len
      then none
      else some
          (register_read d, (v, record { source_address = source; payload = take recv_len room }))

  unfoldable pub sendmsg_helper : W → ℕ → Option Address → BufferViewList → Option W
  sendmsg_helper w fd_num destination_address payload =
      k.sendmsg w fd_num destination_address payload >>= λ (v, bytes_sent).
      if not (bytes_sent == view_size_from payload 0) then none else some v

  unfoldable pub sendto : FdWrapper → W → Address → BufferViewList → Option (FdWrapper × W)
  unfolding sendmsg_helper
  sendto d w destination payload =
      sendmsg_helper w d.fd (some destination) payload >>= λ v. some (register_write d, v)

  -- UDPSocket::send, to the address that the socket is connected to.
  unfoldable pub send : FdWrapper → W → BufferViewList → Option (FdWrapper × W)
  unfolding sendmsg_helper
  send d w payload = sendmsg_helper w d.fd none payload >>= λ v. some (register_write d, v)
