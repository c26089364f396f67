-- ===== src/Tests/Posting.antt =====
-- Two segments that a sponge socket sends over UDP (libsponge/tcp_helpers), at concrete inputs.
use csed353_tcp.Prelude.{
  ◌≡◌, refl, false, true, none, some, List, [], ◌∷◌, ◌++◌, map, arith, length, Option,
}
use csed353_tcp.Adapter.{Address, FdAdapter, new_adapter, same_address, udp_read}
use csed353_tcp.Adapter.Wrapped.{IsAddress}
use csed353_tcp.Buffer.{of_string}
use csed353_tcp.Connection
use csed353_tcp.Connection.{TcpConnection}
use csed353_tcp.Descriptor.{Kernel, open_fd}
use csed353_tcp.Descriptor.Documented.{shown}
use csed353_tcp.Segment.{TcpSegment, empty_header}
use csed353_tcp.Sockets.{UdpKernel}
use csed353_tcp.SpongeSocket.{SpongeSocket, send_datagrams}
use csed353_tcp.SpongeSocket.Devices.{Device, udp_adapter}
use csed353_tcp.SpongeSocket.Devices.Sending.{
  Packet, IsDatagram, IsUdp, stamped, send_datagrams-arrives,
}

-- The world is what has been posted.
abbrev Posted : Type 0
Posted = List Packet

abbrev still : Kernel Posted
still = record {
  read = λ w fd n. none;
  writev = λ w fd vs. none;
  shutdown = λ w fd how. none;
  close = λ w fd. none;
  timestamp_ms = λ w. (w, 0);
}

abbrev connected : Address
connected = record { ipv4_numeric = 9; port = 9 }

abbrev post : UdpKernel Posted
post = record {
  recvfrom = λ w fd room. none;
  sendmsg = λ w fd to vs.
      (let destination : Address = elim to [ none ↦ connected | some x ↦ x ] in
        some (w ++ (destination, shown vs) ∷ [], length (shown vs)));
}

post-IsDatagram : IsDatagram post (λ w. w)
post-IsDatagram = record {
  sendmsg_sends = λ w fd destination vs h. (w ++ (destination, shown vs) ∷ [], refl, refl);
}

abbrev here : Address
here = record { ipv4_numeric = 1; port = 80 }

abbrev there : Address
there = record { ipv4_numeric = 2; port = 81 }

here-IsAddress : IsAddress here
here-IsAddress = record { ip_word = omega arith; port_word = omega arith }

there-IsAddress : IsAddress there
there-IsAddress = record { ip_word = omega arith; port_word = omega arith }

abbrev adapter : FdAdapter
adapter = record new_adapter {
  cfg = record (new_adapter.cfg) { source = here; destination = there };
}

abbrev peer : FdAdapter
peer = record new_adapter { cfg = record (new_adapter.cfg) { source = there; destination = here } }

-- A SYN, and an acknowledgment with two bytes.
abbrev syn : TcpSegment
syn = record { header = record empty_header { syn = true }; payload = [] }

abbrev data_segment : TcpSegment
data_segment = record {
  header = record empty_header { ack = true; seqno = record { raw_value = 1 }; win = 9 };
  payload = 7 ∷ 8 ∷ [];
}

syn-IsUdp : IsUdp syn
syn-IsUdp = record {
  carried = record {
    header_ok = record {
      sport_word = omega arith;
      dport_word = omega arith;
      seqno_word = omega arith;
      ackno_word = omega arith;
      long = omega arith;
      doff_nibble = omega arith;
      win_word = omega arith;
      cksum_word = omega arith;
      uptr_word = omega arith;
    };
    bytes = ground arith;
    size = omega arith;
  };
  size = omega arith;
}

data_segment-IsUdp : IsUdp data_segment
data_segment-IsUdp = record {
  carried = record {
    header_ok = record {
      sport_word = omega arith;
      dport_word = omega arith;
      seqno_word = omega arith;
      ackno_word = omega arith;
      long = omega arith;
      doff_nibble = omega arith;
      win_word = omega arith;
      cksum_word = omega arith;
      uptr_word = omega arith;
    };
    bytes = ground arith;
    size = omega arith;
  };
  size = omega arith;
}

abbrev socket : SpongeSocket Posted (Device FdAdapter)
socket = record {
  world = [];
  thread_data = open_fd 5;
  datagram_adapter = record { adapter = adapter; descriptor = open_fd 6 };
  tcp =
      record (Connection.init
        (record {
          rt_timeout = 1000;
          recv_capacity = 4;
          send_capacity = 4;
          fixed_isn = some (record { raw_value = 7 });
        })
        0) { segments_out = syn ∷ data_segment ∷ [] };
  inbound_shutdown = false;
  outbound_shutdown = false;
  fully_acked = false;
}

known : same_address here peer.cfg.destination ≡ true
unfolding same_address
known = refl

send_datagrams-arrives_example :
    (t : SpongeSocket Posted (Device FdAdapter)) × (ps : List Packet) × (send_datagrams still
        (udp_adapter post)
        socket
      ≡ some t)
    × (t.tcp ≡ record (socket.tcp) { segments_out = [] })
    × (t.world ≡ ps)
    × (map {B = Address × (FdAdapter × Option TcpSegment)}
          (λ (p : Packet). (p.0, udp_read peer here (of_string p.1)))
          ps
        ≡ (there, (peer, some (stamped adapter syn)))
          ∷ (there, (peer, some (stamped adapter data_segment)))
          ∷ [])
send_datagrams-arrives_example =
    send_datagrams-arrives still post (λ w. w) post-IsDatagram peer here refl known socket
      here-IsAddress there-IsAddress (syn-IsUdp, (data_segment-IsUdp, tt))
