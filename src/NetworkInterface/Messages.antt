-- ===== src/NetworkInterface/Messages.antt =====
-- The requests and replies of libsponge/network_interface.cc, written and taken.
use csed353_tcp.Prelude.{
  ℕ, ◌<◌, ◌≡◌, refl, false, not, ◌&&◌, some, none, [], ◌∷◌, arith, Bytes, u32_mod, ◌>>=◌,
}
use csed353_tcp.Arp
use csed353_tcp.Arp.{ArpMessage, supported}
use csed353_tcp.Arp.RoundTrip.{IsMessage}
use csed353_tcp.Buffer.{of_string, to_buffer}
use csed353_tcp.Ethernet.{EthernetAddress, ethernet_broadcast, same_address, type_arp, zero_address}
use csed353_tcp.Ethernet.RoundTrip.{IsArray}
use csed353_tcp.Parser.ParseResult.{no_error}
use csed353_tcp.NetworkInterface.{
  NetworkInterface, frame_of, request_message, reply_message, take_message, recv_frame,
}
use csed353_tcp.NetworkInterface.Delivery.{IsInterface}

zero_address-IsArray : IsArray 6 zero_address
zero_address-IsArray = record { size = refl; small = ground arith }

pub ethernet_broadcast-IsArray : IsArray 6 ethernet_broadcast
ethernet_broadcast-IsArray = record { size = refl; small = ground arith }

-- Both messages can be written and read.
pub request_message-IsMessage :
    (n : NetworkInterface) (ip : ℕ)
    → IsInterface n
    → ip < u32_mod
    → IsMessage (request_message n ip)
unfolding request_message
request_message-IsMessage n ip v small = record {
  hardware_type_word = omega arith;
  protocol_type_word = omega arith;
  hardware_size_byte = omega arith;
  protocol_size_byte = omega arith;
  opcode_word = omega arith;
  sender_array = v.ethernet_array;
  sender_word = v.ip_word;
  target_array = zero_address-IsArray;
  target_word = small;
}

pub reply_message-IsMessage :
    (n r : NetworkInterface) (ip : ℕ)
    → IsInterface n
    → IsInterface r
    → IsMessage (reply_message r (request_message n ip))
unfolding request_message reply_message
reply_message-IsMessage n r ip v w = record {
  hardware_type_word = omega arith;
  protocol_type_word = omega arith;
  hardware_size_byte = omega arith;
  protocol_size_byte = omega arith;
  opcode_word = omega arith;
  sender_array = w.ethernet_array;
  sender_word = w.ip_word;
  target_array = v.ethernet_array;
  target_word = v.ip_word;
}

-- A message that comes in a frame for the interface is taken.
pub recv_frame-message :
    (n : NetworkInterface) (src dst : EthernetAddress) (msg : ArpMessage) (bytes : Bytes)
    → (not (same_address dst ethernet_broadcast) && not (same_address dst n.ethernet_address))
      ≡ false
    → Arp.parse Arp.new_message (of_string bytes) ≡ (msg, no_error)
    → recv_frame n (frame_of src dst type_arp (of_string bytes ∷ []))
      ≡ (take_message n msg src >>= λ m. some (m, none))
unfolding recv_frame to_buffer
recv_frame-message n src dst msg bytes us read = rw (us, read) refl
