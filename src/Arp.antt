-- ===== src/Arp.antt =====
-- libsponge/tcp_helpers/arp_message.hh and arp_message.cc. `to_string` is left out.
pub mod RoundTrip
use csed353_tcp.Prelude.{
  ℕ, Bool, true, false, not, ◌&&◌, ◌||◌, Option, none, some, [], ltb, ◌==◌, if◌then◌else◌, Bytes,
  length,
}
use csed353_tcp.Buffer.{Buffer, str}
use csed353_tcp.Ethernet.{EthernetAddress, zero_address, read_bytes, write_bytes, type_ipv4}
use csed353_tcp.Parser.{NetParser, parser_of, Parse, ◌>>=◌, pure, u8, u16, u32, ParseResult}
use csed353_tcp.Parser.Unparser

-- ARPMessage::LENGTH, TYPE_ETHERNET, OPCODE_REQUEST and OPCODE_REPLY.
abbrev pub message_length : ℕ
message_length = 28

abbrev pub type_ethernet : ℕ
type_ethernet = 1

abbrev pub opcode_request : ℕ
opcode_request = 1

abbrev pub opcode_reply : ℕ
opcode_reply = 2

pub record ArpMessage : Type 0 where
  pub hardware_type : ℕ
  pub protocol_type : ℕ
  pub hardware_address_size : ℕ
  pub protocol_address_size : ℕ
  pub opcode : ℕ
  pub sender_ethernet_address : EthernetAddress
  pub sender_ip_address : ℕ
  pub target_ethernet_address : EthernetAddress
  pub target_ip_address : ℕ

-- The message that a default-constructed `ARPMessage` is.
abbrev pub new_message : ArpMessage
new_message = record {
  hardware_type = type_ethernet;
  protocol_type = type_ipv4;
  hardware_address_size = 6;
  protocol_address_size = 4;
  opcode = 0;
  sender_ethernet_address = zero_address;
  sender_ip_address = 0;
  target_ethernet_address = zero_address;
  target_ip_address = 0;
}

unfoldable pub supported : ArpMessage → Bool
supported m =
    m.hardware_type == type_ethernet
    && (m.protocol_type == type_ipv4)
    && (m.hardware_address_size == 6)
    && (m.protocol_address_size == 4)
    && ((m.opcode == opcode_request) || (m.opcode == opcode_reply))

-- The first five fields, onto a message.
unfoldable pub read_types : ArpMessage → Parse ArpMessage
read_types m = do
  hardware_type ← u16
  protocol_type ← u16
  hardware_address_size ← u8
  protocol_address_size ← u8
  opcode ← u16
  pure (record m {
    hardware_type = hardware_type;
    protocol_type = protocol_type;
    hardware_address_size = hardware_address_size;
    protocol_address_size = protocol_address_size;
    opcode = opcode;
  })

-- The sender's and the target's addresses, onto a message.
unfoldable pub read_addresses : ArpMessage → Parse ArpMessage
read_addresses m = do
  sender_ethernet_address ← read_bytes 6
  sender_ip_address ← u32
  target_ethernet_address ← read_bytes 6
  target_ip_address ← u32
  pure (record m {
    sender_ethernet_address = sender_ethernet_address;
    sender_ip_address = sender_ip_address;
    target_ethernet_address = target_ethernet_address;
    target_ip_address = target_ip_address;
  })

unfoldable pub parse : ArpMessage → Buffer → ArpMessage × ParseResult
parse m buffer =
    let p : NetParser = parser_of (str buffer) in
    if ltb (length p.buffer) message_length
    then (m, ParseResult.packet_too_short)
    else (let (q, typed) = read_types m p in
        if not (supported typed)
        then (typed, ParseResult.unsupported)
        else (let (r, message) = read_addresses typed q in (message, r.error)))

-- `none` is the exception for a message that is not supported.
unfoldable pub serialize : ArpMessage → Option Bytes
serialize m =
    let types : Bytes =
      Unparser.u16
        (Unparser.u8
          (Unparser.u8 (Unparser.u16 (Unparser.u16 [] m.hardware_type) m.protocol_type)
            m.hardware_address_size)
          m.protocol_address_size)
        m.opcode in
    let sender : Bytes =
      Unparser.u32 (write_bytes types m.sender_ethernet_address) m.sender_ip_address in
    let target : Bytes =
      Unparser.u32 (write_bytes sender m.target_ethernet_address) m.target_ip_address in
    if not (supported m) then none else some target
