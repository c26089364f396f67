-- ===== src/Arp/RoundTrip.antt =====
-- ARP messages (libsponge/tcp_helpers/arp_message.cc), written and read.
use csed353_tcp.Prelude.{
  ◌+◌, ◌<◌, ◌≡◌, refl, ◌∙◌, true, false, some, [], ◌++◌, arith, length, Bytes, u16_mod, u32_mod,
  append_assoc, append-nil, length-append, ltb,
}
use csed353_tcp.Arp.{
  ArpMessage, supported, read_types, read_addresses, parse, serialize, message_length,
}
use csed353_tcp.Buffer.{of_string, str}
use csed353_tcp.Ethernet.RoundTrip.{IsArray, read_array, write_bytes_lem}
use csed353_tcp.Parser.{parser_of}
use csed353_tcp.Parser.ParseResult.{no_error}
use csed353_tcp.Parser.Ints.{
  bytes8, bytes16, bytes32, unparse_u8, unparse_u16, unparse_u32, u8_bytes, u16_bytes, u32_bytes,
  length-bytes8, length-bytes16, length-bytes32,
}

-- The fields of the message fit their types.
pub record IsMessage (m : ArpMessage) : Type 0 where
  pub hardware_type_word : m.hardware_type < u16_mod
  pub protocol_type_word : m.protocol_type < u16_mod
  pub hardware_size_byte : m.hardware_address_size < 256
  pub protocol_size_byte : m.protocol_address_size < 256
  pub opcode_word : m.opcode < u16_mod
  pub sender_array : IsArray 6 m.sender_ethernet_address
  pub sender_word : m.sender_ip_address < u32_mod
  pub target_array : IsArray 6 m.target_ethernet_address
  pub target_word : m.target_ip_address < u32_mod

-- The bytes of the addresses, and of the whole message.
abbrev addresses : ArpMessage → Bytes → Bytes
addresses m rest =
    m.sender_ethernet_address
    ++ (bytes32 m.sender_ip_address
        ++ (m.target_ethernet_address ++ (bytes32 m.target_ip_address ++ rest)))

abbrev message : ArpMessage → Bytes → Bytes
message m rest =
    bytes16 m.hardware_type
    ++ (bytes16 m.protocol_type
        ++ (bytes8 m.hardware_address_size
            ++ (bytes8 m.protocol_address_size ++ (bytes16 m.opcode ++ addresses m rest))))

serialize-message :
    (m : ArpMessage) → IsMessage m → supported m ≡ true → serialize m ≡ some (message m [])
unfolding serialize
serialize-message m v h = simp (
  h, unparse_u8, unparse_u16, unparse_u32, write_bytes_lem, append_assoc, append-nil,
  v.sender_array.small, v.target_array.small,
)

-- A message with the types of another one.
abbrev typed : ArpMessage → ArpMessage → ArpMessage
typed m₀ m = record m₀ {
  hardware_type = m.hardware_type;
  protocol_type = m.protocol_type;
  hardware_address_size = m.hardware_address_size;
  protocol_address_size = m.protocol_address_size;
  opcode = m.opcode;
}

supported-typed : (m₀ m : ArpMessage) → supported (typed m₀ m) ≡ supported m
unfolding supported
supported-typed m₀ m = refl

read_types_lem :
    (m m₀ : ArpMessage) (rest : Bytes)
    → IsMessage m
    → read_types m₀ (parser_of (message m rest)) ≡ (parser_of (addresses m rest), typed m₀ m)
unfolding read_types
read_types_lem m m₀ rest v = simp (
  u16_bytes, u8_bytes, v.hardware_type_word, v.protocol_type_word, v.hardware_size_byte,
  v.protocol_size_byte, v.opcode_word,
)

read_addresses_lem :
    (m m₀ : ArpMessage) (rest : Bytes)
    → IsMessage m
    → read_addresses m₀ (parser_of (addresses m rest)) ≡ (
      parser_of rest,
      record m₀ {
        sender_ethernet_address = m.sender_ethernet_address;
        sender_ip_address = m.sender_ip_address;
        target_ethernet_address = m.target_ethernet_address;
        target_ip_address = m.target_ip_address;
      },
    )
unfolding read_addresses
read_addresses_lem m m₀ rest v =
    simp (read_array 6, u32_bytes, v.sender_array, v.sender_word, v.target_array, v.target_word)

message_rest : (m : ArpMessage) (rest : Bytes) → message m [] ++ rest ≡ message m rest
message_rest m rest = simp append_assoc

length-message :
    (m : ArpMessage) (rest : Bytes) → IsMessage m → length (message m rest) ≡ 28 + length rest
length-message m rest v =
    simp
      (
        length-append, length-bytes8, length-bytes16, length-bytes32, v.sender_array.size,
        v.target_array.size,
      )
      (omega arith)

-- A supported message whose fields fit their types is written, and read back from a buffer that begins
-- with what was written, whatever follows in the buffer and whatever the message held before.
pub parse-serialize_arp :
    (m m₀ : ArpMessage) (rest : Bytes)
    → IsMessage m
    → supported m ≡ true
    → (bytes : Bytes) × (serialize m ≡ some bytes)
      × (parse m₀ (of_string (bytes ++ rest)) ≡ (m, no_error))
unfolding parse str
parse-serialize_arp m m₀ rest v h =
    let small : ltb (length (message m rest)) message_length ≡ false =
      ground (arith, length-message m rest v) in
    let ok : supported (typed m₀ m) ≡ true = supported-typed m₀ m ∙ h in
    (
      message m [],
      serialize-message m v h,
      rw
          (
            message_rest m rest,
            small,
            read_types_lem m m₀ rest v,
            ok,
            read_addresses_lem m (typed m₀ m) rest v,
          )
          refl,
    )
