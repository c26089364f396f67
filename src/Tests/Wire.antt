-- ===== src/Tests/Wire.antt =====
-- Buffers, checksums and headers (libsponge/util and libsponge/tcp_helpers) at concrete inputs.
use csed353_tcp.Prelude.{
  ◌+◌, ◌*◌, ◌<◌, ◌≡◌, ◌↔◌, refl, true, false, not, some, [], ◌∷◌, ◌++◌, arith, length, ◌==◌, Bytes,
  if◌then◌else◌, ◌%◌,
}
use csed353_tcp.Arp
use csed353_tcp.Arp.{ArpMessage}
use csed353_tcp.Arp.RoundTrip as ArpRoundTrip
use csed353_tcp.Buffer.{BufferList, of_string, concatenate, str, list_remove_prefix}
use csed353_tcp.Buffer.Views.{AllValid, Left, list_remove_prefix-Left}
use csed353_tcp.Checksum.{InternetChecksum, value}
use csed353_tcp.Checksum.Sums.{value-zero_iff}
use csed353_tcp.Ethernet.RoundTrip.{IsArray}
use csed353_tcp.Ipv4
use csed353_tcp.Ipv4.{Ipv4Header, Ipv4Datagram}
use csed353_tcp.Ipv4.Fields as IpFields
use csed353_tcp.Ipv4.RoundTrip as IpRoundTrip
use csed353_tcp.Parser.{parser_of}
use csed353_tcp.Parser.ParseResult.{no_error, bad_checksum}
use csed353_tcp.Segment.{TcpSegment, empty_header}
use csed353_tcp.Segment.RoundTrip.{IsHeader}
use csed353_tcp.Segment.Wire
use csed353_tcp.Segment.Checksummed.{Fits, with_cksum, cksum_of, parse-serialize_segment}

-- Two buffers, of which a prefix of three bytes takes the first.
abbrev buffers : BufferList
buffers = of_string (1 ∷ 2 ∷ []) ∷ of_string (3 ∷ 4 ∷ 5 ∷ []) ∷ []

buffers-AllValid : AllValid buffers
buffers-AllValid = ground arith

list_remove_prefix-Left_example : Left buffers 3 (list_remove_prefix buffers 3)
list_remove_prefix-Left_example = list_remove_prefix-Left buffers 3 buffers-AllValid

abbrev full : InternetChecksum
full = record { sum = 0x1fffe; parity = false }

value-zero_iff_example : (value full ≡ 0) ↔ ((0 < full.sum) × (full.sum % 0xffff ≡ 0))
value-zero_iff_example = value-zero_iff full (omega arith)

-- A segment with a SYN and three bytes.
abbrev segment : TcpSegment
segment = record {
  header = record empty_header { sport = 80; dport = 81; syn = true; win = 1000 };
  payload = 7 ∷ 8 ∷ 9 ∷ [];
}

segment-IsHeader : IsHeader segment.header
segment-IsHeader = record {
  sport_word = omega arith;
  dport_word = omega arith;
  seqno_word = omega arith;
  ackno_word = omega arith;
  long = omega arith;
  doff_nibble = omega arith;
  win_word = omega arith;
  cksum_word = omega arith;
  uptr_word = omega arith;
}

segment-Fits : Fits segment.payload 6
segment-Fits = record { small = ground arith; short = omega arith; pseudo = omega arith }

parse-serialize_segment_example :
    (bs : BufferList) × (Wire.serialize segment 6 ≡ some bs)
    × (length (concatenate bs) ≡ 4 * segment.header.doff + length segment.payload)
    × (Wire.parse (of_string (concatenate bs)) 6
        ≡ (record segment { header = with_cksum segment.header (cksum_of segment 6) }, no_error))
parse-serialize_segment_example = parse-serialize_segment segment 6 segment-IsHeader segment-Fits

-- A header for two bytes, with a checksum that does not check.
abbrev ip_header : Ipv4Header
ip_header = record Ipv4.new_header { len = 22; src = 10; dst = 20; cksum = 1 }

ip_header-IsHeader : IpFields.IsHeader ip_header
ip_header-IsHeader = record {
  version = refl;
  long = omega arith;
  hlen_nibble = omega arith;
  tos_byte = omega arith;
  len_word = omega arith;
  id_word = omega arith;
  offset_small = omega arith;
  ttl_byte = omega arith;
  proto_byte = omega arith;
  cksum_word = omega arith;
  src_word = omega arith;
  dst_word = omega arith;
}

abbrev dgram : Ipv4Datagram
dgram = record { header = ip_header; payload = of_string (1 ∷ 2 ∷ []) ∷ [] }

parse-serialize_datagram_example :
    (bs : BufferList) × (Ipv4.serialize dgram ≡ some bs)
    × (Ipv4.parse (of_string (concatenate bs)) ≡ (
      record {
        header = IpRoundTrip.with_cksum ip_header (IpRoundTrip.cksum_of ip_header);
        payload = of_string (concatenate dgram.payload) ∷ [];
      },
      no_error,
    ))
    × ((Ipv4.parse_header Ipv4.new_header (parser_of (concatenate bs))).2 ≡ no_error)
unfolding concatenate str
parse-serialize_datagram_example =
    IpRoundTrip.parse-serialize_datagram dgram ip_header-IsHeader refl

parse_any_checksum_example :
    (Ipv4.parse (of_string (IpFields.fields ip_header (IpFields.pad ip_header) ++ 1 ∷ 2 ∷ []))
      ≡ (record { header = ip_header; payload = of_string (1 ∷ 2 ∷ []) ∷ [] }, no_error))
    × ((Ipv4.parse_header Ipv4.new_header
          (parser_of (IpFields.fields ip_header (IpFields.pad ip_header) ++ 1 ∷ 2 ∷ []))).2
        ≡ (if not (IpRoundTrip.cksum_left ip_header == 0) then bad_checksum else no_error))
parse_any_checksum_example =
    IpRoundTrip.parse_any_checksum ip_header (1 ∷ 2 ∷ []) ip_header-IsHeader refl

abbrev request : ArpMessage
request = record Arp.new_message { opcode = Arp.opcode_request; target_ip_address = 20 }

zero_address-IsArray : IsArray 6 request.sender_ethernet_address
zero_address-IsArray = record { size = refl; small = ground arith }

request-IsMessage : ArpRoundTrip.IsMessage request
request-IsMessage = record {
  hardware_type_word = omega arith;
  protocol_type_word = omega arith;
  hardware_size_byte = omega arith;
  protocol_size_byte = omega arith;
  opcode_word = omega arith;
  sender_array = zero_address-IsArray;
  sender_word = omega arith;
  target_array = zero_address-IsArray;
  target_word = omega arith;
}

parse-serialize_arp_example :
    (bytes : Bytes) × (Arp.serialize request ≡ some bytes)
    × (Arp.parse Arp.new_message (of_string (bytes ++ 0 ∷ [])) ≡ (request, no_error))
unfolding Arp.supported
parse-serialize_arp_example =
    ArpRoundTrip.parse-serialize_arp request Arp.new_message (0 ∷ []) request-IsMessage refl
