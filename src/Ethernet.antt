-- ===== src/Ethernet.antt =====
-- libsponge/tcp_helpers/ethernet_header.hh, ethernet_header.cc, ethernet_frame.hh and
-- ethernet_frame.cc. An address, an array of six bytes, is the list of them. `to_string` is left out.
pub mod RoundTrip
use csed353_tcp.Prelude.{
  ℕ, zero, suc, Bool, true, false, ◌&&◌, List, [], ◌∷◌, ltb, ◌==◌, if◌then◌else◌, Bytes, length,
}
use csed353_tcp.Buffer.{BufferList, Buffer, str, of_string, append}
use csed353_tcp.Parser.{NetParser, parser_of, Parse, ◌>>=◌, pure, u8, u16, ParseResult}
use csed353_tcp.Parser.Unparser

abbrev pub EthernetAddress : Type 0
EthernetAddress = Bytes

abbrev pub ethernet_broadcast : EthernetAddress
ethernet_broadcast = 0xff ∷ 0xff ∷ 0xff ∷ 0xff ∷ 0xff ∷ 0xff ∷ []

abbrev pub zero_address : EthernetAddress
zero_address = 0 ∷ 0 ∷ 0 ∷ 0 ∷ 0 ∷ 0 ∷ []

-- `operator==` of two arrays.
unfoldable pub same_address : EthernetAddress → EthernetAddress → Bool
same_address [] [] = true
same_address [] (y ∷ ys) = false
same_address (x ∷ xs) [] = false
same_address (x ∷ xs) (y ∷ ys) = x == y && same_address xs ys

-- The loops over the bytes of an address.
unfoldable pub read_bytes : ℕ → Parse Bytes
read_bytes zero = pure []
read_bytes (suc n) = do byte ← u8; bytes ← read_bytes n; pure (byte ∷ bytes)

unfoldable pub write_bytes : Bytes → Bytes → Bytes
write_bytes s [] = s
write_bytes s (byte ∷ bytes) = write_bytes (Unparser.u8 s byte) bytes

-- EthernetHeader::LENGTH, TYPE_IPv4 and TYPE_ARP.
abbrev pub header_length : ℕ
header_length = 14

abbrev pub type_ipv4 : ℕ
type_ipv4 = 0x800

abbrev pub type_arp : ℕ
type_arp = 0x806

pub record EthernetHeader : Type 0 where
  pub dst : EthernetAddress
  pub src : EthernetAddress
  pub type : ℕ

-- The header of a new frame.
abbrev pub zero_header : EthernetHeader
zero_header = record { dst = zero_address; src = zero_address; type = 0 }

unfoldable pub read_header : Parse EthernetHeader
read_header = do
  dst ← read_bytes 6
  src ← read_bytes 6
  type ← u16
  pure (record { dst = dst; src = src; type = type })

-- EthernetHeader::parse, on the header that is there before.
unfoldable pub parse_header : EthernetHeader → NetParser → NetParser × EthernetHeader × ParseResult
parse_header h p =
    if ltb (length p.buffer) header_length
    then (p, h, ParseResult.packet_too_short)
    else (let (q, header) = read_header p in (q, header, q.error))

unfoldable pub serialize_header : EthernetHeader → Bytes
serialize_header h = Unparser.u16 (write_bytes (write_bytes [] h.dst) h.src) h.type

-- class EthernetFrame.
pub record EthernetFrame : Type 0 where
  pub header : EthernetHeader
  pub payload : BufferList

unfoldable pub parse : Buffer → EthernetFrame × ParseResult
parse buffer =
    let (p, header, result) = parse_header zero_header (parser_of (str buffer)) in
    (record { header = header; payload = of_string p.buffer ∷ [] }, p.error)

unfoldable pub serialize : EthernetFrame → BufferList
serialize frame = append (of_string (serialize_header frame.header) ∷ []) frame.payload
