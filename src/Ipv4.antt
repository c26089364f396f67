-- ===== src/Ipv4.antt =====
-- libsponge/tcp_helpers/ipv4_header.hh, ipv4_header.cc, ipv4_datagram.hh and ipv4_datagram.cc. The parts
-- of a byte or of a word do not overlap, so `|` is a sum. `to_string` and `summary` are left out.
pub mod Fields
pub mod RoundTrip
use csed353_tcp.Prelude.{
  ℕ, ◌+◌, ◌-◌, ◌*◌, ◌/◌, ◌%◌, Bool, true, false, not, Option, none, some, [], ◌∷◌, ltb, ◌==◌,
  if◌then◌else◌, Bytes, length, take, u16_mod, u32_mod, ◌||◌,
}
use csed353_tcp.Buffer.{Buffer, BufferList, str, of_string, append, list_size}
use csed353_tcp.Checksum
use csed353_tcp.Parser.{
  NetParser, parser_of, Parse, ◌>>=◌, pure, u8, u16, u32, remove_prefix, ParseResult, is_error,
}
use csed353_tcp.Parser.Unparser
use csed353_tcp.Parser.Unparser.{resize}

-- IPv4Header::LENGTH, DEFAULT_TTL and PROTO_TCP.
abbrev pub header_length : ℕ
header_length = 20

abbrev pub default_ttl : ℕ
default_ttl = 128

abbrev pub proto_tcp : ℕ
proto_tcp = 6

pub record Ipv4Header : Type 0 where
  pub ver : ℕ
  pub hlen : ℕ
  pub tos : ℕ
  pub len : ℕ
  pub id : ℕ
  pub df : Bool
  pub mf : Bool
  pub offset : ℕ
  pub ttl : ℕ
  pub proto : ℕ
  pub cksum : ℕ
  pub src : ℕ
  pub dst : ℕ

-- A default-constructed header.
abbrev pub new_header : Ipv4Header
new_header = record {
  ver = 4;
  hlen = 5;
  tos = 0;
  len = 0;
  id = 0;
  df = true;
  mf = false;
  offset = 0;
  ttl = default_ttl;
  proto = proto_tcp;
  cksum = 0;
  src = 0;
  dst = 0;
}

-- The first 20 bytes.
unfoldable pub read_fields : Parse Ipv4Header
read_fields = do
  first_byte ← u8
  tos ← u8
  len ← u16
  id ← u16
  fo_val ← u16
  ttl ← u8
  proto ← u8
  cksum ← u16
  src ← u32
  dst ← u32
  pure (record {
    ver = first_byte / 16;
    hlen = first_byte % 16;
    tos = tos;
    len = len;
    id = id;
    df = fo_val / 0x4000 % 2 == 1;
    mf = fo_val / 0x2000 % 2 == 1;
    offset = fo_val % 0x2000;
    ttl = ttl;
    proto = proto;
    cksum = cksum;
    src = src;
    dst = dst;
  })

-- The checksum of the header's bytes, of those that the parser began with.
unfoldable pub header_cksum : Bytes → ℕ → ℕ
header_cksum original n = Checksum.value (Checksum.add (Checksum.init 0) (take n original))

-- What follows the fields in IPv4Header::parse; `original` is what the parser began with.
unfoldable pub check_header : Bytes → Ipv4Header → NetParser → NetParser × Ipv4Header × ParseResult
check_header original h q =
    let r : NetParser = remove_prefix (h.hlen * 4 - header_length) q in
    if ltb (length original) (4 * h.hlen)
    then (q, h, ParseResult.packet_too_short)
    else if not (h.ver == 4)
    then (q, h, ParseResult.wrong_ip_version)
    else if ltb h.hlen 5
    then (q, h, ParseResult.header_too_short)
    else if not (length original == h.len)
    then (q, h, ParseResult.truncated_packet)
    else if is_error r.error
    then (r, h, r.error)
    else if not (header_cksum original (4 * h.hlen) == 0)
    then (r, h, ParseResult.bad_checksum)
    else (r, h, ParseResult.no_error)

-- IPv4Header::parse, on the header that is there before.
unfoldable pub parse_header : Ipv4Header → NetParser → NetParser × Ipv4Header × ParseResult
parse_header h₀ p =
    if ltb (length p.buffer) header_length
    then (p, h₀, ParseResult.packet_too_short)
    else (let (q, h) = read_fields p in check_header p.buffer h q)

unfoldable pub fo_val : Ipv4Header → ℕ
fo_val h = (if h.df then 0x4000 else 0) + (if h.mf then 0x2000 else 0) + h.offset % 0x2000

unfoldable pub write_fields : Ipv4Header → Bytes
write_fields h =
    let first : Bytes =
      Unparser.u16
        (Unparser.u16 (Unparser.u8 (Unparser.u8 [] ((h.ver * 16 + h.hlen % 16) % 256)) h.tos) h.len)
        h.id in
    let second : Bytes =
      Unparser.u16 (Unparser.u8 (Unparser.u8 (Unparser.u16 first (fo_val h)) h.ttl) h.proto)
        h.cksum in
    Unparser.u32 (Unparser.u32 second h.src) h.dst

-- IPv4Header::serialize; `none` is an exception.
unfoldable pub serialize_header : Ipv4Header → Option Bytes
serialize_header h =
    if not (h.ver == 4)
    then none
    else if ltb (4 * h.hlen) header_length
    then none
    else some (resize (write_fields h) (4 * h.hlen))

-- A `uint16_t`.
unfoldable pub payload_length : Ipv4Header → ℕ
payload_length h = (h.len + u16_mod - 4 * h.hlen) % u16_mod

unfoldable pub pseudo_cksum : Ipv4Header → ℕ
pseudo_cksum h =
    (h.src / u16_mod
      + h.src % u16_mod
      + (h.dst / u16_mod + h.dst % u16_mod)
      + h.proto
      + payload_length h)
    % u32_mod

-- class IPv4Datagram.
pub record Ipv4Datagram : Type 0 where
  pub header : Ipv4Header
  pub payload : BufferList

-- IPv4Datagram::parse on a new datagram.
unfoldable pub parse : Buffer → Ipv4Datagram × ParseResult
parse buffer =
    let (p, header, result) = parse_header new_header (parser_of (str buffer)) in
    let dgram : Ipv4Datagram = record { header = header; payload = of_string p.buffer ∷ [] } in
    if not (list_size dgram.payload == payload_length header)
    then (dgram, ParseResult.packet_too_short)
    else (dgram, p.error)

-- IPv4Datagram::serialize.
unfoldable pub serialize : Ipv4Datagram → Option BufferList
serialize dgram =
    let header_out : Ipv4Header = record (dgram.header) { cksum = 0 } in
    if not (list_size dgram.payload == payload_length dgram.header)
    then none
    else elim (serialize_header header_out) [
      | none ↦ none
      | some header_zero_checksum ↦
          let check : ℕ = Checksum.value (Checksum.add (Checksum.init 0) header_zero_checksum) in
          elim (serialize_header (record header_out { cksum = check })) [
            | none ↦ none
            | some out ↦ some (append (of_string out ∷ []) dgram.payload)
          ]
    ]
