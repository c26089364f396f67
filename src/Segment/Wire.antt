-- ===== src/Segment/Wire.antt =====
-- `parse` and `serialize` of libsponge/tcp_helpers/tcp_header.cc and tcp_segment.cc. The flag bits do not
-- overlap, so `|` is a sum; `x & 2 ^ k` is the bit `k` of `x`.
use csed353_tcp.Prelude.{
  ℕ, ◌+◌, ◌-◌, ◌*◌, ◌/◌, ◌%◌, Bool, true, false, not, ◌&&◌, Option, none, some, [], ◌∷◌, ltb, ◌==◌,
  if◌then◌else◌, Bytes,
}
use csed353_tcp.Buffer.{Buffer, BufferList, str, of_string, append}
use csed353_tcp.Checksum
use csed353_tcp.Parser.{
  NetParser, parser_of, Parse, ◌>>=◌, pure, u8, u16, u32, remove_prefix, ParseResult,
}
use csed353_tcp.Parser.Unparser
use csed353_tcp.Parser.Unparser.{resize}
use csed353_tcp.Segment.{TcpHeader, TcpSegment, empty_segment, header_length, flag}
use csed353_tcp.Wrapping.{eq}

-- A bit of a byte or of a word, by its weight.
abbrev pub bit : ℕ → ℕ → Bool
bit weight x = x / weight % 2 == 1

-- The first 20 bytes.
unfoldable pub read_fields : Parse TcpHeader
read_fields = do
  sport ← u16
  dport ← u16
  seqno ← u32
  ackno ← u32
  offset ← u8
  fl_b ← u8
  win ← u16
  cksum ← u16
  uptr ← u16
  pure (record {
    sport = sport;
    dport = dport;
    seqno = record { raw_value = seqno };
    ackno = record { raw_value = ackno };
    doff = offset / 16;
    urg = bit 32 fl_b;
    ack = bit 16 fl_b;
    psh = bit 8 fl_b;
    rst = bit 4 fl_b;
    syn = bit 2 fl_b;
    fin = bit 1 fl_b;
    win = win;
    cksum = cksum;
    uptr = uptr;
  })

-- TCPHeader::parse. Every field is set, so the header before does not matter.
unfoldable pub parse_header : NetParser → NetParser × TcpHeader × ParseResult
parse_header p =
    let (q, header) = read_fields p in
    if ltb header.doff 5
    then (q, header, ParseResult.header_too_short)
    else (let r : NetParser = remove_prefix (header.doff * 4 - header_length) q in
        (r, header, r.error))

unfoldable pub flag_byte : TcpHeader → ℕ
flag_byte h =
    32 * flag h.urg
    + 16 * flag h.ack
    + 8 * flag h.psh
    + 4 * flag h.rst
    + 2 * flag h.syn
    + flag h.fin

-- The fields, before the string gets the length that `doff` announces.
unfoldable pub write_fields : TcpHeader → Bytes
write_fields h =
    let numbers : Bytes =
      Unparser.u32 (Unparser.u32 (Unparser.u16 (Unparser.u16 [] h.sport) h.dport) h.seqno.raw_value)
        h.ackno.raw_value in
    let flags : Bytes = Unparser.u8 (Unparser.u8 numbers (h.doff * 16 % 256)) (flag_byte h) in
    Unparser.u16 (Unparser.u16 (Unparser.u16 flags h.win) h.cksum) h.uptr

-- TCPHeader::serialize; `none` is the exception for a header that is too short.
unfoldable pub serialize_header : TcpHeader → Option Bytes
serialize_header h = if ltb h.doff 5 then none else some (resize (write_fields h) (4 * h.doff))

-- TCPHeader::operator==, which leaves out the ports and the checksum.
unfoldable pub same_header : TcpHeader → TcpHeader → Bool
same_header a b =
    eq a.seqno b.seqno
    && eq a.ackno b.ackno
    && (a.doff == b.doff)
    && same a.urg b.urg
    && same a.ack b.ack
    && same a.psh b.psh
    && same a.rst b.rst
    && same a.syn b.syn
    && same a.fin b.fin
    && (a.win == b.win)
    && (a.uptr == b.uptr)
  where
    same : Bool → Bool → Bool
    same true y = y
    same false true = false
    same false false = true

-- TCPSegment::parse. A segment with a bad checksum leaves the segment as it was, which is new where the
-- code parses.
unfoldable pub parse : Buffer → ℕ → TcpSegment × ParseResult
parse buffer datagram_layer_checksum =
    let check : Checksum.InternetChecksum =
      Checksum.add (Checksum.init datagram_layer_checksum) (str buffer) in
    let (p, header, result) = parse_header (parser_of (str buffer)) in
    if not (Checksum.value check == 0)
    then (empty_segment, ParseResult.bad_checksum)
    else (record { header = header; payload = p.buffer }, p.error)

-- TCPSegment::serialize.
unfoldable pub serialize : TcpSegment → ℕ → Option BufferList
serialize seg datagram_layer_checksum =
    let header_out : TcpHeader = record (seg.header) { cksum = 0 } in
    elim (serialize_header header_out) [
      | none ↦ none
      | some bytes ↦
          let check : Checksum.InternetChecksum =
            Checksum.add (Checksum.add (Checksum.init datagram_layer_checksum) bytes) seg.payload in
          elim (serialize_header (record header_out { cksum = Checksum.value check })) [
            | none ↦ none
            | some out ↦ some (append (of_string out ∷ []) (of_string seg.payload ∷ []))
          ]
    ]
