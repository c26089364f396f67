-- ===== src/Segment/RoundTrip.antt =====
-- TCP headers (libsponge/tcp_helpers/tcp_header.cc), written and read.
use csed353_tcp.Prelude.{
  ℕ, ◌+◌, ◌-◌, ◌*◌, ◌/◌, ◌%◌, ◌≤◌, ◌<◌, ◌≡◌, refl, Bool, true, false, some, [], ◌++◌, arith, length,
  ltb, ◌==◌, Bytes, u16_mod, u32_mod, append_assoc, append-nil, length-append,
}
use csed353_tcp.Parser.{parser_of}
use csed353_tcp.Parser.ParseResult.{no_error}
use csed353_tcp.Parser.Unparser.{zeros}
use csed353_tcp.Parser.Ints.{
  bytes8, bytes16, bytes32, unparse_u8, unparse_u16, unparse_u32, u8_bytes, u16_bytes, u32_bytes,
  length-bytes8, length-bytes16, length-bytes32, resize_lem, remove_prefix_lem, length-zeros,
}
use csed353_tcp.Segment.{TcpHeader, flag, flag_le}
use csed353_tcp.Segment.Wire.{
  bit, read_fields, parse_header, flag_byte, write_fields, serialize_header,
}

-- The fields of the header fit their types on the wire, and it announces no fewer than 20 bytes.
pub record IsHeader (h : TcpHeader) : Type 0 where
  pub sport_word : h.sport < u16_mod
  pub dport_word : h.dport < u16_mod
  pub seqno_word : h.seqno.raw_value < u32_mod
  pub ackno_word : h.ackno.raw_value < u32_mod
  pub long : 5 ≤ h.doff
  pub doff_nibble : h.doff < 16
  pub win_word : h.win < u16_mod
  pub cksum_word : h.cksum < u16_mod
  pub uptr_word : h.uptr < u16_mod

abbrev pub fields : TcpHeader → Bytes → Bytes
fields h rest =
    bytes16 h.sport
    ++ (bytes16 h.dport
        ++ (bytes32 h.seqno.raw_value
            ++ (bytes32 h.ackno.raw_value
                ++ (bytes8 (h.doff * 16 % 256)
                    ++ (bytes8 (flag_byte h)
                        ++ (bytes16 h.win ++ (bytes16 h.cksum ++ (bytes16 h.uptr ++ rest))))))))

pub length-fields : (h : TcpHeader) (rest : Bytes) → length (fields h rest) ≡ 20 + length rest
length-fields h rest =
    simp (length-append, length-bytes8, length-bytes16, length-bytes32) (omega arith)

write_fields_lem : (h : TcpHeader) → write_fields h ≡ fields h []
unfolding write_fields
write_fields_lem h = simp (unparse_u8, unparse_u16, unparse_u32, append_assoc, append-nil)

flag_one : (b : Bool) → (flag b == 1) ≡ b
flag_one true = refl
flag_one false = refl

bit-flag : (weight x : ℕ) (b : Bool) → x / weight % 2 ≡ flag b → bit weight x ≡ b
bit-flag weight x b h = rw h (flag_one b)

pub flag_byte_small : (h : TcpHeader) → flag_byte h < 256
unfolding flag_byte
flag_byte_small h = omega (
  arith,
  flag_le h.urg,
  flag_le h.ack,
  flag_le h.psh,
  flag_le h.rst,
  flag_le h.syn,
  flag_le h.fin,
)

bits_of :
    (h : TcpHeader)
    → (bit 32 (flag_byte h) ≡ h.urg)
      × (bit 16 (flag_byte h) ≡ h.ack)
      × (bit 8 (flag_byte h) ≡ h.psh)
      × (bit 4 (flag_byte h) ≡ h.rst)
      × (bit 2 (flag_byte h) ≡ h.syn)
      × (bit 1 (flag_byte h) ≡ h.fin)
unfolding flag_byte
bits_of h =
    let u = flag_le h.urg in
    let a = flag_le h.ack in
    let p = flag_le h.psh in
    let r = flag_le h.rst in
    let s = flag_le h.syn in
    let f = flag_le h.fin in
    let x : ℕ =
      32 * flag h.urg
      + 16 * flag h.ack
      + 8 * flag h.psh
      + 4 * flag h.rst
      + 2 * flag h.syn
      + flag h.fin in
    (
      bit-flag 32 x h.urg (omega (arith, a, p, r, s, f)),
      bit-flag 16 x h.ack (omega (arith, a, p, r, s, f)),
      bit-flag 8 x h.psh (omega (arith, p, r, s, f)),
      bit-flag 4 x h.rst (omega (arith, r, s, f)),
      bit-flag 2 x h.syn (omega (arith, s, f)),
      bit-flag 1 x h.fin (omega (arith, f)),
    )

pub read_fields_lem :
    (h : TcpHeader) (rest : Bytes)
    → IsHeader h
    → read_fields (parser_of (fields h rest)) ≡ (parser_of rest, h)
unfolding read_fields
read_fields_lem h rest v =
    let (u, a, p, r, s, f) = bits_of h in
    let doff : h.doff * 16 % 256 / 16 ≡ h.doff = omega (arith, v.doff_nibble) in
    let small = flag_byte_small h in
    let nibble : h.doff * 16 % 256 < 256 = omega arith in
    simp (
      u16_bytes, u32_bytes, u8_bytes, v.sport_word, v.dport_word, v.seqno_word, v.ackno_word,
      nibble, small, v.win_word, v.cksum_word, v.uptr_word, doff, u, a, p, r, s, f,
    )

-- The padding up to the announced length.
abbrev pub pad : TcpHeader → Bytes
pad h = zeros (4 * h.doff - 20)

pub serialize_header_lem :
    (h : TcpHeader) → IsHeader h → serialize_header h ≡ some (fields h (pad h))
unfolding serialize_header
serialize_header_lem h v =
    let long : ltb h.doff 5 ≡ false = ground (arith, v.long) in
    let len = length-fields h [] in
    let r = resize_lem (fields h []) (4 * h.doff) (omega (arith, len, v.long)) in
    let e : 4 * h.doff - length (fields h []) ≡ 4 * h.doff - 20 = omega (arith, len) in
    rw (long, write_fields_lem h, r, e) (simp append_assoc)

pub parse_header_lem :
    (h : TcpHeader) (rest : Bytes)
    → IsHeader h
    → parse_header (parser_of (fields h (pad h ++ rest))) ≡ (parser_of rest, h, no_error)
unfolding parse_header
parse_header_lem h rest v =
    let long : ltb h.doff 5 ≡ false = ground (arith, v.long) in
    let skip : h.doff * 4 - 20 ≡ 4 * h.doff - 20 = omega arith in
    rw
      (
        read_fields_lem h (pad h ++ rest) v,
        long,
        skip,
        remove_prefix_lem (pad h) rest (4 * h.doff - 20) (length-zeros (4 * h.doff - 20)),
      )
      refl

-- A header whose fields fit their types, and that announces at least 20 bytes, is written in as many
-- bytes as it announces, and read back from a buffer that begins with them, with the rest left.
pub parse-serialize_header :
    (h : TcpHeader) (rest : Bytes)
    → IsHeader h
    → (bytes : Bytes) × (serialize_header h ≡ some bytes)
      × (length bytes ≡ 4 * h.doff)
      × (parse_header (parser_of (bytes ++ rest)) ≡ (parser_of rest, h, no_error))
parse-serialize_header h rest v =
    let e : fields h (pad h) ++ rest ≡ fields h (pad h ++ rest) = simp append_assoc in
    (
      fields h (pad h),
      serialize_header_lem h v,
      omega (arith, length-fields h (pad h), length-zeros (4 * h.doff - 20), v.long),
      rw e (parse_header_lem h rest v),
    )
