-- ===== src/Ipv4/Fields.antt =====
-- The fields of an IPv4 header (libsponge/tcp_helpers/ipv4_header.cc) on the wire.
use csed353_tcp.Prelude.{
  ℕ, ◌+◌, ◌-◌, ◌*◌, ◌/◌, ◌%◌, ◌≤◌, ◌<◌, ◌≡◌, true, false, some, [], ◌++◌, arith, length, ltb, ◌==◌,
  Bytes, u16_mod, u32_mod, append_assoc, append-nil, length-append,
}
use csed353_tcp.Checksum.Sums.{
  AllBytes, word_sum, word_sum-bytes16, word_sum-bytes32, word_sum-bytes8, bytes8-AllBytes,
  bytes16-AllBytes, bytes32-AllBytes,
}
use csed353_tcp.Ipv4.{Ipv4Header, read_fields, fo_val, write_fields, serialize_header}
use csed353_tcp.Parser.{parser_of}
use csed353_tcp.Parser.Unparser.{zeros}
use csed353_tcp.Parser.Ints.{
  bytes8, bytes16, bytes32, unparse_u8, unparse_u16, unparse_u32, u8_bytes, u16_bytes, u32_bytes,
  length-bytes8, length-bytes16, length-bytes32, resize_lem,
}

-- The fields fit their parts of the header, which is one of IPv4 with at least 20 bytes.
pub record IsHeader (h : Ipv4Header) : Type 0 where
  pub version : h.ver ≡ 4
  pub long : 5 ≤ h.hlen
  pub hlen_nibble : h.hlen < 16
  pub tos_byte : h.tos < 256
  pub len_word : h.len < u16_mod
  pub id_word : h.id < u16_mod
  pub offset_small : h.offset < 0x2000
  pub ttl_byte : h.ttl < 256
  pub proto_byte : h.proto < 256
  pub cksum_word : h.cksum < u16_mod
  pub src_word : h.src < u32_mod
  pub dst_word : h.dst < u32_mod

abbrev first_byte : Ipv4Header → ℕ
first_byte h = (h.ver * 16 + h.hlen % 16) % 256

abbrev pub fields : Ipv4Header → Bytes → Bytes
fields h rest =
    bytes8 (first_byte h)
    ++ (bytes8 h.tos
        ++ (bytes16 h.len
            ++ (bytes16 h.id
                ++ (bytes16 (fo_val h)
                    ++ (bytes8 h.ttl
                        ++ (bytes8 h.proto
                            ++ (bytes16 h.cksum ++ (bytes32 h.src ++ (bytes32 h.dst ++ rest)))))))))

pub length-fields : (h : Ipv4Header) (rest : Bytes) → length (fields h rest) ≡ 20 + length rest
length-fields h rest =
    simp (length-append, length-bytes8, length-bytes16, length-bytes32) (omega arith)

write_fields_lem : (h : Ipv4Header) → write_fields h ≡ fields h []
unfolding write_fields
write_fields_lem h = simp (unparse_u8, unparse_u16, unparse_u32, append_assoc, append-nil)

fo_val_word : (h : Ipv4Header) → fo_val h < u16_mod
unfolding fo_val
fo_val_word h = ground arith

fo_val_parts :
    (h : Ipv4Header)
    → IsHeader h
    → ((fo_val h / 0x4000 % 2 == 1) ≡ h.df)
      × ((fo_val h / 0x2000 % 2 == 1) ≡ h.mf)
      × (fo_val h % 0x2000 ≡ h.offset)
unfolding fo_val
fo_val_parts h v =
    (ground (arith, v.offset_small), ground (arith, v.offset_small), ground (arith, v.offset_small))

pub read_fields_lem :
    (h : Ipv4Header) (rest : Bytes)
    → IsHeader h
    → read_fields (parser_of (fields h rest)) ≡ (parser_of rest, h)
unfolding read_fields
read_fields_lem h rest v =
    let (df, mf, offset) = fo_val_parts h v in
    let byte : first_byte h < 256 = omega arith in
    let ver : first_byte h / 16 ≡ h.ver = omega (arith, v.version) in
    let hlen : first_byte h % 16 ≡ h.hlen = omega (arith, v.version, v.hlen_nibble) in
    let word = fo_val_word h in
    simp (
      u16_bytes, u32_bytes, u8_bytes, byte, v.tos_byte, v.len_word, v.id_word, word, v.ttl_byte,
      v.proto_byte, v.cksum_word, v.src_word, v.dst_word, ver, hlen, df, mf, offset,
    )

-- The padding up to the announced length.
abbrev pub pad : Ipv4Header → Bytes
pad h = zeros (4 * h.hlen - 20)

pub serialize_header_lem :
    (h : Ipv4Header) → IsHeader h → serialize_header h ≡ some (fields h (pad h))
unfolding serialize_header
serialize_header_lem h v =
    let version : (h.ver == 4) ≡ true = ground (arith, v.version) in
    let long : ltb (4 * h.hlen) 20 ≡ false = ground (arith, v.long) in
    let len = length-fields h [] in
    let r = resize_lem (fields h []) (4 * h.hlen) (omega (arith, len, v.long)) in
    let e : 4 * h.hlen - length (fields h []) ≡ 4 * h.hlen - 20 = omega (arith, len) in
    rw (version, long, write_fields_lem h, r, e) (simp append_assoc)

-- The words of a header less its checksum.
abbrev pub words : Ipv4Header → ℕ
words h =
    first_byte h * 256
    + h.tos
    + h.len
    + h.id
    + fo_val h
    + (h.ttl * 256 + h.proto)
    + (h.src / u16_mod + h.src % u16_mod)
    + (h.dst / u16_mod + h.dst % u16_mod)

pub word_sum-fields :
    (h : Ipv4Header) (rest : Bytes)
    → IsHeader h
    → word_sum false (fields h rest) ≡ words h + h.cksum + word_sum false rest
word_sum-fields h rest v =
    let byte : first_byte h < 256 = omega arith in
    let word = fo_val_word h in
    simp
      (
        word_sum-bytes16, word_sum-bytes32, word_sum-bytes8, byte, v.tos_byte, v.len_word,
        v.id_word, word, v.ttl_byte, v.proto_byte, v.cksum_word, v.src_word, v.dst_word,
      )
      (omega arith)

pub fields-AllBytes : (h : Ipv4Header) (rest : Bytes) → AllBytes rest → AllBytes (fields h rest)
fields-AllBytes h rest a = bytes8-AllBytes (first_byte h) _ (
    bytes8-AllBytes h.tos _ (
      bytes16-AllBytes h.len _ (
        bytes16-AllBytes h.id _ (
          bytes16-AllBytes (fo_val h) _ (
            bytes8-AllBytes h.ttl _ (
              bytes8-AllBytes h.proto _ (
                bytes16-AllBytes h.cksum _
                  (bytes32-AllBytes h.src _ (bytes32-AllBytes h.dst rest a)))))))))
