-- ===== src/Ethernet/RoundTrip.antt =====
-- Ethernet headers and frames (libsponge/tcp_helpers/ethernet_header.cc, ethernet_frame.cc), written and
-- read.
use csed353_tcp.Prelude.{
  ℕ, ◌<◌, ◌≡◌, refl, ap, sym, ◌∙◌, [], ◌∷◌, ◌++◌, ◌+◌, arith, length, Bytes, u16_mod, append_assoc,
  append-nil, length-append,
}
use csed353_tcp.Buffer.{str, of_string, append, concatenate}
use csed353_tcp.Checksum.Sums.{AllBytes}
use csed353_tcp.Parser.{NetParser, parser_of, ParseResult}
use csed353_tcp.Parser.ParseResult.{no_error}
use csed353_tcp.Parser.Ints.{bytes16, unparse_u16, u8_byte, unparse_byte, u16_bytes, length-bytes16}
use csed353_tcp.Ethernet.{
  read_bytes, write_bytes, EthernetHeader, read_header, parse_header, serialize_header, parse,
  serialize, EthernetFrame, zero_header, header_length,
}

-- An array of `n` bytes.
pub record IsArray (n : ℕ) (bytes : Bytes) : Type 0 where
  pub size : length bytes ≡ n
  pub small : AllBytes bytes

pub write_bytes_lem : (s bytes : Bytes) → AllBytes bytes → write_bytes s bytes ≡ s ++ bytes
unfolding write_bytes
write_bytes_lem s [] a = sym (append-nil s)
write_bytes_lem s (b ∷ bytes) a =
    rw (unparse_byte s b a.0)
      (write_bytes_lem (s ++ b ∷ []) bytes a.1 ∙ append_assoc s (b ∷ []) bytes)

pub read_bytes_lem :
    (bytes rest : Bytes)
    → AllBytes bytes
    → read_bytes (length bytes) (parser_of (bytes ++ rest)) ≡ (parser_of rest, bytes)
unfolding read_bytes
read_bytes_lem [] rest a = refl
read_bytes_lem (b ∷ bytes) rest a =
    rw (u8_byte b (bytes ++ rest) a.0, read_bytes_lem bytes rest a.1) refl

-- An array is read back.
pub read_array :
    (n : ℕ) (bytes rest : Bytes)
    → IsArray n bytes
    → read_bytes n (parser_of (bytes ++ rest)) ≡ (parser_of rest, bytes)
read_array n bytes rest a = rw (sym a.size) (read_bytes_lem bytes rest a.small)

-- The fields of the header fit their types.
pub record IsHeader (h : EthernetHeader) : Type 0 where
  pub dst_array : IsArray 6 h.dst
  pub src_array : IsArray 6 h.src
  pub type_word : h.type < u16_mod

header_bytes :
    (h : EthernetHeader) (rest : Bytes)
    → IsHeader h
    → serialize_header h ++ rest ≡ h.dst ++ (h.src ++ (bytes16 h.type ++ rest))
unfolding serialize_header
header_bytes h rest v =
    simp (unparse_u16, write_bytes_lem, append_assoc, v.dst_array.small, v.src_array.small)

read_header_lem :
    (h : EthernetHeader) (rest : Bytes)
    → IsHeader h
    → read_header (parser_of (h.dst ++ (h.src ++ (bytes16 h.type ++ rest)))) ≡ (parser_of rest, h)
unfolding read_header
read_header_lem h rest v =
    rw
      (
        read_array 6 h.dst (h.src ++ (bytes16 h.type ++ rest)) v.dst_array,
        read_array 6 h.src (bytes16 h.type ++ rest) v.src_array,
        u16_bytes h.type rest v.type_word,
      )
      refl

-- A header whose fields fit their types is read back from what it writes, with the rest of the buffer
-- left, whatever the header held before.
pub parse-serialize_header :
    (h h₀ : EthernetHeader) (rest : Bytes)
    → IsHeader h
    → parse_header h₀ (parser_of (serialize_header h ++ rest)) ≡ (parser_of rest, h, no_error)
unfolding parse_header
parse-serialize_header h h₀ rest v =
    let len : length (h.dst ++ (h.src ++ (bytes16 h.type ++ rest))) ≡ 14 + length rest = omega (
      arith,
      length-append h.dst (h.src ++ (bytes16 h.type ++ rest)),
      length-append h.src (bytes16 h.type ++ rest),
      length-append (bytes16 h.type) rest,
      length-bytes16 h.type,
      v.dst_array.size,
      v.src_array.size,
    ) in
    rw (header_bytes h rest v) (ground (arith, len, read_header_lem h rest v))

-- A frame that is written and read again, as one buffer, is read without an error, and has the same
-- header and one buffer that shows the same payload.
pub parse-serialize_frame :
    (f : EthernetFrame)
    → IsHeader f.header
    → parse (of_string (concatenate (serialize f)))
      ≡ (record { header = f.header; payload = of_string (concatenate f.payload) ∷ [] }, no_error)
unfolding parse serialize append concatenate str
parse-serialize_frame f v =
    ap
      (λ (t : NetParser × EthernetHeader × ParseResult).
        (record { header = t.1; payload = of_string t.0.buffer ∷ [] }, t.0.error))
      (parse-serialize_header f.header zero_header (concatenate f.payload) v)

-- A frame that is too short for a header is read without an error, as one with a header of zeros.
pub parse_short :
    (bytes : Bytes)
    → length bytes < header_length
    → parse (of_string bytes)
      ≡ (record { header = zero_header; payload = of_string bytes ∷ [] }, no_error)
unfolding parse parse_header str
parse_short bytes h = ground (arith, h)
