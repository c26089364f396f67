-- ===== src/Segment/Checksummed.antt =====
-- TCP segments and their checksum (libsponge/tcp_helpers/tcp_segment.cc), written and read.
use csed353_tcp.Prelude.{
  ℕ, ◌+◌, ◌-◌, ◌*◌, ◌/◌, ◌%◌, ◌^◌, ◌≤◌, ◌<◌, ◌≡◌, refl, ap, sym, ◌∙◌, Bool, false, some, [], ◌∷◌,
  ◌++◌, arith, length, Bytes, u16_mod, append_assoc, append-nil, length-append,
}
use csed353_tcp.Buffer.{BufferList, of_string, str, concatenate, append}
use csed353_tcp.Checksum
use csed353_tcp.Checksum.Sums.{
  AllBytes, word_sum, flips, add_lem, add-append, word_sum_le, word_sum-bytes16, word_sum-bytes32,
  word_sum-bytes8, bytes8-AllBytes, bytes16-AllBytes, bytes32-AllBytes, zeros-AllBytes,
  AllBytes-append, value_fills, value_le,
}
use csed353_tcp.Parser.ParseResult.{no_error}
use csed353_tcp.Parser.Ints.{length-zeros}
use csed353_tcp.Segment.{TcpHeader, TcpSegment}
use csed353_tcp.Segment.Wire.{flag_byte, parse, serialize}
use csed353_tcp.Segment.RoundTrip.{
  IsHeader, fields, pad, length-fields, flag_byte_small, serialize_header_lem, parse_header_lem,
}

-- The words of a header less its checksum.
abbrev words : TcpHeader → ℕ
words h =
    h.sport
    + h.dport
    + (h.seqno.raw_value / u16_mod + h.seqno.raw_value % u16_mod)
    + (h.ackno.raw_value / u16_mod + h.ackno.raw_value % u16_mod)
    + (h.doff * 16 % 256 * 256 + flag_byte h)
    + h.win
    + h.uptr

word_sum-fields :
    (h : TcpHeader) (rest : Bytes)
    → IsHeader h
    → word_sum false (fields h rest) ≡ words h + h.cksum + word_sum false rest
word_sum-fields h rest v =
    let small = flag_byte_small h in
    let nibble : h.doff * 16 % 256 < 256 = omega arith in
    simp
      (
        word_sum-bytes16, word_sum-bytes32, word_sum-bytes8, v.sport_word, v.dport_word,
        v.seqno_word, v.ackno_word, nibble, small, v.win_word, v.cksum_word, v.uptr_word,
      )
      (omega arith)

fields-AllBytes : (h : TcpHeader) (rest : Bytes) → AllBytes rest → AllBytes (fields h rest)
fields-AllBytes h rest a = bytes16-AllBytes h.sport _ (
    bytes16-AllBytes h.dport _ (
      bytes32-AllBytes h.seqno.raw_value _ (
        bytes32-AllBytes h.ackno.raw_value _ (
          bytes8-AllBytes (h.doff * 16 % 256) _ (
            bytes8-AllBytes (flag_byte h) _ (
              bytes16-AllBytes h.win _
                (bytes16-AllBytes h.cksum _ (bytes16-AllBytes h.uptr rest a))))))))

-- The header as it is when the checksum is computed, and as it goes out.
abbrev pub with_cksum : TcpHeader → ℕ → TcpHeader
with_cksum h cksum = record h { cksum = cksum }

-- What the checksum of the lower layer and the payload may be, so that the sum does not wrap.
pub record Fits (payload : Bytes) (d : ℕ) : Type 0 where
  pub small : AllBytes payload
  pub short : length payload < u16_mod
  pub pseudo : d < 2 ^ 19

module _ (h : TcpHeader) (payload : Bytes) (d : ℕ) (v : IsHeader h) (fits : Fits payload d) where
  rest : Bytes
  rest = pad h ++ payload

  rest-AllBytes : AllBytes rest
  unfolding rest
  rest-AllBytes = AllBytes-append (pad h) payload (zeros-AllBytes (4 * h.doff - 20)) fits.small

  fields_le : word_sum false (fields h rest) ≤ 0xff00 * (60 + length payload)
  unfolding rest
  fields_le =
      let len = length-append (pad h) payload in
      let zs = length-zeros (4 * h.doff - 20) in
      omega (
        arith,
        word_sum_le (fields h rest) false (fields-AllBytes h rest rest-AllBytes),
        length-fields h rest,
        len,
        zs,
        v.doff_nibble,
      )

  -- The sum over the header and the payload.
  sum_of : Checksum.add (Checksum.init d) (fields h rest) ≡ record {
    sum = d + (words h + h.cksum + word_sum false rest);
    parity = flips false (fields h rest);
  }
  unfolding Checksum.init
  sum_of =
      let bound = fields_le in
      rw (sym (word_sum-fields h rest v)) (
        add_lem (fields h rest) d false (fields-AllBytes h rest rest-AllBytes)
          (omega (arith, bound, fits.short, fits.pseudo)))

with_cksum-IsHeader : (h : TcpHeader) (c : ℕ) → IsHeader h → c < u16_mod → IsHeader (with_cksum h c)
with_cksum-IsHeader h c v w = record {
  sport_word = v.sport_word;
  dport_word = v.dport_word;
  seqno_word = v.seqno_word;
  ackno_word = v.ackno_word;
  long = v.long;
  doff_nibble = v.doff_nibble;
  win_word = v.win_word;
  cksum_word = w;
  uptr_word = v.uptr_word;
}

-- The checksum that `serialize` computes.
abbrev pub cksum_of : TcpSegment → ℕ → ℕ
cksum_of seg d = Checksum.value (
    Checksum.add (Checksum.init d)
      (fields (with_cksum seg.header 0) (pad seg.header ++ seg.payload)))

cksum_small : (seg : TcpSegment) (d : ℕ) → cksum_of seg d < u16_mod
cksum_small seg d = omega (
  arith,
  value_le (
      Checksum.add (Checksum.init d)
        (fields (with_cksum seg.header 0) (pad seg.header ++ seg.payload))),
)

-- With the checksum put in, the sum checks.
cksum_checks :
    (seg : TcpSegment) (d : ℕ)
    → IsHeader seg.header
    → Fits seg.payload d
    → Checksum.value (
        Checksum.add
          (Checksum.init d)
          (fields (with_cksum seg.header (cksum_of seg d)) (pad seg.header ++ seg.payload)))
      ≡ 0
unfolding rest flag_byte
cksum_checks seg d v fits =
    let h : TcpHeader = seg.header in
    let h0 : TcpHeader = with_cksum h 0 in
    let v0 = with_cksum-IsHeader h 0 v (omega arith) in
    let h1 : TcpHeader = with_cksum h (cksum_of seg d) in
    let v1 = with_cksum-IsHeader h (cksum_of seg d) v (cksum_small seg d) in
    let ws : ℕ = word_sum false (pad h ++ seg.payload) in
    let bound = fields_le h0 seg.payload d v0 fits in
    let total = word_sum-fields h0 (pad h ++ seg.payload) v0 in
    let s0 = sum_of h0 seg.payload d v0 fits in
    let s1 = sum_of h1 seg.payload d v1 fits in
    let start : Checksum.InternetChecksum = record {
      sum = d + (words h + 0 + ws);
      parity = flips false (fields h0 (pad h ++ seg.payload));
    } in
    let parity : Bool = flips false (fields h1 (pad h ++ seg.payload)) in
    let c : cksum_of seg d ≡ Checksum.value start = ap Checksum.value s0 in
    let filled : d + (words h + cksum_of seg d + ws) ≡ start.sum + Checksum.value start =
      omega (arith, c) in
    ap Checksum.value s1
    ∙ ap (λ (t : ℕ). Checksum.value (record { sum = t; parity = parity })) filled
    ∙ value_fills start.sum start.parity parity
        (omega (arith, bound, total, fits.short, fits.pseudo))

-- A segment whose header's fields fit their types, with a payload of less than 2 ^ 16 bytes, is written
-- with a checksum, for a pseudo-header's sum below 2 ^ 19, and read back under the same sum without an
-- error: with the same payload, and the same header but for the checksum that was put in. What is written
-- is as long as the header announces, and the payload.
pub parse-serialize_segment :
    (seg : TcpSegment) (d : ℕ)
    → IsHeader seg.header
    → Fits seg.payload d
    → (bs : BufferList) × (serialize seg d ≡ some bs)
      × (length (concatenate bs) ≡ 4 * seg.header.doff + length seg.payload)
      × (parse (of_string (concatenate bs)) d
          ≡ (record seg { header = with_cksum seg.header (cksum_of seg d) }, no_error))
unfolding serialize parse append concatenate str
parse-serialize_segment seg d v fits =
    let h : TcpHeader = seg.header in
    let h0 : TcpHeader = with_cksum h 0 in
    let h1 : TcpHeader = with_cksum h (cksum_of seg d) in
    let v0 = with_cksum-IsHeader h 0 v (omega arith) in
    let v1 = with_cksum-IsHeader h (cksum_of seg d) v (cksum_small seg d) in
    let e0 : fields h0 (pad h) ++ seg.payload ≡ fields h0 (pad h ++ seg.payload) =
      simp append_assoc in
    let e1 : fields h1 (pad h) ++ (seg.payload ++ []) ≡ fields h1 (pad h ++ seg.payload) =
      simp (append-nil, append_assoc) in
    let size : length (fields h1 (pad h) ++ (seg.payload ++ [])) ≡ 4 * h.doff + length seg.payload =
      omega (
        arith,
        length-append (fields h1 (pad h)) (seg.payload ++ []),
        length-append seg.payload [],
        length-fields h1 (pad h),
        length-zeros (4 * h.doff - 20),
        v.long,
      ) in
    (
      of_string (fields h1 (pad h)) ∷ of_string seg.payload ∷ [],
      rw
          (
            serialize_header_lem h0 v0,
            serialize,
            add-append (Checksum.init d) (fields h0 (pad h)) seg.payload,
            e0,
            serialize_header_lem h1 v1,
          )
          refl,
      size,
      rw (e1, cksum_checks seg d v fits, parse_header_lem h1 seg.payload v1) refl,
    )
