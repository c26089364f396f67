-- ===== src/Ipv4/RoundTrip.antt =====
-- IPv4 headers and datagrams (libsponge/tcp_helpers/ipv4_header.cc, ipv4_datagram.cc), written and read,
-- and their checksum.
use csed353_tcp.Prelude.{
  ℕ, zero, suc, ◌+◌, ◌-◌, ◌*◌, ◌≤◌, ◌<◌, ◌≡◌, refl, ap, sym, ◌∙◌, Bool, true, false, not, some, [],
  ◌∷◌, ◌++◌, arith, length, take, ltb, ◌==◌, if◌then◌else◌, Bytes, u16_mod, append_assoc,
  length-append,
}
use csed353_tcp.Buffer.{BufferList, of_string, str, concatenate, append, list_size}
use csed353_tcp.Buffer.Views.{list_size_lem}
use csed353_tcp.Checksum
use csed353_tcp.Checksum.Sums.{
  word_sum, flips, add_lem, word_sum_le, zeros-AllBytes, value_fills, value_le,
}
use csed353_tcp.Ipv4.{
  Ipv4Header, Ipv4Datagram, header_cksum, check_header, parse_header, payload_length, parse,
  serialize, new_header, fo_val,
}
use csed353_tcp.Ipv4.Fields.{
  IsHeader, fields, length-fields, read_fields_lem, pad, serialize_header_lem, words,
  word_sum-fields, fields-AllBytes,
}
use csed353_tcp.Parser.{NetParser, parser_of, ParseResult}
use csed353_tcp.Parser.ParseResult.{no_error, bad_checksum}
use csed353_tcp.Parser.Ints.{length-zeros, remove_prefix_lem}

take_front : (n : ℕ) (xs ys : Bytes) → length xs ≡ n → take n (xs ++ ys) ≡ xs
take_front zero [] ys h = refl
take_front (suc n) [] ys h = absurd (omega (arith, h))
take_front zero (x ∷ xs) ys h = absurd (omega (arith, h))
take_front (suc n) (x ∷ xs) ys h = ap (◌∷◌ x) (take_front n xs ys (omega (arith, h)))

length-header : (h : Ipv4Header) → IsHeader h → length (fields h (pad h)) ≡ 4 * h.hlen
length-header h v = omega (arith, length-fields h (pad h), length-zeros (4 * h.hlen - 20), v.long)

-- The checksum of a header as it is written.
abbrev pub cksum_left : Ipv4Header → ℕ
cksum_left h = Checksum.value (Checksum.add (Checksum.init 0) (fields h (pad h)))

header_cksum_lem :
    (h : Ipv4Header) (rest : Bytes)
    → IsHeader h
    → header_cksum (fields h (pad h) ++ rest) (4 * h.hlen) ≡ cksum_left h
unfolding header_cksum
header_cksum_lem h rest v =
    ap (λ (bytes : Bytes). Checksum.value (Checksum.add (Checksum.init 0) bytes))
      (take_front (4 * h.hlen) (fields h (pad h)) rest (length-header h v))

result_of :
    (b : Bool) (p : NetParser) (h : Ipv4Header)
    → ◌≡◌ {A = NetParser × Ipv4Header × ParseResult}
        (if b then (p, h, bad_checksum) else (p, h, no_error))
        (p, h, (if b then bad_checksum else no_error))
result_of true p h = refl
result_of false p h = refl

-- A header that announces the length of the buffer is read from it, with the rest of the buffer left;
-- the result tells whether its checksum checks.
pub parse_header_lem :
    (h h₀ : Ipv4Header) (rest : Bytes)
    → IsHeader h
    → h.len ≡ 4 * h.hlen + length rest
    → parse_header h₀ (parser_of (fields h (pad h) ++ rest))
      ≡ (parser_of rest, h, (if not (cksum_left h == 0) then bad_checksum else no_error))
unfolding parse_header check_header
parse_header_lem h h₀ rest v l =
    let whole : Bytes = fields h (pad h ++ rest) in
    let e : fields h (pad h) ++ rest ≡ whole = simp append_assoc in
    let len : length whole ≡ h.len = omega (
      arith,
      length-fields h (pad h ++ rest),
      length-append (pad h) rest,
      length-zeros (4 * h.hlen - 20),
      v.long,
      l,
    ) in
    let skip : h.hlen * 4 - 20 ≡ 4 * h.hlen - 20 = omega arith in
    let sum : header_cksum whole (4 * h.hlen) ≡ cksum_left h =
      ap (λ (bytes : Bytes). header_cksum bytes (4 * h.hlen)) (sym e) ∙ header_cksum_lem h rest v in
    let small : ltb (length whole) 20 ≡ false = ground (arith, len, l, v.long) in
    let fits : ltb (length whole) (4 * h.hlen) ≡ false = ground (arith, len, l) in
    let version : (h.ver == 4) ≡ true = ground (arith, v.version) in
    let long : ltb h.hlen 5 ≡ false = ground (arith, v.long) in
    let same : (length whole == h.len) ≡ true = ground (arith, len) in
    rw
      (
        e,
        small,
        read_fields_lem h (pad h ++ rest) v,
        fits,
        version,
        long,
        same,
        skip,
        remove_prefix_lem (pad h) rest (4 * h.hlen - 20) (length-zeros (4 * h.hlen - 20)),
        sum,
      )
      (result_of (not (cksum_left h == 0)) (parser_of rest) h)

payload_size :
    (h : Ipv4Header) (rest : Bytes)
    → IsHeader h
    → h.len ≡ 4 * h.hlen + length rest
    → list_size (of_string rest ∷ []) ≡ payload_length h
unfolding payload_length concatenate str
payload_size h rest v l =
    let len =
      list_size_lem (of_string rest ∷ []) (omega (arith, length-append rest [], v.len_word, l)) in
    omega (arith, len, length-append rest [], v.len_word, l, v.hlen_nibble)

-- A datagram is read whatever its checksum is: one whose header's fields fit their parts of the
-- header, and that announces its length, is read without an error, with its header and payload as they
-- stand, also where the header's own parser finds a bad checksum.
pub parse_any_checksum :
    (h : Ipv4Header) (rest : Bytes)
    → IsHeader h
    → h.len ≡ 4 * h.hlen + length rest
    → (parse (of_string (fields h (pad h) ++ rest))
        ≡ (record { header = h; payload = of_string rest ∷ [] }, no_error))
      × ((parse_header new_header (parser_of (fields h (pad h) ++ rest))).2
          ≡ (if not (cksum_left h == 0) then bad_checksum else no_error))
unfolding parse str
parse_any_checksum h rest v l =
    let e = parse_header_lem h new_header rest v l in
    let size : (list_size (of_string rest ∷ []) == payload_length h) ≡ true =
      ground (arith, payload_size h rest v l) in
    (rw (e, size) refl, ap (λ (t : NetParser × Ipv4Header × ParseResult). t.2) e)

abbrev pub with_cksum : Ipv4Header → ℕ → Ipv4Header
with_cksum h cksum = record h { cksum = cksum }

with_cksum-IsHeader :
    (h : Ipv4Header) (c : ℕ) → IsHeader h → c < u16_mod → IsHeader (with_cksum h c)
with_cksum-IsHeader h c v w = record {
  version = v.version;
  long = v.long;
  hlen_nibble = v.hlen_nibble;
  tos_byte = v.tos_byte;
  len_word = v.len_word;
  id_word = v.id_word;
  offset_small = v.offset_small;
  ttl_byte = v.ttl_byte;
  proto_byte = v.proto_byte;
  cksum_word = w;
  src_word = v.src_word;
  dst_word = v.dst_word;
}

-- The checksum that `serialize` computes.
abbrev pub cksum_of : Ipv4Header → ℕ
cksum_of h = cksum_left (with_cksum h 0)

cksum_small : (h : Ipv4Header) → cksum_of h < u16_mod
cksum_small h = omega (
  arith,
  value_le (Checksum.add (Checksum.init 0) (fields (with_cksum h 0) (pad (with_cksum h 0)))),
)

sum_le : (h : Ipv4Header) → IsHeader h → words h + h.cksum + word_sum false (pad h) ≤ 0xff00 * 60
sum_le h v = omega (
  arith,
  word_sum_le (fields h (pad h)) false
      (fields-AllBytes h (pad h) (zeros-AllBytes (4 * h.hlen - 20))),
  word_sum-fields h (pad h) v,
  length-header h v,
  v.hlen_nibble,
)

sum_of :
    (h : Ipv4Header)
    → IsHeader h
    → Checksum.add (Checksum.init 0) (fields h (pad h)) ≡ record {
      sum = 0 + (words h + h.cksum + word_sum false (pad h));
      parity = flips false (fields h (pad h));
    }
unfolding Checksum.init
sum_of h v = rw (sym (word_sum-fields h (pad h) v)) (
    add_lem (fields h (pad h)) 0 false
      (fields-AllBytes h (pad h) (zeros-AllBytes (4 * h.hlen - 20)))
      (omega (arith, sum_le h v, word_sum-fields h (pad h) v)))

-- With the checksum put in, the header checks.
cksum_checks : (h : Ipv4Header) → IsHeader h → cksum_left (with_cksum h (cksum_of h)) ≡ 0
unfolding fo_val
cksum_checks h v =
    let h0 : Ipv4Header = with_cksum h 0 in
    let v0 = with_cksum-IsHeader h 0 v (omega arith) in
    let h1 : Ipv4Header = with_cksum h (cksum_of h) in
    let v1 = with_cksum-IsHeader h (cksum_of h) v (cksum_small h) in
    let start : Checksum.InternetChecksum = record {
      sum = 0 + (words h0 + 0 + word_sum false (pad h));
      parity = flips false (fields h0 (pad h));
    } in
    let parity : Bool = flips false (fields h1 (pad h)) in
    let c : cksum_of h ≡ Checksum.value start = ap Checksum.value (sum_of h0 v0) in
    let filled : 0 + (words h1 + cksum_of h + word_sum false (pad h))
        ≡ start.sum + Checksum.value start =
      omega (arith, c) in
    ap Checksum.value (sum_of h1 v1)
    ∙ ap (λ (t : ℕ). Checksum.value (record { sum = t; parity = parity })) filled
    ∙ value_fills start.sum start.parity parity (omega (arith, sum_le h0 v0))

-- A datagram whose header's fields fit their parts of the header, and that announces its length, is
-- written with a checksum that checks, and read back without an error: with the same header but for
-- the checksum that was put in, and one buffer that shows the payload.
pub parse-serialize_datagram :
    (dgram : Ipv4Datagram)
    → IsHeader dgram.header
    → dgram.header.len ≡ 4 * dgram.header.hlen + length (concatenate dgram.payload)
    → let h1 = with_cksum dgram.header (cksum_of dgram.header) in
      (bs : BufferList) × (serialize dgram ≡ some bs)
      × (parse (of_string (concatenate bs)) ≡ (
        record { header = h1; payload = of_string (concatenate dgram.payload) ∷ [] },
        no_error,
      ))
      × ((parse_header new_header (parser_of (concatenate bs))).2 ≡ no_error)
unfolding serialize append concatenate str
parse-serialize_datagram dgram v l =
    let h : Ipv4Header = dgram.header in
    let h0 : Ipv4Header = with_cksum h 0 in
    let h1 : Ipv4Header = with_cksum h (cksum_of h) in
    let v0 = with_cksum-IsHeader h 0 v (omega arith) in
    let v1 = with_cksum-IsHeader h (cksum_of h) v (cksum_small h) in
    let rest : Bytes = concatenate dgram.payload in
    let (read, ok) = parse_any_checksum h1 rest v1 l in
    let size : (list_size dgram.payload == payload_length h) ≡ true =
      unfold payload_length in
      ground (
        arith,
        list_size_lem dgram.payload (omega (arith, v.len_word, l)),
        v.len_word,
        l,
        v.hlen_nibble,
      ) in
    let good : (cksum_left h1 == 0) ≡ true = ground (arith, cksum_checks h v) in
    (
      of_string (fields h1 (pad h)) ∷ dgram.payload,
      rw (size, serialize_header_lem h0 v0, serialize, serialize_header_lem h1 v1) refl,
      read,
      ok ∙ rw good refl,
    )
