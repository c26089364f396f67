-- ===== src/Parser.antt =====
-- libsponge/util/parser.hh and parser.cc: integers in network byte order, read from a buffer and written
-- to a string. The buffer of a parser is given by the bytes that it shows. A method that reads is a
-- function from the parser to the parser after it and what was read.
pub mod Unparser
pub mod Ints
use csed353_tcp.Prelude.{
  ℕ, zero, suc, ◌+◌, ◌-◌, ◌*◌, ◌/◌, ◌%◌, ◌^◌, Bool, true, false, Option, none, some, List, [], ◌∷◌,
  ◌++◌, ltb, if◌then◌else◌, Bytes, length, drop,
}

-- enum class ParseResult.
pub data ParseResult : Type 0 where
  no_error bad_checksum packet_too_short wrong_ip_version header_too_short truncated_packet
        unsupported :
      ParseResult

-- class NetParser.
pub record NetParser : Type 0 where
  pub buffer : Bytes
  pub error : ParseResult

abbrev pub parser_of : Bytes → NetParser
parser_of buffer = record { buffer = buffer; error = no_error }

abbrev pub is_error : ParseResult → Bool
is_error no_error = false
is_error _ = true

unfoldable pub check_size : NetParser → ℕ → NetParser
check_size p size = if ltb (length p.buffer) size then record p { error = packet_too_short } else p

abbrev pub Parse : Type 0 → Type 0
Parse A = NetParser → NetParser × A

infixl 5 ◌>>=◌
abbrev pub ◌>>=◌ : {A B : Type 0} → Parse A → (A → Parse B) → Parse B
(m >>= f) p = f (m p).1 (m p).0

abbrev pub pure : {A : Type 0} → A → Parse A
pure a p = (p, a)

-- The loop of `_parse_int` for a type of `bits` bits: `len` bytes onto what was read before.
unfoldable pub int_from : ℕ → ℕ → Bytes → ℕ → ℕ
int_from bits zero bytes ret = ret
int_from bits (suc len) [] ret = ret
int_from bits (suc len) (b ∷ bytes) ret =
    int_from bits len bytes ((ret * 256 % 2 ^ bits + b) % 2 ^ bits)

-- `_parse_int` for a type of `len` bytes.
unfoldable pub parse_int : ℕ → Parse ℕ
unfolding check_size int_from
parse_int len p =
    let q : NetParser = check_size p len in
    if is_error q.error
    then (q, 0)
    else (record q { buffer = drop len q.buffer }, int_from (8 * len) len q.buffer 0)

unfoldable pub u32 : Parse ℕ
unfolding parse_int
u32 = parse_int 4

unfoldable pub u16 : Parse ℕ
unfolding parse_int
u16 = parse_int 2

unfoldable pub u8 : Parse ℕ
unfolding parse_int
u8 = parse_int 1

unfoldable pub remove_prefix : ℕ → NetParser → NetParser
unfolding check_size
remove_prefix n p =
    let q : NetParser = check_size p n in
    if is_error q.error then q else record q { buffer = drop n q.buffer }
