-- ===== src/Parser/Ints.antt =====
-- Numbers of NetUnparser and NetParser (libsponge/util/parser.cc) on the wire.
use csed353_tcp.Prelude.{
  ℕ, suc, ◌-◌, ◌/◌, ◌%◌, ◌^◌, ◌≤◌, ◌<◌, ◌≡◌, refl, ap, sym, ◌∙◌, [], ◌∷◌, ◌++◌, arith, length, drop,
  ltb, Bytes, u32_mod, u16_mod, append_assoc, length-append, zero, take, take_all, append-nil,
  Bool-cases, inl, inr,
}
use csed353_tcp.Parser.{parser_of, parse_int, u32, u16, u8, check_size, int_from, remove_prefix}
use csed353_tcp.Parser.ParseResult.{packet_too_short}
use csed353_tcp.Parser.Unparser

unfoldable pub bytes8 : ℕ → Bytes
bytes8 v = v % 256 ∷ []

unfoldable pub bytes16 : ℕ → Bytes
bytes16 v = v / 256 % 256 ∷ v % 256 ∷ []

unfoldable pub bytes32 : ℕ → Bytes
bytes32 v = v / 2 ^ 24 % 256 ∷ v / 2 ^ 16 % 256 ∷ v / 256 % 256 ∷ v % 256 ∷ []

pub unparse_u8 : (s : Bytes) (v : ℕ) → Unparser.u8 s v ≡ s ++ bytes8 v
unfolding Unparser.u8 Unparser.unparse_int bytes8
unparse_u8 s v = ground arith

pub unparse_u16 : (s : Bytes) (v : ℕ) → Unparser.u16 s v ≡ s ++ bytes16 v
unfolding Unparser.u16 Unparser.unparse_int bytes16
unparse_u16 s v =
    let e : v / 1 ≡ v = omega arith in rw e (append_assoc s (v / 256 % 256 ∷ []) (v % 256 ∷ []))

pub unparse_u32 : (s : Bytes) (v : ℕ) → Unparser.u32 s v ≡ s ++ bytes32 v
unfolding Unparser.u32 Unparser.unparse_int bytes32
unparse_u32 s v = let e : v / 1 ≡ v = omega arith in rw e (simp append_assoc)

pub length-bytes32 : (v : ℕ) → length (bytes32 v) ≡ 4
unfolding bytes32
length-bytes32 v = refl

pub length-bytes16 : (v : ℕ) → length (bytes16 v) ≡ 2
unfolding bytes16
length-bytes16 v = refl

pub length-bytes8 : (v : ℕ) → length (bytes8 v) ≡ 1
unfolding bytes8
length-bytes8 v = refl

pub u16_bytes :
    (v : ℕ) (rest : Bytes) → v < u16_mod → u16 (parser_of (bytes16 v ++ rest)) ≡ (parser_of rest, v)
unfolding u16 parse_int check_size int_from bytes16
u16_bytes v rest h = ground arith

pub u8_bytes :
    (v : ℕ) (rest : Bytes) → v < 256 → u8 (parser_of (bytes8 v ++ rest)) ≡ (parser_of rest, v)
unfolding u8 parse_int check_size int_from bytes8
u8_bytes v rest h = ground arith

pub u32_bytes :
    (v : ℕ) (rest : Bytes) → v < u32_mod → u32 (parser_of (bytes32 v ++ rest)) ≡ (parser_of rest, v)
unfolding u32 parse_int check_size int_from bytes32
u32_bytes v rest h = ground arith

pub u8_byte : (b : ℕ) (rest : Bytes) → b < 256 → u8 (parser_of (b ∷ rest)) ≡ (parser_of rest, b)
unfolding u8 parse_int check_size int_from
u8_byte b rest h = ground arith

pub unparse_byte : (s : Bytes) (b : ℕ) → b < 256 → Unparser.u8 s b ≡ s ++ b ∷ []
unfolding Unparser.u8 Unparser.unparse_int
unparse_byte s b h = let e : b / 1 % 256 ≡ b = omega arith in rw e refl

-- A parser with too few bytes left reads 0, takes nothing and remembers the error.
pub parse_int_short :
    (len : ℕ) (bytes : Bytes)
    → length bytes < len
    → parse_int len (parser_of bytes) ≡ (record { buffer = bytes; error = packet_too_short }, 0)
unfolding parse_int check_size
parse_int_short len bytes h = ground (arith, h)

-- Skipping what is there.
pub remove_prefix_lem :
    (pad rest : Bytes) (n : ℕ)
    → length pad ≡ n
    → remove_prefix n (parser_of (pad ++ rest)) ≡ parser_of rest
unfolding remove_prefix check_size
remove_prefix_lem pad rest n h =
    let e = length-append pad rest in
    let d : drop n (pad ++ rest) ≡ rest = rw (sym h) (drop_past pad rest) in ground (arith, e, d, h)
  where
    drop_past : (xs ys : Bytes) → drop (length xs) (xs ++ ys) ≡ ys
    drop_past [] ys = refl
    drop_past (x ∷ xs) ys = drop_past xs ys

pub length-zeros : (n : ℕ) → length (Unparser.zeros n) ≡ n
length-zeros zero = refl
length-zeros (suc n) = ap suc (length-zeros n)

pub resize_lem :
    (s : Bytes) (n : ℕ) → length s ≤ n → Unparser.resize s n ≡ s ++ Unparser.zeros (n - length s)
unfolding Unparser.resize
resize_lem s n h = elim (Bool-cases (ltb (length s) n)) [
  | inl longer ↦ ground (arith, longer)
  | inr same ↦
      let z : n - length s ≡ 0 = ground (arith, same) in
      let full : take n s ≡ s = take_all n s (ground (arith, same)) in
      rw (same, z) (full ∙ sym (append-nil s))
]
