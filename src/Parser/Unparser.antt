-- ===== src/Parser/Unparser.antt =====
-- struct NetUnparser of libsponge/util/parser.hh and parser.cc, for values of the types that they have.
use csed353_tcp.Prelude.{
  ℕ, zero, suc, ◌*◌, ◌/◌, ◌%◌, ◌^◌, ◌-◌, [], ◌∷◌, ◌++◌, Bytes, ltb, if◌then◌else◌, length, take,
}

-- `_unparse_int`: the bytes still to write, the most significant first.
unfoldable pub unparse_int : ℕ → Bytes → ℕ → Bytes
unparse_int zero s val = s
unparse_int (suc len) s val = unparse_int len (s ++ (val / 2 ^ (len * 8) % 256) ∷ []) val

unfoldable pub u32 : Bytes → ℕ → Bytes
unfolding unparse_int
u32 s val = unparse_int 4 s val

unfoldable pub u16 : Bytes → ℕ → Bytes
unfolding unparse_int
u16 s val = unparse_int 2 s val

unfoldable pub u8 : Bytes → ℕ → Bytes
unfolding unparse_int
u8 s val = unparse_int 1 s val

-- `std::string::resize`.
abbrev pub zeros : ℕ → Bytes
zeros zero = []
zeros (suc n) = 0 ∷ zeros n

unfoldable pub resize : Bytes → ℕ → Bytes
resize s n = if ltb (length s) n then s ++ zeros (n - length s) else take n s
