-- ===== src/Wrapping.antt =====
-- libsponge/wrapping_integers.hh and wrapping_integers.cc: 32-bit sequence numbers relative to an
-- initial sequence number, and the 64-bit absolute numbers that they stand for.
pub mod Laws
use csed353_tcp.Prelude.{
  ℕ, ◌+◌, ◌-◌, ◌%◌, ◌^◌, Bool, not, leb, ltb, ◌==◌, if◌then◌else◌, add64, sub32, u32_mod,
}

pub record WrappingInt32 : Type 0 where
  pub raw_value : ℕ

unfoldable pub wrap : ℕ → WrappingInt32 → WrappingInt32
wrap n isn = record { raw_value = add64 n isn.raw_value % u32_mod }

-- `difference1` and `difference2` are differences of `uint32_t`, widened afterwards.
unfoldable pub unwrap : WrappingInt32 → WrappingInt32 → ℕ → ℕ
unfolding wrap
unwrap n isn checkpoint =
    let sqenocheck : ℕ = (wrap checkpoint isn).raw_value in
    let difference1 : ℕ = sub32 n.raw_value sqenocheck in
    let difference2 : ℕ = sub32 sqenocheck n.raw_value in
    if ltb difference2 difference1
    then (if leb difference2 checkpoint
        then checkpoint - difference2
        else add64 checkpoint difference1)
    else add64 checkpoint difference1

-- `operator==` and `operator!=`.
unfoldable pub eq : WrappingInt32 → WrappingInt32 → Bool
eq a b = a.raw_value == b.raw_value

unfoldable pub ne : WrappingInt32 → WrappingInt32 → Bool
unfolding eq
ne a b = not (eq a b)

-- `operator+` by a `uint32_t`; `operator-` adds the negated word.
unfoldable pub plus : WrappingInt32 → ℕ → WrappingInt32
plus a b = record { raw_value = (a.raw_value + b) % u32_mod }

unfoldable pub minus : WrappingInt32 → ℕ → WrappingInt32
unfolding plus
minus a b = plus a (sub32 0 b)

-- The offset `operator-` of two sequence numbers, an `int32_t`, by its bit pattern.
unfoldable pub offset : WrappingInt32 → WrappingInt32 → ℕ
offset a b = sub32 a.raw_value b.raw_value
