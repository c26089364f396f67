-- ===== src/Checksum.antt =====
-- class InternetChecksum (libsponge/util/util.hh and util.cc), computed in host byte order.
pub mod Sums
use csed353_tcp.Prelude.{
  ℕ, zero, suc, ◌+◌, ◌-◌, ◌*◌, ◌/◌, ◌%◌, ◌^◌, Bool, true, false, not, [], ◌∷◌, ltb, if◌then◌else◌,
  Bytes, u32_mod, u16_mod,
}

pub record InternetChecksum : Type 0 where
  pub sum : ℕ
  pub parity : Bool

unfoldable pub init : ℕ → InternetChecksum
init initial_sum = record { sum = initial_sum; parity = false }

unfoldable pub add : InternetChecksum → Bytes → InternetChecksum
add c [] = c
add c (b ∷ bytes) =
    let val : ℕ = if not c.parity then b * 256 % u16_mod else b in
    add (record { sum = (c.sum + val) % u32_mod; parity = not c.parity }) bytes

-- The loop of `value`. A second round leaves at most 0xffff of a 32-bit sum.
unfoldable pub fold : ℕ → ℕ → ℕ
fold zero ret = ret
fold (suc fuel) ret =
    let rest = fold fuel (ret / u16_mod + ret % u16_mod) in if ltb 0xffff ret then rest else ret

unfoldable pub value : InternetChecksum → ℕ
unfolding fold
value c = 0xffff - fold 2 c.sum % u16_mod
