-- ===== src/Wrapping/Laws.antt =====
-- wrap and unwrap (libsponge/wrapping_integers.cc) against each other.
use csed353_tcp.Prelude.{ℕ, ◌+◌, ◌-◌, ◌^◌, ◌≤◌, ◌<◌, ◌≡◌, arith, u32_mod, u64_mod}
use csed353_tcp.Wrapping.{WrappingInt32, wrap, unwrap, plus, minus, offset}

-- Unwrapping a 32-bit sequence number at any 64-bit checkpoint and wrapping again gives it back.
pub wrap-unwrap :
    (n isn : WrappingInt32) (checkpoint : ℕ)
    → n.raw_value < u32_mod
    → isn.raw_value < u32_mod
    → checkpoint < u64_mod
    → wrap (unwrap n isn checkpoint) isn ≡ n
unfolding wrap unwrap
wrap-unwrap n isn c hn hi hc = ground arith

-- Wrapping a 64-bit number and unwrapping it at a 64-bit checkpoint, at most 2 ^ 31 behind it or less
-- than 2 ^ 31 ahead of it, gives it back.
pub unwrap-wrap :
    (n : ℕ) (isn : WrappingInt32) (checkpoint : ℕ)
    → n < u64_mod
    → isn.raw_value < u32_mod
    → checkpoint < u64_mod
    → n ≤ checkpoint + 2 ^ 31
    → checkpoint < n + 2 ^ 31
    → unwrap (wrap n isn) isn checkpoint ≡ n
unfolding wrap unwrap
unwrap-wrap n isn c hn hi hc ha hb = ground arith

abbrev pub distance : ℕ → ℕ → ℕ
distance a b = (a - b) + (b - a)

-- No 64-bit number with the sequence number `n` is closer to the checkpoint than `unwrap n`, for
-- checkpoints of at most 2 ^ 64 - 2 ^ 32.
pub unwrap-closest :
    (n isn : WrappingInt32) (checkpoint m : ℕ)
    → n.raw_value < u32_mod
    → isn.raw_value < u32_mod
    → checkpoint + u32_mod ≤ u64_mod
    → m < u64_mod
    → wrap m isn ≡ n
    → distance (unwrap n isn checkpoint) checkpoint ≤ distance m checkpoint
unfolding wrap unwrap
unwrap-closest n isn c m hn hi hc hm e = ground arith

-- Steps on sequence numbers are steps on the numbers that they stand for: `b` past the sequence number
-- of `n` is that of `n + b`, `b` before it is back at that of `n`, and the offset between the two is
-- `b`. The sum is a 64-bit number, `b` and the initial number are 32-bit numbers.
pub plus-wrap :
    (n b : ℕ) (isn : WrappingInt32)
    → n + b < u64_mod
    → b < u32_mod
    → isn.raw_value < u32_mod
    → (plus (wrap n isn) b ≡ wrap (n + b) isn)
      × (minus (wrap (n + b) isn) b ≡ wrap n isn)
      × (offset (wrap (n + b) isn) (wrap n isn) ≡ b)
unfolding wrap plus minus offset
plus-wrap n b isn h hb hi = (ground arith, ground arith, omega arith)
