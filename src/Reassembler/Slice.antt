-- ===== src/Reassembler/Slice.antt =====
-- Stretches of the stream that is being reassembled: `slice f i n` is the `n` bytes from index `i`.
use csed353_tcp.Prelude.{
  ℕ, zero, suc, ◌+◌, ◌-◌, ◌≡◌, refl, ap, min, arith, [], ◌∷◌, ◌++◌, Bytes, length, take, drop,
}

abbrev pub slice : (ℕ → ℕ) → ℕ → ℕ → Bytes
slice f i zero = []
slice f i (suc n) = f i ∷ slice f (suc i) n

module _ (f : ℕ → ℕ) where
  pub length-slice : (i n : ℕ) → length (slice f i n) ≡ n
  length-slice i zero = refl
  length-slice i (suc n) = ap suc (length-slice (suc i) n)

  pub slice-append : (i a b : ℕ) → slice f i a ++ slice f (i + a) b ≡ slice f i (a + b)
  slice-append i zero b = ground arith
  slice-append i (suc a) b =
      let e : suc a + b ≡ suc (a + b) = omega arith in
      let e' : i + suc a ≡ suc i + a = omega arith in
      rw (e, e') (ap (◌∷◌ (f i)) (slice-append (suc i) a b))

  pub take-slice : (k i n : ℕ) → take k (slice f i n) ≡ slice f i (min k n)
  take-slice zero i n = ground arith
  take-slice (suc k) i zero = ground arith
  take-slice (suc k) i (suc n) =
      let e : min (suc k) (suc n) ≡ suc (min k n) = omega arith in
      rw e (ap (◌∷◌ (f i)) (take-slice k (suc i) n))

  pub drop-slice : (k i n : ℕ) → drop k (slice f i n) ≡ slice f (i + k) (n - k)
  drop-slice zero i n = ground arith
  drop-slice (suc k) i zero = ground arith
  drop-slice (suc k) i (suc n) = ground (arith, drop-slice k (suc i) n)
