-- ===== src/Checksum/Sums.antt =====
-- The Internet checksum of libsponge/util/util.cc against sums of 16-bit words.
use csed353_tcp.Prelude.{
  ℕ, zero, suc, ◌+◌, ◌-◌, ◌*◌, ◌/◌, ◌%◌, ◌≤◌, ◌<◌, ◌≡◌, ◌↔◌, refl, Bool, true, false, not, [], ◌∷◌,
  ◌++◌, arith, length, ltb, if◌then◌else◌, Bytes, u32_mod, u16_mod, Bool-cases, inl, inr,
}
use csed353_tcp.Parser.Ints.{bytes8, bytes16, bytes32}
use csed353_tcp.Parser.Unparser.{zeros}
use csed353_tcp.Checksum.{InternetChecksum, add, fold, value}

abbrev pub AllBytes : Bytes → Type 0
AllBytes [] = Unit
AllBytes (b ∷ bytes) = (b < 256) × AllBytes bytes

-- The sum of the words, with no wrap; `parity` says that the first byte is the low one of a word.
unfoldable pub word_sum : Bool → Bytes → ℕ
word_sum parity [] = 0
word_sum parity (b ∷ bytes) = (if parity then b else b * 256) + word_sum (not parity) bytes

-- The parity after some bytes.
unfoldable pub flips : Bool → Bytes → Bool
flips parity [] = parity
flips parity (b ∷ bytes) = flips (not parity) bytes

pub add_lem :
    (bytes : Bytes) (s : ℕ) (parity : Bool)
    → AllBytes bytes
    → s + word_sum parity bytes < u32_mod
    → add (record { sum = s; parity = parity }) bytes
      ≡ record { sum = s + word_sum parity bytes; parity = flips parity bytes }
unfolding add word_sum flips
add_lem [] s parity all h = ground arith
add_lem (b ∷ bytes) s true all h =
    let e : (s + b) % u32_mod ≡ s + b = omega (arith, h) in
    let a : s + (b + word_sum false bytes) ≡ s + b + word_sum false bytes = omega arith in
    rw (e, a) (add_lem bytes (s + b) false all.1 (omega (arith, h)))
add_lem (b ∷ bytes) s false all h =
    let e : (s + b * 256 % u16_mod) % u32_mod ≡ s + b * 256 = omega (arith, h, all.0) in
    let a : s + (b * 256 + word_sum true bytes) ≡ s + b * 256 + word_sum true bytes = omega arith in
    rw (e, a) (add_lem bytes (s + b * 256) true all.1 (omega (arith, h)))

-- The loop has ended after two rounds, on a number that is congruent to the sum modulo 0xffff.
fold_lem :
    (s : ℕ)
    → s < u32_mod
    → (q : ℕ) × (s ≡ 0xffff * q + fold 2 s) × (fold 2 s ≤ 0xffff) × (0 < s → 0 < fold 2 s)
unfolding fold
fold_lem s h = elim (Bool-cases (ltb 0xffff s)) [
  | inl large ↦
      let once : ℕ = s / u16_mod + s % u16_mod in
      elim (Bool-cases (ltb 0xffff once)) [
        | inl again ↦
            let e : fold 2 s ≡ once / u16_mod + once % u16_mod = ground (arith, large, again) in
            let g : 0xffff < once = ground (arith, again) in
            (
              s / u16_mod + once / u16_mod,
              omega (arith, e),
              omega (arith, e),
              λ p. omega (arith, e, g),
            )
        | inr done ↦
            let e : fold 2 s ≡ once = ground (arith, large, done) in
            let g : once ≤ 0xffff = ground (arith, done) in
            (s / u16_mod, omega (arith, e), omega (arith, e, g), λ p. omega (arith, e, p))
      ]
  | inr small ↦
      let e : fold 2 s ≡ s = ground (arith, small) in
      let g : s ≤ 0xffff = ground (arith, small) in
      (0, omega (arith, e), omega (arith, e, g), λ p. omega (arith, e, p))
]

-- The checksum of a sum of 32 bits is 0 exactly when the sum is a positive multiple of 0xffff.
pub value-zero_iff :
    (c : InternetChecksum) → c.sum < u32_mod → (value c ≡ 0) ↔ ((0 < c.sum) × (c.sum % 0xffff ≡ 0))
unfolding value
value-zero_iff c h =
    let (q, e, le, pos) = fold_lem c.sum h in
    (
      λ z. (omega (arith, e, le, z), omega (arith, e, le, z)),
      λ (p, m). omega (arith, e, le, pos p, m),
    )

pub value_le : (c : InternetChecksum) → value c ≤ 0xffff
unfolding value
value_le c = omega arith

-- Adding the checksum of a sum to that sum gives a sum whose checksum is 0.
pub value_fills :
    (s : ℕ) (p p' : Bool)
    → s + 0xffff < u32_mod
    → value (record { sum = s + value (record { sum = s; parity = p }); parity = p' }) ≡ 0
unfolding value
value_fills s p p' h =
    let (q, e, le, pos) = fold_lem s (omega (arith, h)) in
    let v : value (record { sum = s; parity = p }) ≡ 0xffff - fold 2 s = omega (arith, le) in
    (value-zero_iff (record { sum = s + value (record { sum = s; parity = p }); parity = p' })
        (omega (arith, v, h))).1
      (omega (arith, e, v), omega (arith, e, v, le))

-- Words that stand in a row: after an even number of bytes the parity is as before.
pub word_sum-append :
    (xs ys : Bytes) (parity : Bool)
    → word_sum parity (xs ++ ys) ≡ word_sum parity xs + word_sum (flips parity xs) ys
unfolding word_sum flips
word_sum-append [] ys parity = omega arith
word_sum-append (x ∷ xs) ys parity = omega (arith, word_sum-append xs ys (not parity))

pub AllBytes-append : (xs ys : Bytes) → AllBytes xs → AllBytes ys → AllBytes (xs ++ ys)
AllBytes-append [] ys a b = b
AllBytes-append (x ∷ xs) ys a b = (a.0, AllBytes-append xs ys a.1 b)

-- Two bytes add at most 0xffff, whatever the parity at the start.
pub word_sum_le :
    (bytes : Bytes) (parity : Bool) → AllBytes bytes → word_sum parity bytes ≤ 0xff00 * length bytes
unfolding word_sum
word_sum_le [] parity a = omega arith
word_sum_le (b ∷ bytes) true a = omega (arith, a.0, word_sum_le bytes false a.1)
word_sum_le (b ∷ bytes) false a = omega (arith, a.0, word_sum_le bytes true a.1)

pub add-append : (c : InternetChecksum) (xs ys : Bytes) → add (add c xs) ys ≡ add c (xs ++ ys)
unfolding add
add-append c [] ys = refl
add-append c (x ∷ xs) ys =
    add-append
      (record {
        sum = (c.sum + (if not c.parity then x * 256 % u16_mod else x)) % u32_mod;
        parity = not c.parity;
      })
      xs ys

-- Whole words at the front.
pub word_sum-bytes16 :
    (v : ℕ) (rest : Bytes)
    → v < u16_mod
    → word_sum false (bytes16 v ++ rest) ≡ v + word_sum false rest
unfolding word_sum bytes16
word_sum-bytes16 v rest h = omega arith

pub word_sum-bytes32 :
    (v : ℕ) (rest : Bytes)
    → v < u32_mod
    → word_sum false (bytes32 v ++ rest) ≡ v / u16_mod + v % u16_mod + word_sum false rest
unfolding word_sum bytes32
word_sum-bytes32 v rest h = omega arith

pub word_sum-bytes8 :
    (a b : ℕ) (rest : Bytes)
    → a < 256
    → b < 256
    → word_sum false (bytes8 a ++ (bytes8 b ++ rest)) ≡ a * 256 + b + word_sum false rest
unfolding word_sum bytes8
word_sum-bytes8 a b rest ha hb = omega arith

pub bytes8-AllBytes : (v : ℕ) (rest : Bytes) → AllBytes rest → AllBytes (bytes8 v ++ rest)
unfolding bytes8
bytes8-AllBytes v rest h = (omega arith, h)

pub bytes16-AllBytes : (v : ℕ) (rest : Bytes) → AllBytes rest → AllBytes (bytes16 v ++ rest)
unfolding bytes16
bytes16-AllBytes v rest h = (omega arith, (omega arith, h))

pub bytes32-AllBytes : (v : ℕ) (rest : Bytes) → AllBytes rest → AllBytes (bytes32 v ++ rest)
unfolding bytes32
bytes32-AllBytes v rest h = (omega arith, (omega arith, (omega arith, (omega arith, h))))

pub zeros-AllBytes : (n : ℕ) → AllBytes (zeros n)
zeros-AllBytes zero = tt
zeros-AllBytes (suc n) = (omega arith, zeros-AllBytes n)

fold_done : (fuel ret : ℕ) → ret ≤ 0xffff → fold fuel ret ≡ ret
unfolding fold
fold_done zero ret h = refl
fold_done (suc fuel) ret h = ground (arith, h)

-- Two rounds are enough: of a sum of 32 bits the loop leaves at most 16 bits, and with fuel for more
-- rounds it gives the same.
pub fold_terminates :
    (s fuel : ℕ) → s < u32_mod → (fold 2 s ≤ 0xffff) × (fold (suc (suc fuel)) s ≡ fold 2 s)
unfolding fold
fold_terminates s fuel h =
    let (q, e, le, pos) = fold_lem s h in
    let once : ℕ = s / u16_mod + s % u16_mod in
    let twice : ℕ = once / u16_mod + once % u16_mod in
    let done : fold fuel twice ≡ twice = fold_done fuel twice (omega (arith, h)) in
    (le, ground (arith, h, done))
