-- ===== src/Buffer/Views.antt =====
-- What the buffers of libsponge/util/buffer.cc show.
use csed353_tcp.Prelude.{
  ℕ, zero, suc, ◌+◌, ◌-◌, ◌≤◌, ◌<◌, ◌≡◌, refl, subst, sym, ◌∙◌, none, some, Option, [], ◌∷◌, ◌++◌,
  arith, length, drop, ltb, ◌==◌, ◌>>=◌, Bytes, u64_mod, add64, Bool-cases, inl, inr, length-append,
  length-drop, drop_all,
}
use csed353_tcp.Buffer.{
  Buffer, str, size, remove_prefix, BufferList, concatenate, list_remove_prefix, views,
  view_remove_prefix, list_size, size_from,
}

-- The bytes of a storage fit in memory, and the offset lies within it.
abbrev pub IsValid : Buffer → Type 0
IsValid b = elim b.storage [
  | none ↦ Unit {0}
  | some bytes ↦ (b.starting_offset ≤ length bytes) × (length bytes < u64_mod)
]

pub drop-nil : (n : ℕ) → drop {A = ℕ} n [] ≡ []
drop-nil zero = refl
drop-nil (suc n) = refl

drop-drop : (m n : ℕ) (xs : Bytes) → drop n (drop m xs) ≡ drop (m + n) xs
drop-drop zero n xs = ground arith
drop-drop (suc m) n [] = drop-nil n ∙ sym (drop-nil (suc m + n))
drop-drop (suc m) n (x ∷ xs) =
    let e : suc m + n ≡ suc (m + n) = omega arith in rw e (drop-drop m n xs)

-- Removing a prefix that the buffer has drops it from what the buffer shows.
Removed : Buffer → ℕ → Type 0
Removed b n = (c : Buffer) × (remove_prefix b n ≡ some c) × (str c ≡ drop n (str b)) × IsValid c

removed :
    (o : Option Bytes) (offset n : ℕ)
    → IsValid (record { storage = o; starting_offset = offset })
    → n ≤ size (record { storage = o; starting_offset = offset })
    → Removed (record { storage = o; starting_offset = offset }) n
unfolding Removed size str remove_prefix
removed none offset n v h = (
  record { storage = none; starting_offset = add64 offset n },
  ground arith,
  sym (drop-nil n),
  tt,
)
removed (some bytes) offset n v h =
    let len = length-drop offset bytes in
    let sum : add64 offset n ≡ offset + n = omega (arith, v.0, v.1) in
    elim (Bool-cases (offset + n == length bytes)) [
      | inl whole ↦ (
        record { storage = none; starting_offset = add64 offset n },
        ground (arith, len, sum, whole),
        sym (drop_all n (drop offset bytes) (ground (arith, len, whole))),
        tt,
      )
      | inr part ↦ (
        record { storage = some bytes; starting_offset = add64 offset n },
        ground (arith, len, sum, part),
        rw sum (sym (drop-drop offset n bytes)),
        (omega (arith, sum, len, v.0), v.1),
      )
    ]

-- Removing a prefix that the buffer has drops it from what the buffer shows.
pub str-remove_prefix :
    (b : Buffer) (n : ℕ)
    → IsValid b
    → n ≤ size b
    → (c : Buffer) × (remove_prefix b n ≡ some c) × (str c ≡ drop n (str b)) × IsValid c
unfolding Removed
str-remove_prefix b n v h = removed b.storage b.starting_offset n v h

abbrev pub AllValid : BufferList → Type 0
AllValid [] = Unit
AllValid (b ∷ bs) = IsValid b × AllValid bs

pub drop-append : (n : ℕ) (xs ys : Bytes) → n ≤ length xs → drop n (xs ++ ys) ≡ drop n xs ++ ys
drop-append zero xs ys h = refl
drop-append (suc n) [] ys h = absurd (omega arith)
drop-append (suc n) (x ∷ xs) ys h = drop-append n xs ys (omega arith)

pub drop_past :
    (n : ℕ) (xs ys : Bytes) → length xs ≤ n → drop n (xs ++ ys) ≡ drop (n - length xs) ys
drop_past n [] ys h = ground arith
drop_past zero (x ∷ xs) ys h = absurd (omega arith)
drop_past (suc n) (x ∷ xs) ys h =
    let e : suc n - suc (length xs) ≡ n - length xs = omega arith in
    rw e (drop_past n xs ys (omega arith))

-- What is left of a list of buffers: an exception exactly where there are too few bytes.
abbrev pub Left : BufferList → ℕ → Option BufferList → Type 0
Left bs n none = length (concatenate bs) < n
Left bs n (some cs) =
    (n ≤ length (concatenate bs)) × (concatenate cs ≡ drop n (concatenate bs)) × AllValid cs

-- Past the first buffer.
further :
    (b : Buffer) (bs : BufferList) (n : ℕ) (r : Option BufferList)
    → size b ≤ n
    → Left bs (n - size b) r
    → Left (b ∷ bs) n r
unfolding size concatenate
further b bs n none ge l = omega (arith, length-append (str b) (concatenate bs), l, ge)
further b bs n (some cs) ge l = (
  omega (arith, length-append (str b) (concatenate bs), l.0, ge),
  l.1 ∙ sym (drop_past n (str b) (concatenate bs) ge),
  l.2,
)

-- Removing a prefix from a list of valid buffers drops it from the whole string that they show, across
-- the borders of the buffers, and leaves valid buffers; it throws exactly when the string is shorter.
pub list_remove_prefix-Left :
    (bs : BufferList) (n : ℕ) → AllValid bs → Left bs n (list_remove_prefix bs n)
unfolding list_remove_prefix concatenate size
list_remove_prefix-Left [] n v = elim (Bool-cases (n == 0)) [
  | inl z ↦
      let e : some [] ≡ list_remove_prefix [] n = ground (arith, z) in
      subst (Left [] n) e (ground (arith, z), sym (drop-nil n), tt)
  | inr p ↦
      let e : none ≡ list_remove_prefix [] n = ground (arith, p) in
      subst (Left [] n) e (ground (arith, p))
]
list_remove_prefix-Left (b ∷ bs) n v =
    let len = length-append (str b) (concatenate bs) in
    elim (Bool-cases (n == 0)) [
      | inl z ↦
          let e : some (b ∷ bs) ≡ list_remove_prefix (b ∷ bs) n = ground (arith, z) in
          let n0 : n ≡ 0 = ground (arith, z) in
          subst (Left (b ∷ bs) n) e (omega (arith, n0), rw n0 refl, v)
      | inr p ↦ elim (Bool-cases (ltb n (size b))) [
        | inl inside ↦
            let lt : n < size b = ground (arith, inside) in
            let (c, r, shown, ok) = str-remove_prefix b n v.0 (omega (arith, lt)) in
            let e : some (c ∷ bs) ≡ list_remove_prefix (b ∷ bs) n = ground (arith, p, inside, r) in
            subst (Left (b ∷ bs) n) e (
              omega (arith, len, lt),
              rw shown (sym (drop-append n (str b) (concatenate bs) (omega (arith, lt)))),
              (ok, v.1),
            )
        | inr past ↦
            let e : list_remove_prefix bs (n - size b) ≡ list_remove_prefix (b ∷ bs) n =
              ground (arith, p, past) in
            let ge : size b ≤ n = ground (arith, past) in
            subst (Left (b ∷ bs) n) e (
              further b bs n (list_remove_prefix bs (n - size b)) ge
                (list_remove_prefix-Left bs (n - size b) v.1))
      ]
    ]

-- A list of views loses a prefix as the buffers do that it shows, if they are valid.
pub views-list_remove_prefix :
    (bs : BufferList) (n : ℕ)
    → AllValid bs
    → view_remove_prefix (views bs) n ≡ (list_remove_prefix bs n >>= λ cs. some (views cs))
unfolding list_remove_prefix view_remove_prefix views size
views-list_remove_prefix [] n v = ground arith
views-list_remove_prefix (b ∷ bs) n v =
    let ih = views-list_remove_prefix bs (n - size b) v.1 in
    elim (Bool-cases (ltb n (size b))) [
      | inl inside ↦
          let (c, r, shown, ok) = str-remove_prefix b n v.0 (ground (arith, inside)) in
          ground (arith, inside, r, shown)
      | inr past ↦ ground (arith, past, ih)
    ]

size_from_lem :
    (bs : BufferList) (ret : ℕ)
    → ret + length (concatenate bs) < u64_mod
    → size_from bs ret ≡ ret + length (concatenate bs)
unfolding size_from concatenate size
size_from_lem [] ret h = omega arith
size_from_lem (b ∷ bs) ret h =
    let len = length-append (str b) (concatenate bs) in
    let e : add64 ret (length (str b)) ≡ ret + length (str b) = omega (arith, len, h) in
    rw e (omega (arith, len, size_from_lem bs (ret + length (str b)) (omega (arith, len, h))))

-- The size of a list of buffers is that of the string that it shows.
pub list_size_lem :
    (bs : BufferList) → length (concatenate bs) < u64_mod → list_size bs ≡ length (concatenate bs)
unfolding list_size
list_size_lem bs h = omega (arith, size_from_lem bs 0 (omega (arith, h)))
