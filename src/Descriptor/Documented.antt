-- ===== src/Descriptor/Documented.antt =====
-- What the views of libsponge/util/buffer.cc show, and what is documented of the system calls of
-- libsponge/util/file_descriptor.cc that write them.
use csed353_tcp.Prelude.{
  ℕ, zero, suc, ◌+◌, ◌-◌, ◌≤◌, ◌<◌, ◌≡◌, refl, sym, ap, ◌∙◌, some, [], ◌∷◌, ◌++◌, append_assoc,
  arith, ltb, ◌==◌, Bytes, length, take, drop, add64, u64_mod, length-append, Bool-cases, inl, inr,
}
use csed353_tcp.Buffer.{BufferViewList, view_size_from, view_remove_prefix}
use csed353_tcp.Buffer.Views.{drop-append, drop_past, drop-nil}
use csed353_tcp.Descriptor.{Kernel, How}

-- The bytes that a list of views shows.
abbrev pub shown : BufferViewList → Bytes
shown [] = []
shown (v ∷ vs) = v ++ shown vs

pub view_size_from_lem :
    (vs : BufferViewList) (ret : ℕ)
    → ret + length (shown vs) < u64_mod
    → view_size_from vs ret ≡ ret + length (shown vs)
unfolding view_size_from
view_size_from_lem [] ret h = omega arith
view_size_from_lem (v ∷ vs) ret h =
    let len = length-append v (shown vs) in
    let e : add64 ret (length v) ≡ ret + length v = omega (arith, len, h) in
    rw e (omega (arith, len, view_size_from_lem vs (ret + length v) (omega (arith, len, h))))

-- Removing a prefix that the views have.
pub view_remove_prefix_lem :
    (vs : BufferViewList) (n : ℕ)
    → n ≤ length (shown vs)
    → (ws : BufferViewList) × (view_remove_prefix vs n ≡ some ws) × (shown ws ≡ drop n (shown vs))
unfolding view_remove_prefix
view_remove_prefix_lem [] n h =
    let z : n ≡ 0 = omega (arith, h) in ([], rw z refl, sym (drop-nil n))
view_remove_prefix_lem (v ∷ vs) n h = elim (Bool-cases (n == 0)) [
  | inl z ↦ let n0 : n ≡ 0 = ground (arith, z) in (v ∷ vs, rw z refl, rw n0 refl)
  | inr p ↦ elim (Bool-cases (ltb n (length v))) [
    | inl inside ↦
        let lt : n < length v = ground (arith, inside) in
        (drop n v ∷ vs, rw (p, inside) refl, sym (drop-append n v (shown vs) (omega (arith, lt))))
    | inr past ↦
        let ge : length v ≤ n = ground (arith, past) in
        let (ws, e, s) =
          view_remove_prefix_lem vs (n - length v)
            (omega (arith, length-append v (shown vs), h, ge)) in
        (ws, rw (p, past) e, s ∙ sym (drop_past n v (shown vs) ge))
  ]
]

pub take-take :
    (m n : ℕ) (xs : Bytes) → m ≤ length xs → take m xs ++ take n (drop m xs) ≡ take (m + n) xs
take-take zero n xs h = ground arith
take-take (suc m) n [] h = absurd (omega arith)
take-take (suc m) n (x ∷ xs) h =
    let e : suc m + n ≡ suc (m + n) = omega arith in
    rw e (ap (◌∷◌ x) (take-take m n xs (omega arith)))

-- What two rounds have sent.
pub joined :
    (x y z bytes left : Bytes) (m i : ℕ)
    → z ≡ y ++ take i left
    → left ≡ drop m bytes
    → y ≡ x ++ take m bytes
    → m ≤ length bytes
    → z ≡ x ++ take (m + i) bytes
joined x y z bytes left m i later s now h =
    later
    ∙ ap (◌++◌ y) (ap (take i) s)
    ∙ ap (λ (u : Bytes). u ++ take i (drop m bytes)) now
    ∙ append_assoc x (take m bytes) (take i (drop m bytes))
    ∙ ap (◌++◌ x) (take-take m i bytes h)

-- What is documented of `writev`: it puts the first of the bytes that it is given, as many as it says,
-- behind those that have been sent on the descriptor; and of `shutdown`, that it takes none of them back.
pub record IsStream {W : Type 0} (k : Kernel W) (sent : W → ℕ → Bytes) : Type 0 where
  pub writev_sends :
      (w : W) (fd : ℕ) (vs : BufferViewList) (w' : W) (n : ℕ)
      → k.writev w fd vs ≡ some (w', n)
      → sent w' fd ≡ sent w fd ++ take n (shown vs)
  pub shutdown_keeps :
      (w : W) (fd : ℕ) (how : How) (w' : W) → k.shutdown w fd how ≡ some w' → sent w' fd ≡ sent w fd

-- What is documented of `writev` on a blocking descriptor that does not fail: where there are bytes it
-- takes at least one, and never more than there are.
pub record IsBlocking {W : Type 0} (k : Kernel W) (fd : ℕ) : Type 0 where
  pub writev_takes :
      (w : W) (vs : BufferViewList)
      → (w' : W) × (n : ℕ) × (k.writev w fd vs ≡ some (w', n))
        × (n ≤ length (shown vs))
        × (0 < length (shown vs) → 0 < n)
