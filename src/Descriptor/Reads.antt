-- ===== src/Descriptor/Reads.antt =====
-- `read` in libsponge/util/file_descriptor.cc.
use csed353_tcp.Prelude.{
  ℕ, ◌≤◌, ◌≡◌, refl, sym, ap, ◌∙◌, min, true, none, some, Bool, arith, ltb, ltb→le, ◌==◌, ◌&&◌,
  if◌then◌else◌, Bytes, length, Bool-cases, inl, inr, bind-eq-some, some-injective,
}
use csed353_tcp.Descriptor.{Kernel, FdWrapper, read, register_read, buffer_size}

module _ {W : Type 0} (k : Kernel W) where
  -- What a read that returns has done: no more bytes than asked for, one more read, and the end is known
  -- if bytes were asked for and none came.
  pub read_once :
      (d : FdWrapper) (w : W) (limit : ℕ) (d' : FdWrapper) (w' : W) (str : Bytes)
      → read k d w limit ≡ some (d', (w', str))
      → (k.read w d.fd (min buffer_size limit) ≡ some (w', str))
        × (length str ≤ limit)
        × (d'
            ≡ register_read
                (record d { eof = if ltb 0 limit && (length str == 0) then true else d.eof }))
  unfolding read
  read_once d w limit d' w' str h =
      let size_to_read : ℕ = min buffer_size limit in
      let ((v, bytes), e, r) = bind-eq-some (k.read w d.fd size_to_read) _ _ h in
      elim (Bool-cases (ltb size_to_read (length bytes))) [
        | inl y ↦ absurd (let bad : none ≡ some (d', (w', str)) = sym (rw y refl) ∙ r in cc)
        | inr n ↦
            let eof : Bool = if ltb 0 limit && (length bytes == 0) then true else d.eof in
            let res : FdWrapper × (W × Bytes) =
              (register_read (record d { eof = eof }), (v, bytes)) in
            let q : res ≡ (d', (w', str)) = some-injective (sym (rw n refl) ∙ r) in
            let here : bytes ≡ str = ap (λ (x : FdWrapper × (W × Bytes)). x.1.1) q in
            let le : length bytes ≤ size_to_read = ltb→le _ _ n in
            (
              e ∙ ap (λ (x : FdWrapper × (W × Bytes)). some x.1) q,
              omega (arith, le, ap length here),
              sym (ap (λ (x : FdWrapper × (W × Bytes)). x.0) q) ∙ rw here refl,
            )
      ]
