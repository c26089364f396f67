-- ===== src/Descriptor/Counts.antt =====
-- What a write in libsponge/util/file_descriptor.cc leaves of the descriptor's counts.
use csed353_tcp.Prelude.{
  ℕ, zero, suc, ◌≡◌, refl, sym, ap, ◌∙◌, Bool, true, false, not, ◌&&◌, Option, none, some, ltb,
  ◌==◌, ◌>>=◌, add64, if_lem, bind-eq-some, some-injective,
}
use csed353_tcp.Buffer.{BufferViewList, view_size_from, view_remove_prefix}
use csed353_tcp.Descriptor.{Kernel, FdWrapper, write, write_loop, register_write}

module _ {W : Type 0} (k : Kernel W) (count : ℕ) where
  -- Where it returns, the count of reads is `count`.
  abbrev Counted : Option (FdWrapper × (W × ℕ)) → Type 0
  Counted o = (r : FdWrapper × (W × ℕ)) → o ≡ some r → r.0.read_count ≡ count

  none-Counted : Counted none
  none-Counted r h = absurd (let bad : none ≡ some r = h in cc)

  bind-Counted :
      {A : Type 0} (m : Option A) (f : A → Option (FdWrapper × (W × ℕ)))
      → ((a : A) → Counted (f a))
      → Counted (m >>= f)
  bind-Counted m f each r h = let (a, _, e) = bind-eq-some m f r h in each a r e

  write_loop-Counted :
      (rounds : ℕ) (d : FdWrapper) (w : W) (vs : BufferViewList) (b : Bool) (total : ℕ)
      → d.read_count ≡ count
      → Counted (write_loop k rounds d w vs b total)
  unfolding write_loop register_write
  write_loop-Counted zero d w vs b total c = none-Counted
  write_loop-Counted (suc rounds) d w vs b total c =
      bind-Counted (k.writev w d.fd vs) _ λ (x : W × ℕ).
        if_lem Counted (x.1 == 0 && not (view_size_from vs 0 == 0)) none-Counted (
          if_lem Counted (ltb (view_size_from vs 0) x.1) none-Counted (
            bind-Counted (view_remove_prefix vs x.1) _ λ left.
              elim (b && not (view_size_from left 0 == 0))
                as (λ t. Counted (elim t [
                  | true ↦ write_loop k rounds (register_write d) x.0 left b (add64 total x.1)
                  | false ↦ some (register_write d, (x.0, add64 total x.1))
                ])) [
                  | true ↦
                      write_loop-Counted rounds (register_write d) x.0 left b (add64 total x.1) c
                  | false ↦ λ r h.
                      ap (λ (y : FdWrapper × (W × ℕ)). y.0.read_count) (sym (some-injective h)) ∙ c
                ]))

-- A write counts no read.
pub write-read_count :
    {W : Type 0} (k : Kernel W) (d : FdWrapper) (w : W) (vs : BufferViewList) (b : Bool)
    (r : FdWrapper × (W × ℕ))
    → write k d w vs b ≡ some r
    → r.0.read_count ≡ d.read_count
unfolding write
write-read_count k d w vs b r h =
    write_loop-Counted k d.read_count (suc (view_size_from vs 0)) d w vs b 0 refl r h
