-- ===== src/Descriptor/Writes.antt =====
-- The loop of `write` in libsponge/util/file_descriptor.cc, over system calls that keep the documented
-- behaviour of `writev`.
use csed353_tcp.Prelude.{
  ℕ, zero, suc, ◌+◌, ◌≤◌, ◌<◌, ◌≡◌, refl, sym, ap, ◌∙◌, subst, Bool, true, false, not, ◌&&◌, Option,
  none, some, ◌++◌, arith, ltb, ◌==◌, if◌then◌else◌, ◌>>=◌, Bytes, length, take, drop, add64,
  u64_mod, length-drop, take_all, Bool-cases, inl, inr, bind-eq-some, some-injective,
}
use csed353_tcp.Buffer.{BufferViewList, view_size_from, view_remove_prefix}
use csed353_tcp.Descriptor.{Kernel, FdWrapper, write, write_loop, register_write}
use csed353_tcp.Descriptor.Documented.{
  shown, view_size_from_lem, view_remove_prefix_lem, joined, IsStream, IsBlocking,
}

module _ {W : Type 0} (k : Kernel W) where
  -- What follows `writev` in one round.
  after :
      (next : FdWrapper → W → BufferViewList → ℕ → Option (FdWrapper × (W × ℕ))) (d : FdWrapper)
      (vs : BufferViewList) (b : Bool) (total : ℕ)
      → W × ℕ
      → Option (FdWrapper × (W × ℕ))
  after next d vs b total (w', m) =
      if m == 0 && not (view_size_from vs 0 == 0)
      then none
      else if ltb (view_size_from vs 0) m
      then none
      else (view_remove_prefix vs m >>= λ left. elim (b && not (view_size_from left 0 == 0)) [
        | true ↦ next (register_write d) w' left (add64 total m)
        | false ↦ some (register_write d, (w', add64 total m))
      ])

  loop_after :
      (rounds : ℕ) (d : FdWrapper) (w : W) (vs : BufferViewList) (b : Bool) (total : ℕ)
      → write_loop k (suc rounds) d w vs b total
        ≡ (k.writev w d.fd vs >>= after (λ e v ws t. write_loop k rounds e v ws b t) d vs b total)
  unfolding write_loop after
  loop_after rounds d w vs b total = refl

  -- How a round goes on with what is left.
  goes_on :
      (next : FdWrapper → W → BufferViewList → ℕ → Option (FdWrapper × (W × ℕ))) (d : FdWrapper)
      (w' : W) (b : Bool) (total : ℕ)
      → BufferViewList
      → Option (FdWrapper × (W × ℕ))
  goes_on next d w' b total left = elim (b && not (length (shown left) == 0)) [
    | true ↦ next (register_write d) w' left total
    | false ↦ some (register_write d, (w', total))
  ]

  module _ (next : FdWrapper → W → BufferViewList → ℕ → Option (FdWrapper × (W × ℕ)))
      (d : FdWrapper) (vs : BufferViewList) (b : Bool) (total : ℕ) (w' : W) (m : ℕ)
      (small : length (shown vs) < u64_mod) where
    fits :
        m ≤ length (shown vs)
        → (0 < length (shown vs) → 0 < m)
        → (left : BufferViewList) × (shown left ≡ drop m (shown vs))
          × (after next d vs b total (w', m) ≡ goes_on next d w' b (add64 total m) left)
    unfolding after goes_on
    fits h pos =
        let (left, e, s) = view_remove_prefix_lem vs m h in
        let z = view_size_from_lem vs 0 (omega (arith, small)) in
        let zl : view_size_from left 0 ≡ length (shown left) = omega (
          arith,
          view_size_from_lem left 0 (omega (arith, small, length-drop m (shown vs), ap length s)),
        ) in
        let t1 : (m == 0 && not (view_size_from vs 0 == 0)) ≡ false = ground (arith, z, pos) in
        let t2 : ltb (view_size_from vs 0) m ≡ false = ground (arith, z, h) in
        (left, s, rw (t1, t2, e) (rw (zl, ◌>>=◌) refl))

    returned :
        (r : FdWrapper × (W × ℕ))
        → after next d vs b total (w', m) ≡ some r
        → (m ≤ length (shown vs)) × (0 < length (shown vs) → 0 < m)
    unfolding after
    returned r h =
        let z = view_size_from_lem vs 0 (omega (arith, small)) in
        elim (Bool-cases (m == 0 && not (view_size_from vs 0 == 0))) [
          | inl bad ↦ absurd (ground (arith, bad, h))
          | inr ok ↦ elim (Bool-cases (ltb (view_size_from vs 0) m)) [
            | inl bad ↦ absurd (ground (arith, bad, ok, h))
            | inr good ↦ (ground (arith, good, z), λ p. ground (arith, ok, z, p))
          ]
        ]

  Sent : (FdWrapper × (W × ℕ)) → (sent : W → ℕ → Bytes) → FdWrapper → W → Bytes → Bool → ℕ → Type 0
  Sent (d', (w', n)) sent d w bytes b total =
      (m : ℕ) × (n ≡ total + m)
      × (m ≤ length bytes)
      × (b ≡ true → m ≡ length bytes)
      × (sent w' d.fd ≡ sent w d.fd ++ take m bytes)

  loop_sent :
      {sent : W → ℕ → Bytes} (stream : IsStream k sent) (rounds : ℕ) (d : FdWrapper) (w : W)
      (vs : BufferViewList) (b : Bool) (total : ℕ) (r : FdWrapper × (W × ℕ))
      → total + length (shown vs) < u64_mod
      → write_loop k rounds d w vs b total ≡ some r
      → Sent r sent d w (shown vs) b total
  unfolding Sent goes_on register_write
  loop_sent stream zero d w vs b total r small h =
      let bad : none ≡ some r = unfold write_loop in h in cc
  loop_sent {sent} stream (suc rounds) d w vs b total r small h =
      let next =
        λ (e : FdWrapper) (v : W) (ws : BufferViewList) (t : ℕ). write_loop k rounds e v ws b t in
      let ((w', m), e, a) =
        bind-eq-some (k.writev w d.fd vs) (after next d vs b total) r
          (sym (loop_after rounds d w vs b total) ∙ h) in
      let one : length (shown vs) < u64_mod = omega (arith, small) in
      let (m_le, pos) = returned next d vs b total w' m one r a in
      let (left, s, step) = fits next d vs b total w' m one m_le pos in
      let went : goes_on next d w' b (add64 total m) left ≡ some r = sym step ∙ a in
      let now = stream.writev_sends w d.fd vs w' m e in
      let sum : add64 total m ≡ total + m = omega (arith, small, m_le) in
      let len = length-drop m (shown vs) in
      elim (Bool-cases (b && not (length (shown left) == 0))) [
        | inr stop ↦
            let er : (register_write d, (w', add64 total m)) ≡ r =
              some-injective (sym (rw (stop, goes_on) refl) ∙ went) in
            subst (λ q. Sent q sent d w (shown vs) b total) er
              (m, sum, m_le, (λ all. ground (arith, stop, all, len, ap length s)), now)
        | inl more ↦
            let er : write_loop k rounds (register_write d) w' left b (add64 total m) ≡ some r =
              sym (rw (more, goes_on) refl) ∙ went in
            let (i, n_eq, i_le, whole, later) =
              loop_sent stream rounds (register_write d) w' left b (add64 total m) r
                (omega (arith, sum, small, ap length s, len)) er in
            (
              m + i,
              omega (arith, n_eq, sum),
              omega (arith, i_le, ap length s, len),
              (λ all. omega (arith, whole all, ap length s, len, m_le)),
              joined (sent w d.fd) _ _ (shown vs) _ m i later s now m_le,
            )
      ]

  -- Enough rounds for the bytes that are left: each of the others takes at least one.
  loop_returns :
      (rounds : ℕ) (d : FdWrapper) (w : W) (vs : BufferViewList) (b : Bool) (total : ℕ)
      → IsBlocking k d.fd
      → length (shown vs) < u64_mod
      → length (shown vs) < rounds
      → (r : FdWrapper × (W × ℕ)) × (write_loop k rounds d w vs b total ≡ some r)
  unfolding register_write goes_on fits
  loop_returns zero d w vs b total takes small h = absurd (omega arith)
  loop_returns (suc rounds) d w vs b total takes small h =
      let next =
        λ (e : FdWrapper) (v : W) (ws : BufferViewList) (t : ℕ). write_loop k rounds e v ws b t in
      let (w', m, e, m_le, pos) = takes.writev_takes w vs in
      let (left, s, step) = fits next d vs b total w' m small m_le pos in
      let start : write_loop k (suc rounds) d w vs b total
          ≡ goes_on next d w' b (add64 total m) left =
        loop_after rounds d w vs b total ∙ rw e step in
      let len = length-drop m (shown vs) in
      elim (Bool-cases (b && not (length (shown left) == 0))) [
        | inr stop ↦ ((register_write d, (w', add64 total m)), start ∙ rw (stop, goes_on) refl)
        | inl more ↦
            let some_left : 0 < length (shown left) = ground (arith, more) in
            let (r, er) =
              loop_returns rounds (register_write d) w' left b (add64 total m) takes
                (omega (arith, small, ap length s, len))
                (omega (arith, h, ap length s, len, some_left, pos)) in
            (r, start ∙ rw (more, goes_on) er)
      ]

module _ {W : Type 0} (k : Kernel W) (d : FdWrapper) (w : W) (vs : BufferViewList)
    (small : length (shown vs) < u64_mod) where
  -- Over a `writev` as it is documented, a write of less than 2 ^ 64 bytes that returns has sent the first of
  -- the bytes, in their order, as many as it says; with `write_all` they are all of them, whatever the
  -- single calls have taken.
  pub write-sends :
      {sent : W → ℕ → Bytes}
      → IsStream k sent
      → (b : Bool) (d' : FdWrapper) (w' : W) (n : ℕ) → write k d w vs b ≡ some (d', (w', n))
      → (n ≤ length (shown vs))
        × (n ≡ (if b then length (shown vs) else n))
        × (sent w' d.fd ≡ sent w d.fd ++ take n (shown vs))
  unfolding write Sent
  write-sends {sent} stream b d' w' n h =
      let (m, n_eq, m_le, whole, now) =
        loop_sent k stream (suc (view_size_from vs 0)) d w vs b 0 _ (omega (arith, small)) h in
      (
        omega (arith, n_eq, m_le),
        elim (Bool-cases b) [
          | inl y ↦ rw y (omega (arith, n_eq, whole y))
          | inr part ↦ rw part refl
        ],
        now ∙ ap (λ (i : ℕ). sent w d.fd ++ take i (shown vs)) (omega (arith, n_eq)),
      )

  -- What a single `writev` has done.
  pub write_once :
      (d' : FdWrapper) (w' : W) (n : ℕ)
      → write k d w vs false ≡ some (d', (w', n))
      → (k.writev w d.fd vs ≡ some (w', n))
        × (n ≤ length (shown vs))
        × (0 < length (shown vs) → 0 < n)
        × (d' ≡ register_write d)
  unfolding write goes_on
  write_once d' w' n h =
      let rounds : ℕ = view_size_from vs 0 in
      let next = λ (e : FdWrapper) (v : W) (ws : BufferViewList) (t : ℕ).
        write_loop k rounds e v ws false t in
      let ((v, m), e, a) =
        bind-eq-some (k.writev w d.fd vs) (after k next d vs false 0) _
          (sym (loop_after k rounds d w vs false 0) ∙ h) in
      let (m_le, pos) = returned k next d vs false 0 v m small _ a in
      let (left, s, step) = fits k next d vs false 0 v m small m_le pos in
      let q : FdWrapper × (W × ℕ) = (d', (w', n)) in
      let r : (register_write d, (v, add64 0 m)) ≡ q = some-injective (sym step ∙ a) in
      let sum : add64 0 m ≡ m = omega (arith, small, m_le) in
      let same : m ≡ n = sym sum ∙ ap (λ (x : FdWrapper × (W × ℕ)). x.1.1) r in
      (e ∙ cc r, omega (arith, same, m_le), (λ p. omega (arith, same, pos p)), cc r)

  -- On a blocking descriptor on which `writev` does as it is documented and does not fail, a write with
  -- `write_all` of less than 2 ^ 64 bytes returns, says that it has written all of them, and has sent them in
  -- their order, whatever the single calls have taken.
  pub write_all_lem :
      {sent : W → ℕ → Bytes}
      → IsStream k sent
      → IsBlocking k d.fd
      → (d' : FdWrapper) × (w' : W) × (write k d w vs true ≡ some (d', (w', length (shown vs))))
        × (sent w' d.fd ≡ sent w d.fd ++ shown vs)
  unfolding write
  write_all_lem {sent} stream takes =
      let size = view_size_from_lem vs 0 (omega (arith, small)) in
      let ((d', (w', n)), e) =
        loop_returns k (suc (view_size_from vs 0)) d w vs true 0 takes small
          (omega (arith, size)) in
      let (n_le, all, now) = write-sends stream true d' w' n e in
      let whole = all in
      (
        d',
        w',
        e ∙ ap (λ (i : ℕ). some (d', (w', i))) whole,
        now ∙ ap (◌++◌ (sent w d.fd)) (take_all n (shown vs) (omega (arith, whole))),
      )
