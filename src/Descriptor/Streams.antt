-- ===== src/Descriptor/Streams.antt =====
-- A byte stream of libsponge/byte_stream.cc between two descriptors of libsponge/util/file_descriptor.cc,
-- as the event loops of the library and of its applications use it.
use csed353_tcp.Prelude.{
  ℕ, zero, suc, ◌+◌, ◌≤◌, ◌<◌, ◌≡◌, refl, ap, ◌∙◌, min, true, false, Option, some, [], ◌∷◌, ◌++◌,
  append-nil, append_assoc, arith, leb, ◌==◌, if◌then◌else◌, ◌⊎◌, inl, inr, Bytes, length, take,
  u64_mod, Bool-cases, take-append-drop, length-take, length-drop,
}
use csed353_tcp.ByteStream
use csed353_tcp.ByteStream.{ByteStream}
use csed353_tcp.ByteStream.Laws.{write_fits}
use csed353_tcp.Descriptor.{Kernel, FdWrapper, read, write, register_write}
use csed353_tcp.Descriptor.Reads.{read_once}
use csed353_tcp.Descriptor.Documented.{IsStream, shown}
use csed353_tcp.Descriptor.Writes.{write_once}

take_of_take : (n m : ℕ) (xs : Bytes) → n ≤ m → take n (take m xs) ≡ take n xs
take_of_take zero m xs h = refl
take_of_take (suc n) zero xs h = absurd (omega arith)
take_of_take (suc n) (suc m) [] h = refl
take_of_take (suc n) (suc m) (x ∷ xs) h = ap (◌∷◌ x) (take_of_take n m xs (omega arith))

-- A part of what a peek shows, and what is left once it is popped.
peek_output-pop_output :
    (s : ByteStream) (m n : ℕ)
    → n ≤ length (ByteStream.peek_output s m)
    → (take n (ByteStream.peek_output s m) ++ (ByteStream.pop_output s n).content ≡ s.content)
      × (length (ByteStream.pop_output s n).content + n ≡ length s.content)
unfolding ByteStream.peek_output ByteStream.pop_output
peek_output-pop_output s m n h =
    let size : ℕ = if leb m (length s.content) then m else length s.content in
    let len = length-take size s.content in
    let n_le : n ≤ size = omega (arith, len, h) in
    let in_content : n ≤ length s.content = omega (arith, len, h) in
    let whole : leb n (length s.content) ≡ true = ground (arith, in_content) in
    (
      ap (λ (x : Bytes). x ++ (ByteStream.pop_output s n).content)
            (take_of_take n size s.content n_le)
          ∙ rw whole (take-append-drop n s.content),
      rw whole (omega (arith, length-drop n s.content, in_content)),
    )

pub length-peek_output :
    (s : ByteStream) (m : ℕ) → length (ByteStream.peek_output s m) ≡ min m (length s.content)
unfolding ByteStream.peek_output
length-peek_output s m =
    ground (arith, length-take (if leb m (length s.content) then m else length s.content) s.content)

-- The front of a stream, as far as one write takes it.
abbrev pub offer :
    {W : Type 0} → Kernel W → FdWrapper → W → ByteStream → Option (FdWrapper × (W × ℕ))
offer k d w stream =
    write k d w (ByteStream.peek_output stream (min 65536 (ByteStream.buffer_size stream)) ∷ [])
      false

module _ {W : Type 0} (k : Kernel W) (d : FdWrapper) (w : W) (stream : ByteStream) (d' : FdWrapper)
    (w' : W) (n : ℕ) (offered : offer k d w stream ≡ some (d', (w', n))) where
  small :
      length
        (shown (ByteStream.peek_output stream (min 65536 (ByteStream.buffer_size stream)) ∷ []))
      < u64_mod
  small =
      let amount : ℕ = min 65536 (ByteStream.buffer_size stream) in
      omega (
        arith,
        length-peek_output stream amount,
        ap length (append-nil (ByteStream.peek_output stream amount)),
      )

  -- An offer is one write.
  pub offer-counts : d' ≡ register_write d
  offer-counts = let (_, _, _, reg) = write_once k d w _ small d' w' n offered in reg

  pub offer_call :
      k.writev w d.fd
        (ByteStream.peek_output stream (min 65536 (ByteStream.buffer_size stream)) ∷ [])
      ≡ some (w', n)
  offer_call = let (c, _, _, _) = write_once k d w _ small d' w' n offered in c

-- What an offer that returns has done: what has been sent, followed by what the stream still holds, stays
-- the same bytes, and if the stream held any it holds fewer.
pub offer-conserved :
    {W : Type 0} (k : Kernel W) (sent : W → ℕ → Bytes)
    → IsStream k sent
    → (d : FdWrapper) (w : W) (stream : ByteStream) (d' : FdWrapper) (w' : W) (n : ℕ)
    → offer k d w stream ≡ some (d', (w', n))
    → (sent w' d.fd ++ (ByteStream.pop_output stream n).content ≡ sent w d.fd ++ stream.content)
      × ((length stream.content ≡ 0)
          ⊎ (length (ByteStream.pop_output stream n).content < length stream.content))
      × (d' ≡ register_write d)
unfolding ByteStream.buffer_size
offer-conserved k sent laws d w stream d' w' n h =
    let amount : ℕ = min 65536 (ByteStream.buffer_size stream) in
    let buffer : Bytes = ByteStream.peek_output stream amount in
    let n_size = length-peek_output stream amount in
    let size : length (shown (buffer ∷ [])) ≡ length buffer = ap length (append-nil buffer) in
    let (c, n_le, pos, reg) =
      write_once k d w (buffer ∷ []) (small k d w stream d' w' n h) d' w' n h in
    let (cut, fewer) = peek_output-pop_output stream amount n (omega (arith, size, n_le)) in
    let now : sent w' d.fd ≡ sent w d.fd ++ take n buffer =
      laws.writev_sends w d.fd (buffer ∷ []) w' n c
      ∙ ap (λ (x : Bytes). sent w d.fd ++ take n x) (append-nil buffer) in
    (
      ap (λ (x : Bytes). x ++ (ByteStream.pop_output stream n).content) now
          ∙ append_assoc (sent w d.fd) (take n buffer) (ByteStream.pop_output stream n).content
          ∙ ap (◌++◌ (sent w d.fd)) cut,
      elim (Bool-cases (length stream.content == 0)) [
        | inl z ↦ inl (ground (arith, z))
        | inr some_left ↦
            let p : 0 < length stream.content = ground (arith, some_left) in
            inr (omega (arith, fewer, n_size, size, p, pos))
      ],
      reg,
    )

-- What is read with the room of a stream as its limit is taken whole.
pub read-write_fits :
    {W : Type 0} (k : Kernel W) (d : FdWrapper) (w : W) (stream : ByteStream) (d' : FdWrapper)
    (w' : W) (bytes : Bytes)
    → read k d w (ByteStream.remaining_capacity stream) ≡ some (d', (w', bytes))
    → (ByteStream.write stream bytes).0.content ≡ stream.content ++ bytes
read-write_fits k d w stream d' w' bytes h =
    let (_, fits, _) = read_once k d w (ByteStream.remaining_capacity stream) d' w' bytes h in
    ap (λ (x : ByteStream × ℕ). x.0.content) (write_fits stream bytes fits)
