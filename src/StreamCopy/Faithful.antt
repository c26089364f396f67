-- ===== src/StreamCopy/Faithful.antt =====
-- What passes through apps/bidirectional_stream_copy.cc, over system calls that keep a record of it.
use csed353_tcp.Prelude.{
  ℕ, ◌≡◌, ◌≢◌, refl, sym, ap, ◌∙◌, subst, true, Option, some, ◌++◌, append_assoc, Bytes, Bool-cases,
  inl, inr, bind-eq-some, some-injective,
}
use csed353_tcp.ByteStream
use csed353_tcp.ByteStream.{ByteStream}
use csed353_tcp.Descriptor
use csed353_tcp.Descriptor.{Kernel, FdWrapper, How, register_read, register_write, open_fd}
use csed353_tcp.Descriptor.Streams.{offer}
use csed353_tcp.StreamCopy.{StreamCopy, read_input, write_socket, read_socket, write_output}
use csed353_tcp.StreamCopy.Steps.{IsRecord, read_step, write_step}

module _ {W : Type 0} {k : Kernel W} {sent received : W → ℕ → Bytes}
    (laws : IsRecord k sent received) (sock : ℕ) (not_in : sock ≢ 0) (not_out : sock ≢ 1) where
  -- What has come in on one side has gone out on the other, but for what the stream between them holds.
  pub record IsFaithful (s : StreamCopy W) : Type 0 where
    pub input_is : s.input.fd ≡ 0
    pub output_is : s.output.fd ≡ 1
    pub socket_is : s.socket.fd ≡ sock
    pub out : received s.world 0 ≡ sent s.world sock ++ s.outbound.content
    pub back : received s.world sock ≡ sent s.world 1 ++ s.inbound.content

  pub read_input-kept : (s t : StreamCopy W) → IsFaithful s → read_input k s ≡ some t → IsFaithful t
  unfolding read_input
  read_input-kept s t f h =
      let ((d, (w, bytes)), e, r) =
        bind-eq-some (Descriptor.read k s.input s.world (ByteStream.remaining_capacity s.outbound))
          _ _ h in
      let (now, others, still, content, fd) =
        read_step laws s.input s.world s.outbound d w bytes e in
      subst IsFaithful (some-injective r) (record {
        input_is = fd ∙ f.input_is;
        output_is = f.output_is;
        socket_is = f.socket_is;
        out =
            ap (received w) (sym f.input_is)
            ∙ now
            ∙ ap (λ (x : ℕ). received s.world x ++ bytes) f.input_is
            ∙ ap (λ (x : Bytes). x ++ bytes) f.out
            ∙ append_assoc (sent s.world sock) s.outbound.content bytes
            ∙ ap (λ (x : Bytes). x ++ (s.outbound.content ++ bytes)) (sym (still sock))
            ∙ ap (◌++◌ (sent w sock)) (sym content);
        back =
            others sock (λ e. not_in (e ∙ f.input_is))
            ∙ f.back
            ∙ ap (λ (x : Bytes). x ++ s.inbound.content) (sym (still 1));
      })

  pub read_socket-kept :
      (s t : StreamCopy W) → IsFaithful s → read_socket k s ≡ some t → IsFaithful t
  unfolding read_socket
  read_socket-kept s t f h =
      let ((d, (w, bytes)), e, r) =
        bind-eq-some (Descriptor.read k s.socket s.world (ByteStream.remaining_capacity s.inbound))
          _ _ h in
      let (now, others, still, content, fd) =
        read_step laws s.socket s.world s.inbound d w bytes e in
      subst IsFaithful (some-injective r) (record {
        input_is = f.input_is;
        output_is = f.output_is;
        socket_is = fd ∙ f.socket_is;
        out =
            others 0 (λ e. not_in (sym (e ∙ f.socket_is)))
            ∙ f.out
            ∙ ap (λ (x : Bytes). x ++ s.outbound.content) (sym (still sock));
        back =
            ap (received w) (sym f.socket_is)
            ∙ now
            ∙ ap (λ (x : ℕ). received s.world x ++ bytes) f.socket_is
            ∙ ap (λ (x : Bytes). x ++ bytes) f.back
            ∙ append_assoc (sent s.world 1) s.inbound.content bytes
            ∙ ap (λ (x : Bytes). x ++ (s.inbound.content ++ bytes)) (sym (still 1))
            ∙ ap (◌++◌ (sent w 1)) (sym content);
      })

  -- A call that changes no history.
  pub quiet :
      (s : StreamCopy W) (v : W)
      → ((x : ℕ) → (sent v x ≡ sent s.world x) × (received v x ≡ received s.world x))
      → IsFaithful s
      → IsFaithful (record s { world = v })
  quiet s v same f = record {
    input_is = f.input_is;
    output_is = f.output_is;
    socket_is = f.socket_is;
    out = (same 0).1 ∙ f.out ∙ ap (λ (x : Bytes). x ++ s.outbound.content) (sym (same sock).0);
    back = (same sock).1 ∙ f.back ∙ ap (λ (x : Bytes). x ++ s.inbound.content) (sym (same 1).0);
  }

  pub write_socket-kept :
      (s t : StreamCopy W) → IsFaithful s → write_socket k s ≡ some t → IsFaithful t
  unfolding write_socket Descriptor.shutdown register_write
  write_socket-kept s t f h =
      let ((d, (w, n)), e, r) = bind-eq-some (offer k s.socket s.world s.outbound) _ _ h in
      let (now, others, inn, fd) = write_step laws s.socket s.world s.outbound d w n e in
      let left : ByteStream = ByteStream.pop_output s.outbound n in
      let u : StreamCopy W = record s { world = w; socket = d; outbound = left } in
      let g : IsFaithful u = record {
        input_is = f.input_is;
        output_is = f.output_is;
        socket_is = fd ∙ f.socket_is;
        out =
            inn 0
            ∙ f.out
            ∙ ap (λ (x : ℕ). sent s.world x ++ s.outbound.content) (sym f.socket_is)
            ∙ sym now
            ∙ ap (λ (x : ℕ). sent w x ++ left.content) f.socket_is;
        back =
            inn sock
            ∙ f.back
            ∙ ap (λ (x : Bytes). x ++ s.inbound.content)
                (sym (others 1 (λ e. not_out (sym (e ∙ f.socket_is)))));
      } in
      elim (Bool-cases (ByteStream.eof left)) [
        | inr more ↦ subst IsFaithful (some-injective (sym (rw more refl) ∙ r)) g
        | inl over ↦
            let tell : FdWrapper × W → Option (StreamCopy W) =
              λ x. some (record u { world = x.1; socket = x.0; outbound_shutdown = true }) in
            let ((e', v), c, q) =
              bind-eq-some (Descriptor.shutdown k d w How.shut_wr) tell t
                (sym (rw over refl) ∙ r) in
            let told : W → Option (FdWrapper × W) = λ x. some (register_write d, x) in
            let (v', a, b) = bind-eq-some (k.shutdown w d.fd How.shut_wr) told (e', v) c in
            let same = laws.shutdown_others w d.fd How.shut_wr v' a in
            let b' = some-injective b in
            let g' = quiet u v' same g in
            subst IsFaithful (some-injective q) (record {
              input_is = g'.input_is;
              output_is = g'.output_is;
              socket_is = ap (λ (x : FdWrapper × W). x.0.fd) (sym b') ∙ g.socket_is;
              out =
                  subst (λ (x : W). received x 0 ≡ sent x sock ++ left.content)
                    (ap (λ (x : FdWrapper × W). x.1) b') g'.out;
              back =
                  subst (λ (x : W). received x sock ≡ sent x 1 ++ s.inbound.content)
                    (ap (λ (x : FdWrapper × W). x.1) b') g'.back;
            })
      ]

  pub write_output-kept :
      (s t : StreamCopy W) → IsFaithful s → write_output k s ≡ some t → IsFaithful t
  unfolding write_output Descriptor.close
  write_output-kept s t f h =
      let ((d, (w, n)), e, r) = bind-eq-some (offer k s.output s.world s.inbound) _ _ h in
      let (now, others, inn, fd) = write_step laws s.output s.world s.inbound d w n e in
      let left : ByteStream = ByteStream.pop_output s.inbound n in
      let u : StreamCopy W = record s { world = w; output = d; inbound = left } in
      let g : IsFaithful u = record {
        input_is = f.input_is;
        output_is = fd ∙ f.output_is;
        socket_is = f.socket_is;
        out =
            inn 0
            ∙ f.out
            ∙ ap (λ (x : Bytes). x ++ s.outbound.content)
                (sym (others sock (λ e. not_out (e ∙ f.output_is))));
        back =
            inn sock
            ∙ f.back
            ∙ ap (λ (x : ℕ). sent s.world x ++ s.inbound.content) (sym f.output_is)
            ∙ sym now
            ∙ ap (λ (x : ℕ). sent w x ++ left.content) f.output_is;
      } in
      elim (Bool-cases (ByteStream.eof left)) [
        | inr more ↦ subst IsFaithful (some-injective (sym (rw more refl) ∙ r)) g
        | inl over ↦
            let tell : FdWrapper × W → Option (StreamCopy W) =
              λ x. some (record u { world = x.1; output = x.0; inbound_shutdown = true }) in
            let ((e', v), c, q) =
              bind-eq-some (Descriptor.close k d w) tell t (sym (rw over refl) ∙ r) in
            let told : W → Option (FdWrapper × W) =
              λ x. some (record d { eof = true; closed = true }, x) in
            let (v', a, b) = bind-eq-some (k.close w d.fd) told (e', v) c in
            let same = laws.close_others w d.fd v' a in
            let b' = some-injective b in
            let g' = quiet u v' same g in
            subst IsFaithful (some-injective q) (record {
              input_is = g'.input_is;
              output_is = ap (λ (x : FdWrapper × W). x.0.fd) (sym b') ∙ g.output_is;
              socket_is = g'.socket_is;
              out =
                  subst (λ (x : W). received x 0 ≡ sent x sock ++ s.outbound.content)
                    (ap (λ (x : FdWrapper × W). x.1) b') g'.out;
              back =
                  subst (λ (x : W). received x sock ≡ sent x 1 ++ left.content)
                    (ap (λ (x : FdWrapper × W). x.1) b') g'.back;
            })
      ]
