-- ===== src/SpongeSocket/Moves.antt =====
-- What the callbacks of libsponge/tcp_helpers/tcp_sponge_socket.cc do with the bytes and the segments.
use csed353_tcp.Prelude.{
  ℕ, ◌≤◌, ◌<◌, ◌≡◌, refl, sym, ap, ◌∙◌, subst, true, ◌||◌, some, ◌++◌, arith, ◌==◌, if◌then◌else◌,
  Bytes, length, Bool-cases, ◌⊎◌, inl, inr, bind-eq-some, some-injective,
}
use csed353_tcp.ByteStream
use csed353_tcp.ByteStream.{ByteStream}
use csed353_tcp.ByteStream.Laws.{write_fits}
use csed353_tcp.Connection
use csed353_tcp.Connection.{TcpConnection}
use csed353_tcp.Descriptor
use csed353_tcp.Descriptor.{Kernel, FdWrapper, How, register_write}
use csed353_tcp.Descriptor.Reads.{read_once}
use csed353_tcp.Descriptor.Streams.{offer, offer-conserved}
use csed353_tcp.Descriptor.Documented.{IsStream}
use csed353_tcp.SpongeSocket.{
  SpongeSocket, Datagrams, inbound, finish_outbound, finish_inbound, read_outbound, write_inbound,
}

-- What a connection takes that has room is everything.
write-accepts :
    (c : TcpConnection) (bytes : Bytes)
    → length bytes ≤ Connection.remaining_outbound_capacity c
    → (Connection.write c bytes).1 ≡ length bytes
unfolding Connection.write Connection.remaining_outbound_capacity
write-accepts c bytes h = ap (λ (x : ByteStream × ℕ). x.1) (write_fits c.sender.stream bytes h)

module _ {W A : Type 0} (k : Kernel W) (adapt : Datagrams W A) where
  -- Whatever the owner has written, if the read of it returns, then rule 2 returns: the
  -- connection takes all of it, and the outbound stream is ended, and noted as shut down, exactly
  -- if the descriptor is then at its end.
  pub read_outbound-accepted :
      (s : SpongeSocket W A) (fd : FdWrapper) (w : W) (bytes : Bytes)
      → Descriptor.read k s.thread_data s.world (Connection.remaining_outbound_capacity s.tcp)
        ≡ some (fd, (w, bytes))
      → let (tcp, amount) = Connection.write s.tcp bytes in
        let t : SpongeSocket W A = record s { world = w; thread_data = fd; tcp = tcp } in
        (amount ≡ length bytes)
        × (read_outbound k adapt s ≡ some (if fd.eof then finish_outbound t else t))
  unfolding read_outbound
  read_outbound-accepted s fd w bytes h =
      let (_, fits, _) =
        read_once k s.thread_data s.world (Connection.remaining_outbound_capacity s.tcp) fd w bytes
          h in
      let whole = write-accepts s.tcp bytes fits in
      let full : ((Connection.write s.tcp bytes).1 == length bytes) ≡ true =
        ground (arith, whole) in
      (whole, rw h (rw full refl))

  -- The end of rule 3 changes neither the inbound stream nor what has been sent.
  finish_inbound-kept :
      (sent : W → ℕ → Bytes)
      → IsStream k sent
      → (s t : SpongeSocket W A) → finish_inbound k adapt s ≡ some t
      → (inbound t ≡ inbound s)
        × (sent t.world s.thread_data.fd ≡ sent s.world s.thread_data.fd)
        × (t.inbound_shutdown ≡ (
            if ByteStream.eof (inbound s) || ByteStream.error (inbound s)
            then true
            else s.inbound_shutdown))
  unfolding finish_inbound Descriptor.shutdown
  finish_inbound-kept sent stream s t h =
      elim (Bool-cases (ByteStream.eof (inbound s) || ByteStream.error (inbound s))) [
        | inr n ↦
            let q : s ≡ t = some-injective (sym (rw n refl) ∙ h) in
            (
              ap (λ (x : SpongeSocket W A). inbound x) (sym q),
              ap (λ (x : SpongeSocket W A). sent x.world s.thread_data.fd) (sym q),
              rw n (ap (λ (x : SpongeSocket W A). x.inbound_shutdown) (sym q)),
            )
        | inl y ↦
            let ((fd, w), e, r) =
              bind-eq-some (Descriptor.shutdown k s.thread_data s.world How.shut_wr)
                (λ (x : FdWrapper × W).
                  some (record s { world = x.1; thread_data = x.0; inbound_shutdown = true }))
                t (sym (rw y refl) ∙ h) in
            let q : record s { world = w; thread_data = fd; inbound_shutdown = true } ≡ t =
              some-injective r in
            let (v, c, u) = bind-eq-some (k.shutdown s.world s.thread_data.fd How.shut_wr) _ _ e in
            let same : v ≡ w = ap (λ (x : FdWrapper × W). x.1) (some-injective u) in
            (
              ap (λ (x : SpongeSocket W A). inbound x) (sym q),
              ap (λ (x : SpongeSocket W A). sent x.world s.thread_data.fd) (sym q)
                  ∙ ap (λ (x : W). sent x s.thread_data.fd) (sym same)
                  ∙ stream.shutdown_keeps s.world s.thread_data.fd How.shut_wr v c,
              rw y (ap (λ (x : SpongeSocket W A). x.inbound_shutdown) (sym q)),
            )
      ]

  -- Over a `writev` as it is documented, a turn of rule 3 that returns loses and doubles nothing:
  -- what has been sent to the owner, followed by what the inbound stream still holds, stays the
  -- same bytes, however many the owner takes. If the stream holds any, it holds fewer afterwards.
  -- The flag that the inbound stream was shut down is set if the stream is then at its end or in
  -- error, and otherwise stays as it was.
  pub write_inbound-conserved :
      (sent : W → ℕ → Bytes)
      → IsStream k sent
      → (s t : SpongeSocket W A) → write_inbound k adapt s ≡ some t
      → (sent t.world s.thread_data.fd ++ (inbound t).content
          ≡ sent s.world s.thread_data.fd ++ (inbound s).content)
        × ((length (inbound s).content ≡ 0)
            ⊎ (length (inbound t).content < length (inbound s).content))
        × (t.inbound_shutdown ≡ (
            if ByteStream.eof (inbound t) || ByteStream.error (inbound t)
            then true
            else s.inbound_shutdown))
  unfolding write_inbound register_write
  write_inbound-conserved sent stream s t h =
      let ((fd, (w, n)), e, r) = bind-eq-some (offer k s.thread_data s.world (inbound s)) _ _ h in
      let (cut, fewer, reg) =
        offer-conserved k sent stream s.thread_data s.world (inbound s) fd w n e in
      let u : SpongeSocket W A = record s {
        world = w;
        thread_data = fd;
        tcp = Connection.with_receiver_stream s.tcp (λ stream. ByteStream.pop_output stream n);
      } in
      let id : ℕ = s.thread_data.fd in
      let fd_same : fd.fd ≡ id = ap (λ (x : FdWrapper). x.fd) reg in
      let (in_same, out_same, told) = finish_inbound-kept sent stream u t r in
      (
        ap (λ (x : ByteStream). sent t.world id ++ x.content) in_same
            ∙ ap (λ (x : Bytes). x ++ (inbound u).content)
                (ap (sent t.world) (sym fd_same) ∙ out_same ∙ ap (sent w) fd_same)
            ∙ cut,
        subst
            (λ (x : ByteStream).
              (length (inbound s).content ≡ 0) ⊎ (length x.content < length (inbound s).content))
            (sym in_same) fewer,
        rw in_same told,
      )
