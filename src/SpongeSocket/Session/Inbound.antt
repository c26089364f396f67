-- ===== src/SpongeSocket/Session/Inbound.antt =====
-- What the rules of libsponge/tcp_helpers/tcp_sponge_socket.cc do with the bytes for the owner.
use csed353_tcp.Prelude.{
  ℕ, ◌≡◌, refl, sym, ap, ◌∙◌, subst, true, ◌&&◌, ◌||◌, Option, none, some, List, [], ◌∷◌, ◌++◌,
  append_assoc, ◌==◌, if◌then◌else◌, Bytes, length, sub64, ◌⊎◌, Bool-cases, if_lem, inl, inr,
  bind-eq-some, some-injective,
}
use csed353_tcp.ByteStream
use csed353_tcp.Connection
use csed353_tcp.Connection.{TcpConnection}
use csed353_tcp.Receiver.Appended.{Extends, Extends-same, Extends-trans}
use csed353_tcp.Connection.Appended.{
  held, segment_received-Extends, held-tick, held-write, held-end_input_stream,
}
use csed353_tcp.Descriptor
use csed353_tcp.Descriptor.{Kernel, FdWrapper, How, register_read, register_write}
use csed353_tcp.Descriptor.Documented.{IsStream}
use csed353_tcp.Descriptor.Reads.{read_once}
use csed353_tcp.Descriptor.Streams.{offer, offer-counts}
use csed353_tcp.EventLoop.{Rule, PollFd, PollAnswer}
use csed353_tcp.EventLoop.Rounds.{All, Keeps}
use csed353_tcp.Segment.{TcpSegment}
use csed353_tcp.SpongeSocket.{
  SpongeSocket, Datagrams, inbound, finish_outbound, finish_inbound, receive_datagram,
  read_outbound, write_inbound, send_all, send_datagrams, rule_datagram, rule_outbound,
  rule_inbound, rule_send,
}
use csed353_tcp.SpongeSocket.Moves.{write_inbound-conserved}
use csed353_tcp.SpongeSocket.Session.{tick_by}

-- What the connection makes of what the adapter has read.
abbrev handled : TcpConnection → Option TcpSegment → Option TcpConnection
handled c seg = elim seg [ none ↦ some c | some received ↦ Connection.segment_received c received ]

handled-Extends :
    (c d : TcpConnection) (seg : Option TcpSegment)
    → handled c seg ≡ some d
    → Extends (held c) (held d)
handled-Extends c d none h = Extends-same _ _ (ap held (sym (some-injective h)))
handled-Extends c d (some received) h = segment_received-Extends c d received h

module _ {W A : Type 0} (k : Kernel W) (adapt : Datagrams W A)
    (poll : SpongeSocket W A → List PollFd → SpongeSocket W A × PollAnswer) (sent : W → ℕ → Bytes)
    (id : ℕ) where
  -- Nothing is sent on the descriptor `id` by a read, by the clock, by the adapter, which is on another
  -- one, or by `poll`, which leaves the connection and the socket of the owner alone.
  pub record Apart : Type 0 where
    pub read_apart :
        (w v : W) (fd n : ℕ) (bytes : Bytes)
        → k.read w fd n ≡ some (v, bytes)
        → sent v id ≡ sent w id
    pub clock_apart : (w : W) → sent (k.timestamp_ms w).0 id ≡ sent w id
    pub adapter_read :
        (a b : A) (w v : W) (seg : Option TcpSegment)
        → adapt.read a w ≡ some (b, (v, seg))
        → sent v id ≡ sent w id
    pub adapter_write :
        (a b : A) (w v : W) (seg : TcpSegment)
        → adapt.write a w seg ≡ some (b, v)
        → sent v id ≡ sent w id
    pub adapter_tick :
        (a b : A) (w v : W) (ms : ℕ) → adapt.tick a w ms ≡ some (b, v) → sent v id ≡ sent w id
    pub poll_world :
        (s : SpongeSocket W A) (es : List PollFd) → sent (poll s es).0.world id ≡ sent s.world id
    pub poll_tcp : (s : SpongeSocket W A) (es : List PollFd) → (poll s es).0.tcp ≡ s.tcp
    pub poll_owner :
        (s : SpongeSocket W A) (es : List PollFd) → (poll s es).0.thread_data ≡ s.thread_data

  -- What was sent to the owner, and what is still to go.
  abbrev pub bytes_of : SpongeSocket W A → Bytes
  bytes_of s = sent s.world id ++ held s.tcp

  -- The owner's socket is the descriptor `id`, and the bytes for it go on from those given.
  abbrev pub Follows : Bytes → SpongeSocket W A → Type 0
  Follows start s = (s.thread_data.fd ≡ id) × Extends start (bytes_of s)

  -- The rules that the socket adds.
  abbrev pub IsOurs : Rule (SpongeSocket W A) → Type 0
  IsOurs rule =
      (rule ≡ rule_datagram k adapt)
      ⊎ ((rule ≡ rule_outbound k adapt)
          ⊎ ((rule ≡ rule_inbound k adapt) ⊎ (rule ≡ rule_send k adapt)))

  -- A turn that keeps what was sent, and puts bytes behind those that are held.
  pub moves :
      (start : Bytes) (s t : SpongeSocket W A)
      → t.thread_data.fd ≡ s.thread_data.fd
      → sent t.world id ≡ sent s.world id
      → Extends (held s.tcp) (held t.tcp)
      → Follows start s
      → Follows start t
  moves start s t owner out (m, e) (at, x) = (
    owner ∙ at,
    Extends-trans start (bytes_of s) (bytes_of t) x (
      m,
      ap (λ (x : Bytes). x ++ held t.tcp) out
          ∙ ap (◌++◌ (sent s.world id)) e
          ∙ sym (append_assoc (sent s.world id) (held s.tcp) m),
    ),
  )

  write_inbound-owner :
      (s t : SpongeSocket W A)
      → write_inbound k adapt s ≡ some t
      → t.thread_data.fd ≡ s.thread_data.fd
  unfolding write_inbound finish_inbound register_write Descriptor.shutdown
  write_inbound-owner s t h =
      let ((fd, (w, n)), e, r) = bind-eq-some (offer k s.thread_data s.world (inbound s)) _ _ h in
      let reg : fd.fd ≡ s.thread_data.fd =
        ap (λ (x : FdWrapper). x.fd) (offer-counts k s.thread_data s.world (inbound s) fd w n e) in
      let u : SpongeSocket W A = record s {
        world = w;
        thread_data = fd;
        tcp = Connection.with_receiver_stream s.tcp (λ stream. ByteStream.pop_output stream n);
      } in
      elim (Bool-cases (ByteStream.eof (inbound u) || ByteStream.error (inbound u))) [
        | inr n ↦
            let q : u ≡ t = some-injective (sym (rw n refl) ∙ r) in
            ap (λ (x : SpongeSocket W A). x.thread_data.fd) (sym q) ∙ reg
        | inl y ↦
            let tell : FdWrapper × W → Option (SpongeSocket W A) =
              λ x. some (record u { world = x.1; thread_data = x.0; inbound_shutdown = true }) in
            let ((fd', v), d, z) =
              bind-eq-some (Descriptor.shutdown k fd w How.shut_wr) tell t (sym (rw y refl) ∙ r) in
            let told : W → Option (FdWrapper × W) = λ x. some (register_write fd, x) in
            let (v', f, g) = bind-eq-some (k.shutdown w fd.fd How.shut_wr) told (fd', v) d in
            ap (λ (x : SpongeSocket W A). x.thread_data.fd) (sym (some-injective z))
            ∙ ap (λ (x : FdWrapper × W). x.0.fd) (sym (some-injective g))
            ∙ reg
      ]

  module _ (apart : Apart) (start : Bytes) where
    receive_datagram-Follows :
        (s t : SpongeSocket W A)
        → Follows start s
        → receive_datagram k adapt s ≡ some t
        → Follows start t
    unfolding receive_datagram
    receive_datagram-Follows s t p h =
        let ((a, (w, seg)), e, r) = bind-eq-some (adapt.read s.datagram_adapter s.world) _ _ h in
        let (tcp, c, q) = bind-eq-some (handled s.tcp seg) _ t r in
        let u : SpongeSocket W A = record s {
          world = w;
          datagram_adapter = a;
          tcp = tcp;
          fully_acked =
              if s.thread_data.eof && (Connection.bytes_in_flight tcp == 0)
              then true
              else s.fully_acked;
        } in
        subst (Follows start) (some-injective q) (
          moves start s u refl (apart.adapter_read _ _ _ _ _ e) (handled-Extends s.tcp tcp seg c) p)

    finish_outbound-Follows :
        (s : SpongeSocket W A) → Follows start s → Follows start (finish_outbound s)
    unfolding finish_outbound
    finish_outbound-Follows s p =
        moves start s (finish_outbound s) refl refl (Extends-same _ _ (held-end_input_stream s.tcp))
          p

    read_outbound-Follows :
        (s t : SpongeSocket W A)
        → Follows start s
        → read_outbound k adapt s ≡ some t
        → Follows start t
    unfolding read_outbound register_read
    read_outbound-Follows s t p h =
        let limit : ℕ = Connection.remaining_outbound_capacity s.tcp in
        let ((fd, (w, bytes)), e, r) =
          bind-eq-some (Descriptor.read k s.thread_data s.world limit) _ _ h in
        let (called, _, reg) = read_once k s.thread_data s.world limit fd w bytes e in
        let (tcp, amount) = Connection.write s.tcp bytes in
        let u : SpongeSocket W A = record s { world = w; thread_data = fd; tcp = tcp } in
        let f : Follows start u =
          moves start s u (ap (λ (x : FdWrapper). x.fd) reg) (apart.read_apart _ _ _ _ _ called)
            (Extends-same _ _ (held-write s.tcp bytes)) p in
        elim (Bool-cases (amount == length bytes)) [
          | inr n ↦ absurd (let bad : none ≡ some t = sym (rw n refl) ∙ r in cc)
          | inl y ↦
              let q : (if fd.eof then finish_outbound u else u) ≡ t =
                some-injective (sym (rw y refl) ∙ r) in
              subst (Follows start) q (
                if_lem (Follows start) fd.eof {x = finish_outbound u} {y = u}
                  (finish_outbound-Follows u f) f)
        ]

    send_all-sent :
        (segs : List TcpSegment) (a b : A) (w v : W)
        → send_all k adapt segs a w ≡ some (b, v)
        → sent v id ≡ sent w id
    unfolding send_all
    send_all-sent [] a b w v h = ap (λ (x : A × W). sent x.1 id) (sym (some-injective h))
    send_all-sent (seg ∷ segs) a b w v h =
        let ((a', w'), e, r) = bind-eq-some (adapt.write a w seg) _ _ h in
        send_all-sent segs a' b w' v r ∙ apart.adapter_write a a' w w' seg e

    send_datagrams-Follows :
        (s t : SpongeSocket W A)
        → Follows start s
        → send_datagrams k adapt s ≡ some t
        → Follows start t
    unfolding send_datagrams
    send_datagrams-Follows s t p h =
        let ((a, w), e, r) =
          bind-eq-some (send_all k adapt s.tcp.segments_out s.datagram_adapter s.world) _ _ h in
        let u : SpongeSocket W A = record s {
          world = w;
          datagram_adapter = a;
          tcp = record (s.tcp) { segments_out = [] };
        } in
        subst (Follows start) (some-injective r)
          (moves start s u refl (send_all-sent _ _ _ _ _ e) (Extends-same _ _ refl) p)

    write_inbound-Follows :
        IsStream k sent
        → (s t : SpongeSocket W A) → Follows start s
        → write_inbound k adapt s ≡ some t
        → Follows start t
    write_inbound-Follows stream s t (at, x) h =
        let owner : t.thread_data.fd ≡ s.thread_data.fd = write_inbound-owner s t h in
        let (same, _, _) = write_inbound-conserved k adapt sent stream s t h in
        let e : bytes_of t ≡ bytes_of s =
          ap (λ (x : ℕ). sent t.world x ++ held t.tcp) (sym at)
          ∙ same
          ∙ ap (λ (x : ℕ). sent s.world x ++ held s.tcp) at in
        (owner ∙ at, subst (Extends start) (sym e) x)

    pub tick_by-Follows :
        (base next : ℕ) (s t : SpongeSocket W A)
        → Follows start s
        → tick_by k adapt base s ≡ some (t, next)
        → Follows start t
    unfolding tick_by
    tick_by-Follows base next s t p h = elim (Bool-cases (Connection.active s.tcp)) [
      | inr over ↦
          let e : some (s, base) ≡ some (t, next) = sym (rw over refl) ∙ h in
          subst (λ (x : SpongeSocket W A × ℕ). Follows start x.0) (some-injective e) p
      | inl on ↦
          let (w, now) = k.timestamp_ms s.world in
          let ms : ℕ = sub64 now base in
          let (tcp, e, r) = bind-eq-some (Connection.tick s.tcp ms) _ (t, next) (rw on at h) in
          let ((a, v), c, q) = bind-eq-some (adapt.tick s.datagram_adapter w ms) _ _ r in
          let u : SpongeSocket W A = record s { world = v; tcp = tcp; datagram_adapter = a } in
          subst (λ (x : SpongeSocket W A × ℕ). Follows start x.0) (some-injective q)
            (moves start s u refl (apart.adapter_tick _ _ _ _ _ c ∙ apart.clock_apart s.world)
              (Extends-same _ _ (held-tick s.tcp tcp ms e)) p)
    ]

    -- Each rule of the socket keeps the bytes.
    ours-Keeps :
        IsStream k sent
        → (rule : Rule (SpongeSocket W A)) → IsOurs rule
        → Keeps (Follows start) rule
    ours-Keeps stream rule ours = elim ours [
      | inl e ↦ subst (Keeps (Follows start)) (sym e) (record {
        callback_keeps = receive_datagram-Follows;
        cancel_keeps = λ s t p h. subst (Follows start) (some-injective h) p;
      })
      | inr (inl e) ↦ subst (Keeps (Follows start)) (sym e) (record {
        callback_keeps = read_outbound-Follows;
        cancel_keeps =
            λ s t p h. subst (Follows start) (some-injective h) (finish_outbound-Follows s p);
      })
      | inr (inr (inl e)) ↦ subst (Keeps (Follows start)) (sym e) (record {
        callback_keeps = write_inbound-Follows stream;
        cancel_keeps = λ s t p h. subst (Follows start) (some-injective h) p;
      })
      | inr (inr (inr e)) ↦ subst (Keeps (Follows start)) (sym e) (record {
        callback_keeps = send_datagrams-Follows;
        cancel_keeps = λ s t p h. subst (Follows start) (some-injective h) p;
      })
    ]

    pub rules-Keeps :
        IsStream k sent
        → (rules : List (Rule (SpongeSocket W A))) → All IsOurs rules
        → All (Keeps (Follows start)) rules
    rules-Keeps stream [] ours = tt
    rules-Keeps stream (rule ∷ rules) (one, others) =
        (ours-Keeps stream rule one, rules-Keeps stream rules others)

    pub polled :
        (s : SpongeSocket W A) (es : List PollFd) → Follows start s → Follows start (poll s es).0
    polled s es p =
        moves start s (poll s es).0 (ap (λ (x : FdWrapper). x.fd) (apart.poll_owner s es))
          (apart.poll_world s es) (Extends-same _ _ (ap held (apart.poll_tcp s es))) p
