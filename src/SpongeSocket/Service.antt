-- ===== src/SpongeSocket/Service.antt =====
-- The rules of libsponge/tcp_helpers/tcp_sponge_socket.cc under the event loop's test for a busy wait.
use csed353_tcp.Prelude.{
  ℕ, ◌+◌, ◌%◌, ◌≡◌, refl, sym, ap, ◌∙◌, Bool, true, false, ◌&&◌, ◌||◌, Option, none, some, [],
  arith, ◌==◌, if◌then◌else◌, length, u32_mod, if_lem, Bool-cases, inl, inr, bind-eq-some,
  some-injective,
}
use csed353_tcp.ByteStream
use csed353_tcp.Connection
use csed353_tcp.Connection.{TcpConnection}
use csed353_tcp.Descriptor
use csed353_tcp.Descriptor.{Kernel, FdWrapper, How, register_read, register_write}
use csed353_tcp.Descriptor.Reads.{read_once}
use csed353_tcp.Descriptor.Streams.{offer, offer-counts}
use csed353_tcp.EventLoop.{service_count, serve}
use csed353_tcp.EventLoop.Rounds.{All}
use csed353_tcp.EventLoop.Served.{serve-calm}
use csed353_tcp.Segment.{TcpSegment}
use csed353_tcp.SpongeSocket.{
  SpongeSocket, Datagrams, inbound, finish_outbound, finish_inbound, receive_datagram,
  read_outbound, write_inbound, send_all, send_datagrams, wants_send, rule_datagram, rule_outbound,
  rule_inbound, rule_send, rules,
}

-- A count that goes up by one or two is another count, also where it wraps.
pub moved : (c d : ℕ) (wanted : Bool) → d ≡ (c + 1) % u32_mod → (c == d && wanted) ≡ false
moved c d wanted h = let ne : (c == d) ≡ false = ground (arith, h) in rw ne refl

moved_twice :
    (c d : ℕ) (wanted : Bool) → d ≡ ((c + 1) % u32_mod + 1) % u32_mod → (c == d && wanted) ≡ false
moved_twice c d wanted h = let ne : (c == d) ≡ false = ground (arith, h) in rw ne refl

and-false : (b : Bool) → (b && false) ≡ false
and-false true = refl
and-false false = refl

-- A read by the adapter is a read of its descriptor.
abbrev pub CountsReads : {W A : Type 0} → Datagrams W A → Type 0
CountsReads {W} {A} adapt =
    (a b : A) (w v : W) (seg : Option TcpSegment)
    → adapt.read a w ≡ some (b, (v, seg))
    → (adapt.descriptor b).read_count ≡ ((adapt.descriptor a).read_count + 1) % u32_mod

module _ {W A : Type 0} (k : Kernel W) (adapt : Datagrams W A) where
  datagram-calm :
      CountsReads adapt
      → (s : SpongeSocket W A) → serve (rule_datagram k adapt) s ≡ receive_datagram k adapt s
  unfolding receive_datagram service_count
  datagram-calm counts s = serve-calm (rule_datagram k adapt) s λ t e.
      let ((a, (w, seg)), c, r) = bind-eq-some (adapt.read s.datagram_adapter s.world) _ _ e in
      let handled : Option TcpConnection = elim seg [
        | none ↦ some s.tcp
        | some received ↦ Connection.segment_received s.tcp received
      ] in
      let put : TcpConnection → Option (SpongeSocket W A) = λ tcp. some (record s {
        world = w;
        datagram_adapter = a;
        tcp = tcp;
        fully_acked =
            if s.thread_data.eof && (Connection.bytes_in_flight tcp == 0)
            then true
            else s.fully_acked;
      }) in
      let (tcp, d, q) = bind-eq-some handled put t r in
      let same : t.datagram_adapter ≡ a =
        ap (λ (x : SpongeSocket W A). x.datagram_adapter) (sym (some-injective q)) in
      moved (adapt.descriptor s.datagram_adapter).read_count
        (adapt.descriptor t.datagram_adapter).read_count _
        (ap (λ (x : A). (adapt.descriptor x).read_count) same
          ∙ counts s.datagram_adapter a s.world w seg c)

  outbound-calm : (s : SpongeSocket W A) → serve (rule_outbound k adapt) s ≡ read_outbound k adapt s
  unfolding read_outbound service_count register_read finish_outbound
  outbound-calm s = serve-calm (rule_outbound k adapt) s λ t e.
      let limit : ℕ = Connection.remaining_outbound_capacity s.tcp in
      let ((fd, (w, bytes)), c, r) =
        bind-eq-some (Descriptor.read k s.thread_data s.world limit) _ _ e in
      let (_, _, reg) = read_once k s.thread_data s.world limit fd w bytes c in
      let (tcp, amount) = Connection.write s.tcp bytes in
      let u : SpongeSocket W A = record s { world = w; thread_data = fd; tcp = tcp } in
      elim (Bool-cases (amount == length bytes)) [
        | inr n ↦ absurd (let bad : none ≡ some t = sym (rw n refl) ∙ r in cc)
        | inl y ↦
            let q : (if fd.eof then finish_outbound u else u) ≡ t =
              some-injective (sym (rw y refl) ∙ r) in
            let same : t.thread_data ≡ fd =
              ap (λ (x : SpongeSocket W A). x.thread_data) (sym q)
              ∙ if_lem (λ (x : SpongeSocket W A). x.thread_data ≡ fd) fd.eof {x = finish_outbound u}
                  {y = u} refl refl in
            moved s.thread_data.read_count t.thread_data.read_count _
              (ap (λ (x : FdWrapper). x.read_count) (same ∙ reg))
      ]

  inbound-calm : (s : SpongeSocket W A) → serve (rule_inbound k adapt) s ≡ write_inbound k adapt s
  unfolding write_inbound finish_inbound service_count register_write Descriptor.shutdown
  inbound-calm s = serve-calm (rule_inbound k adapt) s λ t e.
      let ((fd, (w, n)), c, r) = bind-eq-some (offer k s.thread_data s.world (inbound s)) _ _ e in
      let reg = offer-counts k s.thread_data s.world (inbound s) fd w n c in
      let count : fd.write_count ≡ (s.thread_data.write_count + 1) % u32_mod =
        ap (λ (x : FdWrapper). x.write_count) reg in
      let u : SpongeSocket W A = record s {
        world = w;
        thread_data = fd;
        tcp = Connection.with_receiver_stream s.tcp (λ stream. ByteStream.pop_output stream n);
      } in
      elim (Bool-cases (ByteStream.eof (inbound u) || ByteStream.error (inbound u))) [
        | inr n ↦
            let q : u ≡ t = some-injective (sym (rw n refl) ∙ r) in
            moved s.thread_data.write_count t.thread_data.write_count _
              (ap (λ (x : SpongeSocket W A). x.thread_data.write_count) (sym q) ∙ count)
        | inl y ↦
            let tell : FdWrapper × W → Option (SpongeSocket W A) =
              λ x. some (record u { world = x.1; thread_data = x.0; inbound_shutdown = true }) in
            let ((fd', v), d, z) =
              bind-eq-some (Descriptor.shutdown k fd w How.shut_wr) tell t (sym (rw y refl) ∙ r) in
            let told : W → Option (FdWrapper × W) = λ x. some (register_write fd, x) in
            let (v', f, g) = bind-eq-some (k.shutdown w fd.fd How.shut_wr) told (fd', v) d in
            let twice : fd'.write_count ≡ (fd.write_count + 1) % u32_mod =
              ap (λ (x : FdWrapper × W). x.0.write_count) (sym (some-injective g)) in
            moved_twice s.thread_data.write_count t.thread_data.write_count _ (
              ap (λ (x : SpongeSocket W A). x.thread_data.write_count) (sym (some-injective z))
              ∙ twice
              ∙ ap (λ (x : ℕ). (x + 1) % u32_mod) count)
      ]

  send-calm : (s : SpongeSocket W A) → serve (rule_send k adapt) s ≡ send_datagrams k adapt s
  unfolding send_datagrams wants_send
  send-calm s = serve-calm (rule_send k adapt) s λ t e.
      let ((a, w), c, r) =
        bind-eq-some (send_all k adapt s.tcp.segments_out s.datagram_adapter s.world) _ _ e in
      let queue : t.tcp.segments_out ≡ [] =
        ap (λ (x : SpongeSocket W A). x.tcp.segments_out) (sym (some-injective r)) in
      rw queue (and-false _)

  -- With an adapter that counts its reads, the event loop's test never finds a busy wait in one of the
  -- four rules of the socket: serving it is its callback, whatever state the socket is in.
  pub rules-calm :
      CountsReads adapt
      → (s : SpongeSocket W A) → All (λ rule. serve rule s ≡ rule.callback s) (rules k adapt)
  unfolding rules
  rules-calm counts s =
      (datagram-calm counts s, (outbound-calm s, (inbound-calm s, (send-calm s, tt))))
