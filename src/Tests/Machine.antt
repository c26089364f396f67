-- ===== src/Tests/Machine.antt =====
-- A small machine for the tests of what uses system calls: for each descriptor what has been sent, what
-- has been received and what is still to come, and the segments on the wire. A write takes at most two
-- bytes, a read at most three.
use csed353_tcp.Prelude.{
  ℕ, ◌+◌, ◌%◌, u32_mod, ◌≡◌, ◌≢◌, refl, sym, ap, ◌∙◌, min, Option, none, some, List, [], ◌∷◌, ◌++◌,
  arith, ◌==◌, if◌then◌else◌, Bytes, length, take, drop, some-injective, Bool-cases, inl, inr,
  ==→eq,
}
use csed353_tcp.Descriptor.{Kernel, FdWrapper, register_read, register_write}
use csed353_tcp.Descriptor.Documented.{shown, IsStream, IsBlocking}
use csed353_tcp.Segment.{TcpSegment}
use csed353_tcp.Sockets.{UdpKernel}
use csed353_tcp.SpongeSocket.{Datagrams}
use csed353_tcp.SpongeSocket.Service.{CountsReads}
use csed353_tcp.StreamCopy.Steps.{IsRecord}

pub record Machine : Type 0 where
  pub sent : ℕ → Bytes
  pub received : ℕ → Bytes
  pub supply : ℕ → Bytes
  pub incoming : List TcpSegment
  pub wire : List TcpSegment
  pub clock : ℕ

abbrev pub update : (ℕ → Bytes) → ℕ → Bytes → ℕ → Bytes
update f fd bytes x = if x == fd then bytes else f x

update_here : (f : ℕ → Bytes) (fd : ℕ) (bytes : Bytes) → update f fd bytes fd ≡ bytes
update_here f fd bytes = ground arith

update_there : (f : ℕ → Bytes) (fd : ℕ) (bytes : Bytes) (x : ℕ) → x ≢ fd → update f fd bytes x ≡ f x
update_there f fd bytes x other = elim (Bool-cases (x == fd)) [
  | inl same ↦ absurd (other (==→eq x fd same))
  | inr apart ↦ rw apart refl
]

abbrev pub arrive : Machine → ℕ → Bytes → Machine
arrive w fd bytes = record w {
  received = update w.received fd (w.received fd ++ bytes);
  supply = update w.supply fd (drop (length bytes) (w.supply fd));
}

abbrev pub leave : Machine → ℕ → Bytes → Machine
leave w fd bytes = record w { sent = update w.sent fd (w.sent fd ++ bytes) }

abbrev pub machine : Kernel Machine
machine = record {
  read = λ w fd n.
      (let bytes : Bytes = take (min 3 n) (w.supply fd) in some (arrive w fd bytes, bytes));
  writev = λ w fd vs.
      (let n : ℕ = min 2 (length (shown vs)) in some (leave w fd (take n (shown vs)), n));
  shutdown = λ w fd how. some w;
  close = λ w fd. some w;
  timestamp_ms = λ w. (record w { clock = w.clock + 1 }, w.clock);
}

pub machine-IsStream : IsStream machine (λ w. w.sent)
machine-IsStream = record {
  writev_sends = λ w fd vs w' n h.
      (let e : (leave w fd (take (min 2 (length (shown vs))) (shown vs)), min 2 (length (shown vs)))
            ≡ (w', n) =
          some-injective h in
        ap (λ (x : Machine × ℕ). x.0.sent fd) (sym e)
        ∙ update_here w.sent fd _
        ∙ ap (λ (x : Machine × ℕ). w.sent fd ++ take x.1 (shown vs)) e);
  shutdown_keeps = λ w fd how w' h. ap (λ (x : Machine). x.sent fd) (sym (some-injective h));
}

pub machine-IsBlocking : (fd : ℕ) → IsBlocking machine fd
machine-IsBlocking fd = record {
  writev_takes = λ w vs. (
    leave w fd (take (min 2 (length (shown vs))) (shown vs)),
    min 2 (length (shown vs)),
    refl,
    omega arith,
    (λ p. omega (arith, p)),
  );
}

pub machine-IsRecord : IsRecord machine (λ w. w.sent) (λ w. w.received)
machine-IsRecord = record {
  stream = machine-IsStream;
  read_receives = λ w fd n w' bytes h.
      (let got : Bytes = take (min 3 n) (w.supply fd) in
        let r : Machine × Bytes = (w', bytes) in
        let e : (arrive w fd got, got) ≡ r = some-injective h in
        (
          ap (λ (x : Machine × Bytes). x.0.received fd) (sym e)
              ∙ update_here w.received fd _
              ∙ ap (λ (x : Machine × Bytes). w.received fd ++ x.1) e,
          (λ x other.
              ap (λ (y : Machine × Bytes). y.0.received x) (sym e)
              ∙ update_there w.received fd _ x other),
          (λ x. ap (λ (y : Machine × Bytes). y.0.sent x) (sym e)),
        ));
  writev_others = λ w fd vs w' n h.
      (let took : ℕ = min 2 (length (shown vs)) in
        let r : Machine × ℕ = (w', n) in
        let e : (leave w fd (take took (shown vs)), took) ≡ r = some-injective h in
        (
          (λ x other.
              ap (λ (y : Machine × ℕ). y.0.sent x) (sym e) ∙ update_there w.sent fd _ x other),
          (λ x. ap (λ (y : Machine × ℕ). y.0.received x) (sym e)),
        ));
  shutdown_others = λ w fd how w' h x. (
    ap (λ (y : Machine). y.sent x) (sym (some-injective h)),
    ap (λ (y : Machine). y.received x) (sym (some-injective h)),
  );
  close_others = λ w fd w' h x. (
    ap (λ (y : Machine). y.sent x) (sym (some-injective h)),
    ap (λ (y : Machine). y.received x) (sym (some-injective h)),
  );
}

abbrev take_first :
    FdWrapper → Machine → List TcpSegment → FdWrapper × (Machine × Option TcpSegment)
take_first a w [] = (register_read a, (w, none))
take_first a w (seg ∷ rest) = (register_read a, (record w { incoming = rest }, some seg))

-- An adapter that is a descriptor.
abbrev pub adapter : Datagrams Machine FdWrapper
adapter = record {
  descriptor = λ a. a;
  read = λ a w. some (take_first a w w.incoming);
  write = λ a w seg. some (register_write a, record w { wire = w.wire ++ seg ∷ [] });
  tick = λ a w ms. some (a, w);
  configure = λ a cfg. a;
  set_listening = λ a b. a;
}

pub take_first-sent :
    (a b : FdWrapper) (w v : Machine) (seg : Option TcpSegment) (segs : List TcpSegment)
    → take_first a w segs ≡ (b, (v, seg))
    → v.sent ≡ w.sent
take_first-sent a b w v seg [] h =
    ap (λ (x : FdWrapper × (Machine × Option TcpSegment)). x.1.0.sent) (sym h)
take_first-sent a b w v seg (s ∷ segs) h =
    ap (λ (x : FdWrapper × (Machine × Option TcpSegment)). x.1.0.sent) (sym h)

took :
    (a : FdWrapper) (w : Machine) (segs : List TcpSegment)
    → (take_first a w segs).0.read_count ≡ (a.read_count + 1) % u32_mod
unfolding register_read
took a w [] = refl
took a w (seg ∷ segs) = refl

pub adapter-CountsReads : CountsReads adapter
adapter-CountsReads a b w v seg h =
    let r : FdWrapper × (Machine × Option TcpSegment) = (b, (v, seg)) in
    let e : take_first a w w.incoming ≡ r = some-injective h in
    ap (λ (x : FdWrapper × (Machine × Option TcpSegment)). x.0.read_count) (sym e)
    ∙ took a w w.incoming

-- Datagrams come from one address, and go out whole.
abbrev pub datagrams : UdpKernel Machine
datagrams = record {
  recvfrom = λ w fd room.
      (let bytes : Bytes = take room (w.supply fd) in
        some (
          arrive w fd bytes,
          (length (w.supply fd), (record { ipv4_numeric = 1; port = 2 }, bytes)),
        ));
  sendmsg = λ w fd to payload. some (leave w fd (shown payload), length (shown payload));
}
