-- ===== src/Receiver/Appended.antt =====
-- What a segment does with the bytes that the reassembler has written (libsponge/stream_reassembler.cc,
-- tcp_receiver.cc).
use csed353_tcp.Prelude.{
  ℕ, ◌≡◌, refl, sym, ap, ◌∙◌, subst, Bool, true, ◌&&◌, some, List, [], ◌∷◌, ◌++◌, append-nil,
  append_assoc, ltb, ◌==◌, if◌then◌else◌, Bytes, length, take, add64, sub64, Bool-cases, if_lem,
  inl, inr, bind-eq-some, some-injective,
}
use csed353_tcp.ByteStream
use csed353_tcp.ByteStream.{ByteStream}
use csed353_tcp.Reassembler
use csed353_tcp.Reassembler.{StreamReassembler, Inforsubstr, Stored}
use csed353_tcp.Receiver
use csed353_tcp.Receiver.{TcpReceiver}
use csed353_tcp.Segment.{TcpSegment}

-- The second is the first with bytes behind it.
abbrev pub Extends : Bytes → Bytes → Type 0
Extends xs ys = (more : Bytes) × (ys ≡ xs ++ more)

pub Extends-same : (xs ys : Bytes) → ys ≡ xs → Extends xs ys
Extends-same xs ys e = ([], e ∙ sym (append-nil xs))

pub Extends-trans : (xs ys zs : Bytes) → Extends xs ys → Extends ys zs → Extends xs zs
Extends-trans xs ys zs (m, e) (n, d) =
    (m ++ n, d ∙ ap (λ (x : Bytes). x ++ n) e ∙ append_assoc xs m n)

-- The output of a reassembler goes on from that of another.
abbrev pub Goes : StreamReassembler → StreamReassembler → Type 0
Goes r q = Extends r.output.content q.output.content

Goes-refl : (r : StreamReassembler) → Goes r r
Goes-refl r = Extends-same _ _ refl

write-Extends :
    (s : ByteStream) (bytes : Bytes) → Extends s.content (ByteStream.write s bytes).0.content
unfolding ByteStream.write
write-Extends s bytes = (_, refl)

finish-Goes : (r q : StreamReassembler) → Goes r q → Goes r (Reassembler.finish q)
unfolding Reassembler.finish ByteStream.end_input
finish-Goes r q g =
    if_lem (Goes r) (Reassembler.empty q.storelist q.private_unassembled_bytes && q.checkeof)
      {x = record q { output = ByteStream.end_input q.output }} {y = q} g g

deliver_front-Goes :
    (r : StreamReassembler) (front : Inforsubstr) (rest : List Inforsubstr)
    → Goes r (Reassembler.deliver_front r front rest)
unfolding Reassembler.deliver_front Reassembler.send_part Reassembler.send_whole
deliver_front-Goes r front rest =
    let rc : ℕ = ByteStream.remaining_capacity r.output in
    let part : StreamReassembler = Reassembler.send_part r front rest rc in
    let whole : StreamReassembler = Reassembler.send_whole r front rest in
    let q : StreamReassembler = if ltb rc (length front.bytes) then part else whole in
    let g : Goes r q =
      if_lem (Goes r) (ltb rc (length front.bytes)) {x = part} {y = whole}
        (write-Extends r.output (take rc front.bytes)) (write-Extends r.output front.bytes) in
    if_lem (Goes r) (front.first == r.firstindex) {x = Reassembler.finish q} {y = r}
      (finish-Goes r q g) (Goes-refl r)

deliver-Goes :
    (r : StreamReassembler) (chunks : List Inforsubstr) (count : ℕ)
    → Goes r
        (Reassembler.deliver (record r { storelist = chunks; private_unassembled_bytes = count }))
unfolding Reassembler.deliver
deliver-Goes r [] count = Goes-refl r
deliver-Goes r (front ∷ rest) count =
    deliver_front-Goes (record r { storelist = front ∷ rest; private_unassembled_bytes = count })
      front rest

store-Goes :
    (r q : StreamReassembler) (sub : Inforsubstr) → Reassembler.store r sub ≡ some q → Goes r q
unfolding Reassembler.store
store-Goes r q sub h =
    let (merged, _, h1) =
      bind-eq-some (Reassembler.merge_loop r.storelist sub r.private_unassembled_bytes) _ _ h in
    let (s, _, h2) = bind-eq-some (Reassembler.trim_front r.firstindex merged) _ _ h1 in
    let t : Stored = Reassembler.trim_back (add64 r.firstindex r.capacity) s.chunks s.count in
    subst (Goes r) (some-injective h2) (deliver-Goes r t.chunks t.count)

push_substring-Goes :
    (r q : StreamReassembler) (bytes : Bytes) (index : ℕ) (eof : Bool)
    → Reassembler.push_substring r bytes index eof ≡ some q
    → Goes r q
unfolding Reassembler.push_substring ByteStream.end_input
push_substring-Goes r₀ q bytes index eof h =
    let r : StreamReassembler = record r₀ { checkeof = if eof then eof else r₀.checkeof } in
    let sub_end : ℕ = sub64 (add64 index (length bytes)) 1 in
    let ended : StreamReassembler = record r { output = ByteStream.end_input r.output } in
    elim (Bool-cases (length bytes == 0)) [
      | inl none_left ↦ subst (Goes r) (some-injective (rw none_left at h)) (
          if_lem (Goes r) (r.checkeof && r.firstindex == index) {x = ended} {y = r} (Goes-refl r)
            (Goes-refl r))
      | inr some_left ↦ elim (Bool-cases (ltb sub_end r.firstindex)) [
        | inl past ↦ subst (Goes r) (some-injective (rw (some_left, past) at h)) (Goes-refl r)
        | inr now ↦
            store-Goes r q (record { first = index; last = sub_end; bytes = bytes })
              (rw (some_left, now) at h)
      ]
    ]

-- A push by the receiver.
push-Goes :
    (r q : TcpReceiver) (bytes : Bytes) (index : ℕ) (eof : Bool)
    → Receiver.push r bytes index eof ≡ some q
    → Goes r.reassembler q.reassembler
push-Goes r q bytes index eof h =
    let (s, e, d) = bind-eq-some (Reassembler.push_substring r.reassembler bytes index eof) _ _ h in
    subst (λ (x : TcpReceiver). Goes r.reassembler x.reassembler) (some-injective d)
      (push_substring-Goes r.reassembler s bytes index eof e)

synchronised-Goes :
    (r : TcpReceiver) (seg : TcpSegment) (q : TcpReceiver) (ok : Bool)
    → Receiver.synchronised r seg ≡ some (q, ok)
    → Goes r.reassembler q.reassembler
unfolding Receiver.synchronised
synchronised-Goes r seg q ok h =
    let (ack, _, h1) = bind-eq-some (Receiver.ackno r) _ _ h in
    let (s, e, h2) = bind-eq-some (Receiver.push r seg.payload _ seg.header.fin) _ _ h1 in
    subst (λ (x : TcpReceiver × Bool). Goes r.reassembler x.0.reassembler) (some-injective h2)
      (push-Goes r s seg.payload _ seg.header.fin e)

unsynchronised-Goes :
    (r : TcpReceiver) (seg : TcpSegment) (q : TcpReceiver) (ok : Bool)
    → Receiver.unsynchronised r seg ≡ some (q, ok)
    → Goes r.reassembler q.reassembler
unfolding Receiver.unsynchronised
unsynchronised-Goes r seg q ok h =
    let Kept : TcpReceiver × Bool → Type 0 = λ x. Goes r.reassembler x.0.reassembler in
    let fresh : TcpReceiver = record r {
      isn = seg.header.seqno;
      isnset = true;
      finset = seg.header.fin;
    } in
    elim (Bool-cases seg.header.syn) [
      | inl syn ↦
          let (s, e, h2) =
            bind-eq-some (Receiver.push fresh seg.payload 0 seg.header.fin) _ _ (rw syn at h) in
          subst Kept (some-injective h2) (push-Goes fresh s seg.payload 0 seg.header.fin e)
      | inr unset ↦ subst Kept (some-injective (rw unset at h)) (Goes-refl r.reassembler)
    ]

pub receiver-Goes :
    (r : TcpReceiver) (seg : TcpSegment) (q : TcpReceiver) (ok : Bool)
    → Receiver.segment_received r seg ≡ some (q, ok)
    → Goes r.reassembler q.reassembler
unfolding Receiver.segment_received
receiver-Goes r seg q ok h = elim (Bool-cases r.isnset) [
  | inl set ↦
      let g : Receiver.synchronised r seg ≡ some (q, ok) = sym (rw set refl) ∙ h in
      synchronised-Goes r seg q ok g
  | inr unset ↦
      let g : Receiver.unsynchronised r seg ≡ some (q, ok) = sym (rw unset refl) ∙ h in
      unsynchronised-Goes r seg q ok g
]
