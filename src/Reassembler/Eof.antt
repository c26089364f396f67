-- ===== src/Reassembler/Eof.antt =====
-- When `push_substring` (libsponge/stream_reassembler.cc) ends the output.
use csed353_tcp.Prelude.{
  ℕ, ◌+◌, ◌-◌, ◌≤◌, ◌<◌, ◌≡◌, ◌≢◌, ◌⊎◌, inl, inr, refl, sym, ap, ◌∙◌, Bool, true, false, ◌&&◌, ◌||◌,
  some, List, [], ◌∷◌, arith, min, max, length, Bytes, ltb, ◌==◌, Bool-cases, ltb→lt, ltb→le,
}
use csed353_tcp.ByteStream
use csed353_tcp.Reassembler.{
  StreamReassembler, Inforsubstr, deliver, deliver_front, send_part, send_whole, finish, empty,
  push_substring,
}
use csed353_tcp.Reassembler.Slice.{slice}
use csed353_tcp.Reassembler.Chunks.{Spaced, covers, total}
use csed353_tcp.Reassembler.Deliver.{deliver-Moved}
use csed353_tcp.Reassembler.State.{Inv, holds}
use csed353_tcp.Reassembler.Push.{
  noted, noted-Inv, whole, whole-Good, trimmed, trimmed-Inv, store_eq, holds-trimmed,
}

-- The end of a stream of `n` bytes is announced, and the output ended, consistently.
pub record EofInv (n : ℕ) (r : StreamReassembler) : Type 0 where
  pub announced : r.checkeof ≡ true → holds (n - 1) r ≡ true
  pub ended : ByteStream.input_ended r.output ≡ true → r.firstindex ≡ n
  pub complete : r.checkeof ≡ true → r.firstindex ≡ n → ByteStream.input_ended r.output ≡ true

end-write :
    (o : ByteStream.ByteStream) (bytes : Bytes)
    → ByteStream.input_ended (ByteStream.write o bytes).0 ≡ ByteStream.input_ended o
unfolding ByteStream.write ByteStream.input_ended
end-write o bytes = refl

end-finish :
    (r : StreamReassembler)
    → ByteStream.input_ended (finish r).output ≡ (
        ByteStream.input_ended r.output
        || (empty r.storelist r.private_unassembled_bytes && r.checkeof))
unfolding finish ByteStream.end_input ByteStream.input_ended
end-finish r = ground arith

-- From `r` to `r'` the output is ended only when nothing is stored after an announcement, and then
-- it is.
record Ends (r r' : StreamReassembler) : Type 0 where
  sound :
      ByteStream.input_ended r'.output ≡ true
      → (ByteStream.input_ended r.output ≡ true) ⊎ ((r'.checkeof ≡ true) × (r'.storelist ≡ []))
  complete :
      r'.storelist ≡ []
      → r'.private_unassembled_bytes ≡ 0
      → r'.checkeof ≡ true
      → ByteStream.input_ended r'.output ≡ true

finish_fields :
    (r : StreamReassembler)
    → ((finish r).storelist ≡ r.storelist)
      × ((finish r).private_unassembled_bytes ≡ r.private_unassembled_bytes)
      × ((finish r).checkeof ≡ r.checkeof)
unfolding finish
finish_fields r = ground arith

empty_iff :
    (cs : List Inforsubstr) (count : ℕ)
    → (empty cs count ≡ true → cs ≡ []) × (cs ≡ [] → count ≡ 0 → empty cs count ≡ true)
unfolding empty
empty_iff [] count = ground arith
empty_iff (c ∷ cs) count = ground arith

finish-Ends :
    (r q : StreamReassembler)
    → ByteStream.input_ended q.output ≡ ByteStream.input_ended r.output
    → Ends r (finish q)
finish-Ends r q h =
    let k = empty_iff q.storelist q.private_unassembled_bytes in
    let fs = finish_fields q in
    let e = end-finish q in
    record { sound = λ p. ground (arith, k, fs, e); complete = λ a b c. ground (arith, k, fs, e) }

kept_Ends : (r : StreamReassembler) → r.storelist ≢ [] → Ends r r
kept_Ends r ne = record { sound = inl; complete = λ a b c. absurd (ne a) }

deliver_front-Ends :
    (r : StreamReassembler) (c : Inforsubstr) (cs : List Inforsubstr)
    → r.storelist ≢ []
    → Ends r (deliver_front r c cs)
unfolding deliver_front send_part send_whole
deliver_front-Ends r c cs ne = elim (Bool-cases (c.first == r.firstindex)) [
  | inl here ↦ elim (Bool-cases (ltb (ByteStream.remaining_capacity r.output) (length c.bytes))) [
    | inl lt ↦ ground (
      arith,
      finish-Ends r (send_part r c cs (ByteStream.remaining_capacity r.output))
          (end-write r.output _),
    )
    | inr ge ↦ ground (arith, finish-Ends r (send_whole r c cs) (end-write r.output _))
  ]
  | inr away ↦ ground (arith, kept_Ends r ne)
]

deliver_list-Ends :
    (r : StreamReassembler) (cs : List Inforsubstr)
    → r.storelist ≡ cs
    → cs ≢ []
    → Ends r (deliver r)
unfolding deliver
deliver_list-Ends r [] e ne = absurd (ne refl)
deliver_list-Ends r (c ∷ cs) e ne =
    ground (arith, e, deliver_front-Ends r c cs (λ p. ne (sym e ∙ p)))

nothing_left :
    (f : ℕ → ℕ) (lo hi : ℕ) (cs : List Inforsubstr) → hi ≤ lo → Spaced f lo hi cs → cs ≡ []
nothing_left f lo hi [] h sp = refl
nothing_left f lo hi (c ∷ cs) h sp = absurd (omega (arith, sp.0.ordered, sp.1, sp.2))

-- The stage that delivers keeps the end in step, from a state with something stored.
deliver-EofInv :
    (f : ℕ → ℕ) (n : ℕ) (t : StreamReassembler)
    → Inv f n t
    → t.storelist ≢ []
    → t.firstindex < n
    → (ByteStream.input_ended t.output ≡ true → t.firstindex ≡ n)
    → (t.checkeof ≡ true → holds (n - 1) t ≡ true)
    → EofInv n (deliver t)
deliver-EofInv f n t v ne lt he ha =
    let r' : StreamReassembler = deliver t in
    let m = deliver-Moved f n t v in
    let ends = deliver_list-Ends t t.storelist refl ne in
    let announced : r'.checkeof ≡ true → holds (n - 1) r' ≡ true =
      λ p. m.holding (n - 1) ∙ ha (sym m.same_eof ∙ p) in
    record {
      announced = announced;
      ended = λ p. elim (ends.sound p) [
        | inl old ↦ absurd (omega (arith, he old))
        | inr (c, e) ↦
            let all = announced c in
            let none_stored : covers (n - 1) r'.storelist ≡ false = ap (covers (n - 1)) e in
            ground (arith, all, none_stored, m.inv.reached)
      ];
      complete = λ p x.
          let e =
            nothing_left f r'.firstindex (min (r'.firstindex + r'.capacity) n) r'.storelist
              (omega arith) m.inv.spaced in
          ends.complete e (m.inv.counted ∙ ap total e) p;
    }

-- A push of a stretch of the stream that starts in the window keeps the end in step, where the end
-- is announced only with new bytes that the window has room for: once the end was announced the last
-- byte is held; the output is ended only when all of the stream was written to it; and it is
-- ended then, if the end was announced.
pub push_substring-EofInv :
    (f : ℕ → ℕ) (n : ℕ) (r : StreamReassembler) (bytes : Bytes) (index : ℕ) (eof : Bool)
    → Inv f n r
    → EofInv n r
    → bytes ≡ slice f index (length bytes)
    → 0 < length bytes
    → index + length bytes ≤ n
    → index < r.firstindex + r.capacity
    → (eof ≡ true
        → (index + length bytes ≡ n) × (n ≤ r.firstindex + r.capacity) × (r.firstindex < n))
    → (r' : StreamReassembler) × (push_substring r bytes index eof ≡ some r') × EofInv n r'
unfolding push_substring
push_substring-EofInv f n r bytes index eof v w e pos fits starts he =
    let q : StreamReassembler = noted r eof in
    let sub : Inforsubstr = whole bytes index in
    let vq = noted-Inv f n r eof v in
    let g = whole-Good f bytes index e pos (omega (arith, v.small, v.room)) in
    elim (Bool-cases (ltb sub.last r.firstindex)) [
      | inl old ↦ (
        q,
        ground (arith, old),
        record {
          announced = λ p. ground (arith, he, w.announced, g.1, ltb→lt _ _ old);
          ended = w.ended;
          complete = λ p x. ground (arith, he, w.complete, g.1, ltb→lt _ _ old);
        },
      )
      | inr new ↦
          let le = ltb→le _ _ new in
          let t : StreamReassembler = trimmed f n q sub vq g.0 le (omega (arith, g.1)) starts in
          let h = holds-trimmed f n q sub vq g.0 le (omega (arith, g.1)) starts in
          let kept : t.storelist ≢ [] = λ x.
            ground (arith, h (max index r.firstindex), ap (covers (max index r.firstindex)) x) in
          (
            deliver t,
            ground (arith, new, store_eq f n q sub vq g.0 le (omega (arith, g.1)) starts),
            deliver-EofInv f n t (trimmed-Inv f n q sub vq g.0 le (omega (arith, g.1)) starts) kept
                (omega (arith, g.1)) w.ended (λ p. ground (arith, h (n - 1), he, w.announced, g.1)),
          )
    ]
