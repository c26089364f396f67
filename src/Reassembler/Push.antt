-- ===== src/Reassembler/Push.antt =====
-- `push_substring` (libsponge/stream_reassembler.cc) as a whole.
use csed353_tcp.Prelude.{
  ℕ, suc, ◌+◌, ◌-◌, ◌≤◌, ◌<◌, ◌≡◌, refl, ◌∙◌, Bool, true, ◌&&◌, ◌||◌, arith, leb, ltb,
  if◌then◌else◌, length, min, Bytes, some, inl, inr, Bool-cases, u64_mod, add64, sub64, ltb→lt,
  ltb→le,
}
use csed353_tcp.Reassembler.{
  Inforsubstr, Stored, StreamReassembler, merge_loop, trim_front, trim_back, deliver, store,
  push_substring,
}
use csed353_tcp.Reassembler.Slice.{slice}
use csed353_tcp.Reassembler.Chunks.{
  Good, Spaced, total, inside, covers, Spaced-mono, Spaced-mono_hi, Straddle, Spaced-Straddle,
  covers_above,
}
use csed353_tcp.Reassembler.Merge.{Merged, merge_loop-Merged}
use csed353_tcp.Reassembler.Trim.{Kept, trim_front-Kept, trim_back-Kept}
use csed353_tcp.Reassembler.Deliver.{deliver-Moved}
use csed353_tcp.Reassembler.State.{Inv, Moved, holds}

-- From `r` to `r'` a stretch of `size` bytes of the stream `f` from `index` on was pushed.
pub record Pushed (f : ℕ → ℕ) (n index size : ℕ) (r r' : StreamReassembler) : Type 0 where
  pub inv : Inv f n r'
  pub holding :
      (i : ℕ)
      → holds i r'
        ≡ holds i r || (leb index i && ltb i (index + size) && ltb i (r.firstindex + r.capacity))
  pub stalled :
      r.firstindex < index + size
      → covers r'.firstindex r'.storelist ≡ true
      → length r'.output.content ≡ r'.capacity
  pub unread : r'.output.alread ≡ r.output.alread
  pub same_capacity : r'.capacity ≡ r.capacity

module _ (f : ℕ → ℕ) (n : ℕ) (r : StreamReassembler) (sub : Inforsubstr) (v : Inv f n r)
    (g : Good f sub) (new : r.firstindex ≤ sub.last) (fits : sub.last < n)
    (starts : sub.first < r.firstindex + r.capacity) where
  abbrev pub limit : ℕ
  limit = r.firstindex + r.capacity

  abbrev pub low : ℕ
  low = min r.firstindex sub.first

  pub merged :
      (out : Stored) × (merge_loop r.storelist sub r.private_unassembled_bytes ≡ some out)
      × Merged f limit r.firstindex low n 0 r.storelist sub out
  merged =
      merge_loop-Merged f limit r.firstindex n r.storelist sub low 0 r.private_unassembled_bytes
        (omega (arith, v.small))
        (Spaced-mono f low r.firstindex n r.storelist (omega arith)
          (Spaced-mono_hi f r.firstindex (min limit n) n r.storelist (omega arith) v.spaced))
        g (omega arith) fits (omega arith) (omega (arith, v.counted)) starts new
        (Spaced-Straddle f r.firstindex (min limit n) limit r.firstindex r.storelist (omega arith)
          (omega arith) v.spaced)

  pub front_cut_of :
      (out : Stored) × (trim_front r.firstindex merged.0 ≡ some out)
      × Kept f r.firstindex n out
      × Straddle limit r.firstindex out.chunks
      × ((i : ℕ) → covers i out.chunks ≡ covers i merged.0.chunks && leb r.firstindex i)
  front_cut_of =
      let m = merged.2 in
      trim_front-Kept f low r.firstindex limit n merged.0.count merged.0.chunks
        (record { spaced = m.spaced; counted = m.counted ∙ omega arith }) m.ends
        (omega (arith, v.room)) (omega arith) (omega arith) (omega (arith, v.small))

  abbrev pub cut : Stored
  cut = trim_back (add64 r.firstindex r.capacity) front_cut_of.0.chunks front_cut_of.0.count

  abbrev pub trimmed : StreamReassembler
  trimmed = record r { storelist = cut.chunks; private_unassembled_bytes = cut.count }

  limit_eq : add64 r.firstindex r.capacity ≡ limit
  limit_eq = omega (arith, v.small, v.reached)

  cut_of :
      Spaced f r.firstindex (min limit n) cut.chunks
      × (cut.count ≡ 0 + total cut.chunks)
      × ((i : ℕ) → covers i cut.chunks ≡ covers i front_cut_of.0.chunks && ltb i limit)
  cut_of =
      let t = front_cut_of in
      rw limit_eq (
        trim_back-Kept f limit n r.firstindex t.0.chunks r.firstindex 0 t.0.count t.2.spaced
          (omega (arith, t.2.counted)) (omega arith) t.3 (omega (arith, v.small, v.reached))
          (omega (arith, v.small)))

  pub trimmed-Inv : Inv f n trimmed
  trimmed-Inv = record {
    room = v.room;
    small = v.small;
    reached = v.reached;
    spaced = cut_of.0;
    counted = omega (arith, cut_of.1);
    delivered = v.delivered;
  }

  pub store_eq : store r sub ≡ some (deliver trimmed)
  unfolding store
  store_eq = ground (arith, merged.1, front_cut_of.1)

  pub holds-trimmed : (i : ℕ) → holds i trimmed ≡ holds i r || (inside i sub && ltb i limit)
  holds-trimmed i =
      let cut_at : covers i trimmed.storelist ≡ covers i front_cut_of.0.chunks && ltb i limit =
        cut_of.2 i in
      let front_at = front_cut_of.4 i in
      let merged_at = merged.2.covering i in
      let above = covers_above f r.firstindex (min limit n) i r.storelist v.spaced in
      ground (arith, cut_at, front_at, merged_at, above)

  pub store-Pushed : (r' : StreamReassembler) × (store r sub ≡ some r') × Moved f n trimmed r'
  store-Pushed = (deliver trimmed, store_eq, deliver-Moved f n trimmed trimmed-Inv)

-- The state in which a push of `eof` goes on.
abbrev pub noted : StreamReassembler → Bool → StreamReassembler
noted r eof = record r { checkeof = if eof then eof else r.checkeof }

pub noted-Inv :
    (f : ℕ → ℕ) (n : ℕ) (r : StreamReassembler) (eof : Bool) → Inv f n r → Inv f n (noted r eof)
noted-Inv f n r eof v = record {
  room = v.room;
  small = v.small;
  reached = v.reached;
  spaced = v.spaced;
  counted = v.counted;
  delivered = v.delivered;
}

-- A substring of the stream, with the index of its last byte as the code computes it.
abbrev pub whole : Bytes → ℕ → Inforsubstr
whole bytes index = record {
  first = index;
  last = sub64 (add64 index (length bytes)) 1;
  bytes = bytes;
}

pub whole-Good :
    (f : ℕ → ℕ) (bytes : Bytes) (index : ℕ)
    → bytes ≡ slice f index (length bytes)
    → 0 < length bytes
    → index + length bytes < u64_mod
    → Good f (whole bytes index) × (suc (whole bytes index).last ≡ index + length bytes)
whole-Good f bytes index e pos small =
    let l : suc (whole bytes index).last ≡ index + length bytes = omega arith in
    let k : suc (whole bytes index).last - index ≡ length bytes = omega arith in
    (record { ordered = omega (arith, l); bytes_of = rw k e }, l)

-- A push of a non-empty stretch of the stream that starts before the end of the window never throws.
-- After it the reassembler holds what it held and the bytes of the stretch that lie in the window,
-- and no others; it still holds stretches of the same stream; and unless the stretch was old, a byte that
-- could be written now is left only when the output is full.
pub push_substring-Pushed :
    (f : ℕ → ℕ) (n : ℕ) (r : StreamReassembler) (bytes : Bytes) (index : ℕ) (eof : Bool)
    → Inv f n r
    → bytes ≡ slice f index (length bytes)
    → 0 < length bytes
    → index + length bytes ≤ n
    → index < r.firstindex + r.capacity
    → (r' : StreamReassembler) × (push_substring r bytes index eof ≡ some r')
      × Pushed f n index (length bytes) r r'
unfolding push_substring
push_substring-Pushed f n r bytes index eof v e pos fits starts =
    let q : StreamReassembler = noted r eof in
    let sub : Inforsubstr = whole bytes index in
    let vq = noted-Inv f n r eof v in
    let w = whole-Good f bytes index e pos (omega (arith, v.small, v.room)) in
    elim (Bool-cases (ltb sub.last r.firstindex)) [
      | inl old ↦ (
        q,
        ground (arith, old),
        record {
          inv = vq;
          holding = λ i. ground (arith, w.1, ltb→lt _ _ old);
          stalled = λ h. absurd (omega (arith, w.1, ltb→lt _ _ old));
          unread = refl;
          same_capacity = refl;
        },
      )
      | inr new ↦
          let m = store-Pushed f n q sub vq w.0 (ltb→le _ _ new) (omega (arith, w.1)) starts in
          let h = holds-trimmed f n q sub vq w.0 (ltb→le _ _ new) (omega (arith, w.1)) starts in
          (
            m.0,
            ground (arith, m.1, new),
            record {
              inv = m.2.inv;
              holding = λ i. ground (arith, h i, m.2.holding i, w.1);
              stalled = λ _. m.2.stalled;
              unread = m.2.unread;
              same_capacity = m.2.same_capacity;
            },
          )
    ]
