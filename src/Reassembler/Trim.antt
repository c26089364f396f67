-- ===== src/Reassembler/Trim.antt =====
-- The cuts of `push_substring` (libsponge/stream_reassembler.cc) at both ends of the window.
use csed353_tcp.Prelude.{
  ℕ, suc, ◌+◌, ◌-◌, ◌≤◌, ◌<◌, ◌≡◌, refl, ◌&&◌, List, [], ◌∷◌, arith, leb, ltb, length, min, some,
  inl, inr, Bool-cases, u64_mod, add64, sub64, drop,
}
use csed353_tcp.Reassembler.{Inforsubstr, Stored, trim_front, trim_chunk, trim_back}
use csed353_tcp.Reassembler.Slice.{take-slice, drop-slice}
use csed353_tcp.Reassembler.Chunks.{
  Good, Spaced, total, inside, covers, Good-length, total_bound, covers_below, Straddle,
}

-- A list of stored bytes in `lo .. hi`, counted.
pub record Kept (f : ℕ → ℕ) (lo hi : ℕ) (s : Stored) : Type 0 where
  pub spaced : Spaced f lo hi s.chunks
  pub counted : s.count ≡ total s.chunks

-- The front without what lies before `fi`.
abbrev pub front_cut : ℕ → Inforsubstr → Inforsubstr
front_cut fi c = record c { first = fi; bytes = drop (fi - c.first) c.bytes }

pub drop_front_Good :
    (f : ℕ → ℕ) (fi : ℕ) (c : Inforsubstr)
    → Good f c
    → c.first ≤ fi
    → fi ≤ c.last
    → Good f (front_cut fi c)
drop_front_Good f fi c g h k =
    let e : c.first + (fi - c.first) ≡ fi = omega arith in
    let e' : suc c.last - c.first - (fi - c.first) ≡ suc c.last - fi = omega arith in
    record {
      ordered = k;
      bytes_of = ground (arith, e, e', drop-slice f (fi - c.first) c.first (suc c.last - c.first));
    }

-- front
pub trim_front-Kept :
    (f : ℕ → ℕ) (lo fi b hi n : ℕ) (cs : List Inforsubstr)
    → Kept f lo hi (record { chunks = cs; count = n })
    → Straddle b fi cs
    → fi < b
    → lo ≤ hi
    → lo ≤ fi
    → hi < u64_mod
    → (out : Stored) × (trim_front fi (record { chunks = cs; count = n }) ≡ some out)
      × Kept f fi hi out
      × Straddle b fi out.chunks
      × ((i : ℕ) → covers i out.chunks ≡ covers i cs && leb fi i)
unfolding trim_front
trim_front-Kept f lo fi b hi n [] k st hb hl hf hm =
    (_, refl, record { spaced = tt; counted = k.counted }, tt, λ i. refl)
trim_front-Kept f lo fi b hi n (c ∷ cs) k st hb hl hf hm =
    let len = Good-length f c k.spaced.0 in
    let bound = total_bound f lo hi (c ∷ cs) hl k.spaced in
    elim (Bool-cases (ltb c.first fi)) [
      | inl cut ↦
          let d : Inforsubstr = front_cut fi c in
          let dropped = drop_front_Good f fi c k.spaced.0 (ground arith) st.1 in
          let sub : sub64 fi c.first ≡ fi - c.first = ground arith in
          (
            record { chunks = d ∷ cs; count = add64 (sub64 n (length c.bytes)) (length d.bytes) },
            ground (arith, sub),
            record {
              spaced = (dropped, omega arith, k.spaced.2, k.spaced.3);
              counted = omega (arith, Good-length f d dropped, k.counted);
            },
            (hb, st.1, st.2),
            λ i. ground (arith, covers_below f (suc (suc c.last)) hi i cs k.spaced.3),
          )
      | inr whole ↦ (
        record { chunks = c ∷ cs; count = n },
        ground arith,
        record { spaced = (k.spaced.0, ground arith, k.spaced.2, k.spaced.3); counted = k.counted },
        st,
        λ i. ground (arith, covers_below f (suc (suc c.last)) hi i cs k.spaced.3),
      )
    ]

-- The back
pub trim_chunk-Good :
    (f : ℕ → ℕ) (limit : ℕ) (c : Inforsubstr)
    → Good f c
    → c.first < limit
    → limit ≤ suc c.last
    → limit < u64_mod
    → Good f (trim_chunk limit c)
      × ((trim_chunk limit c).first ≡ c.first)
      × (suc (trim_chunk limit c).last ≡ limit)
unfolding trim_chunk
trim_chunk-Good f limit c g h k hm =
    let e : sub64 limit c.first ≡ limit - c.first = omega arith in
    let e' : min (limit - c.first) (suc c.last - c.first) ≡ suc (limit - 1) - c.first =
      omega arith in
    let l : sub64 limit 1 ≡ limit - 1 = omega arith in
    (
      record {
        ordered = omega (arith, l);
        bytes_of =
            ground (arith, e, e', l, take-slice f (limit - c.first) c.first (suc c.last - c.first));
      },
      refl,
      omega (arith, l),
    )

trim_back_one :
    (f : ℕ → ℕ) (limit hi : ℕ) (c : Inforsubstr) (lo k n : ℕ)
    → Good f c
    → lo ≤ c.first
    → c.last < hi
    → c.first < limit
    → n ≡ k + length c.bytes
    → k ≤ lo
    → limit < u64_mod
    → hi < u64_mod
    → let out = trim_back limit (c ∷ []) n in
      Spaced f lo (min limit hi) out.chunks
      × (out.count ≡ k + total out.chunks)
      × ((i : ℕ) → covers i out.chunks ≡ inside i c && ltb i limit)
unfolding trim_back
trim_back_one f limit hi c lo k n g hl hh hb hn hk hm hhm =
    let len = Good-length f c g in
    elim (Bool-cases (leb limit (add64 c.last 1))) [
      | inl cut ↦
          let t = trim_chunk-Good f limit c g hb (ground arith) hm in
          let len' = Good-length f (trim_chunk limit c) t.0 in
          (ground (arith, t), ground (arith, t, len, len'), λ i. ground (arith, t))
      | inr whole ↦ (ground arith, ground arith, λ i. ground arith)
    ]

pub trim_back-Kept :
    (f : ℕ → ℕ) (limit hi e : ℕ) (cs : List Inforsubstr) (lo k n : ℕ)
    → Spaced f lo hi cs
    → n ≡ k + total cs
    → k ≤ lo
    → Straddle limit e cs
    → limit < u64_mod
    → hi < u64_mod
    → let out = trim_back limit cs n in
      Spaced f lo (min limit hi) out.chunks
      × (out.count ≡ k + total out.chunks)
      × ((i : ℕ) → covers i out.chunks ≡ covers i cs && ltb i limit)
unfolding trim_back
trim_back-Kept f limit hi e [] lo k n sp hn hk st hm hh = (tt, hn, λ i. refl)
trim_back-Kept f limit hi e (c ∷ []) lo k n sp hn hk st hm hh =
    let one = trim_back_one f limit hi c lo k n sp.0 sp.1 sp.2 st.0 (omega arith) hk hm hh in
    (one.0, one.1, λ i. ground (arith, one.2 i))
trim_back-Kept f limit hi e (c ∷ d ∷ cs) lo k n sp hn hk st hm hh =
    let len = Good-length f c sp.0 in
    let ih =
      trim_back-Kept f limit hi e (d ∷ cs) (suc (suc c.last)) (k + length c.bytes) n sp.3
        (omega arith) (omega (arith, sp.1, sp.0.ordered)) st.2 hm hh in
    (
      (sp.0, sp.1, omega (arith, sp.2, sp.3.1, st.2.0), ih.0),
      omega (arith, ih.1),
      λ i. ground (arith, ih.2 i),
    )
