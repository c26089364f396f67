-- ===== src/Reassembler/Merge.antt =====
-- The loop of `push_substring` (libsponge/stream_reassembler.cc) makes the union of the stored
-- substrings and the new one.
use csed353_tcp.Prelude.{
  ℕ, suc, ◌+◌, ◌-◌, ◌≤◌, ◌<◌, ◌≡◌, refl, ◌||◌, List, [], ◌∷◌, ◌++◌, arith, ltb, length, min, max,
  some, inl, inr, Bool-cases, u64_mod, add64, sub64, drop,
}
use csed353_tcp.Reassembler.{Inforsubstr, Stored, absorb, merge_loop}
use csed353_tcp.Reassembler.Slice.{slice, slice-append, drop-slice}
use csed353_tcp.Reassembler.Chunks.{
  Good, Spaced, total, inside, covers, Good-length, Spaced-mono, total_bound, Straddle,
}

-- Two substrings of the stream that overlap or touch.
abbrev Meets : Inforsubstr → Inforsubstr → Type 0
Meets t sub = (sub.first ≤ suc t.last) × (t.first ≤ suc sub.last)

-- The union
pub join : (ℕ → ℕ) → Inforsubstr → Inforsubstr → Inforsubstr
join f t sub = record {
  first = min t.first sub.first;
  last = max t.last sub.last;
  bytes = slice f (min t.first sub.first) (suc (max t.last sub.last) - min t.first sub.first);
}

drop_union :
    (f : ℕ → ℕ) (a b c d : ℕ)
    → a ≤ suc b
    → c ≤ suc b
    → a ≤ c
    → b ≤ d
    → c ≤ d
    → slice f a (suc b - a) ++ drop (suc b - c) (slice f c (suc d - c)) ≡ slice f a (suc d - a)
drop_union f a b c d h1 h2 h3 h4 h5 =
    let e : c + (suc b - c) ≡ a + (suc b - a) = omega arith in
    let k : suc d - c - (suc b - c) ≡ suc d - suc b = omega arith in
    let m : suc b - a + (suc d - suc b) ≡ suc d - a = omega arith in
    ground (
      arith,
      drop-slice f (suc b - c) c (suc d - c),
      slice-append f a (suc b - a) (suc d - suc b),
      e,
      k,
      m,
    )

absorb-join :
    (f : ℕ → ℕ) (t sub : Inforsubstr)
    → Good f t
    → Good f sub
    → Meets t sub
    → suc t.last < u64_mod
    → suc sub.last < u64_mod
    → absorb t sub ≡ some (join f t sub)
unfolding absorb join
absorb-join f t sub gt gs m ht hs =
    let p : sub64 (add64 t.last 1) sub.first ≡ suc t.last - sub.first = omega arith in
    let q : sub64 (add64 sub.last 1) t.first ≡ suc sub.last - t.first = omega arith in
    ground (
      arith,
      p,
      q,
      Good-length f t gt,
      Good-length f sub gs,
      drop_union f t.first t.last sub.first sub.last,
      drop_union f sub.first sub.last t.first t.last,
    )

join_ends :
    (f : ℕ → ℕ) (t sub : Inforsubstr)
    → ((join f t sub).first ≡ min t.first sub.first) × ((join f t sub).last ≡ max t.last sub.last)
unfolding join
join_ends f t sub = (refl, refl)

join-Good : (f : ℕ → ℕ) (t sub : Inforsubstr) → Good f t → Good f sub → Good f (join f t sub)
unfolding join
join-Good f t sub gt gs = ground arith

inside-join :
    (f : ℕ → ℕ) (t sub : Inforsubstr) (i : ℕ)
    → Good f t
    → Good f sub
    → Meets t sub
    → inside i (join f t sub) ≡ inside i t || inside i sub
unfolding join
inside-join f t sub i gt gs m = ground arith

-- What the loop makes of `cs` and `sub`, of which `k` bytes were counted before.
pub record Merged (f : ℕ → ℕ) (b e lo hi k : ℕ) (cs : List Inforsubstr) (sub : Inforsubstr)
    (out : Stored) : Type 0 where
  pub spaced : Spaced f lo hi out.chunks
  pub counted : out.count ≡ k + total out.chunks
  pub covering : (i : ℕ) → covers i out.chunks ≡ covers i cs || inside i sub
  pub ends : Straddle b e out.chunks

-- The new substring lies before the stored ones: it is inserted.
insert-Merged :
    (f : ℕ → ℕ) (b e hi : ℕ) (cs : List Inforsubstr) (sub : Inforsubstr) (lo k n : ℕ)
    → hi < u64_mod
    → Spaced f (suc (suc sub.last)) hi cs
    → Good f sub
    → lo ≤ sub.first
    → sub.last < hi
    → k ≤ lo
    → n ≡ k + total cs
    → sub.first < b
    → e ≤ sub.last
    → Straddle b e cs
    → Merged f b e lo hi k cs sub (record { chunks = sub ∷ cs; count = add64 n (length sub.bytes) })
insert-Merged f b e hi cs sub lo k n hm sp gs hl hh hk hn hb he es =
    let sp' : Spaced f lo hi (sub ∷ cs) = (gs, hl, hh, sp) in
    record {
      spaced = sp';
      counted = omega (arith, total_bound f lo hi (sub ∷ cs) (omega (arith, gs.ordered)) sp');
      covering = λ i. ground arith;
      ends = (hb, he, es);
    }

-- A stored substring that lies before the new one stays.
skip-Merged :
    (f : ℕ → ℕ) (b e hi : ℕ) (t : Inforsubstr) (ts : List Inforsubstr) (sub : Inforsubstr)
    (lo k : ℕ) (out : Stored)
    → Spaced f lo hi (t ∷ ts)
    → Straddle b e (t ∷ ts)
    → Merged f b e (suc (suc t.last)) hi (k + length t.bytes) ts sub out
    → Merged f b e lo hi k (t ∷ ts) sub (record out { chunks = t ∷ out.chunks })
skip-Merged f b e hi t ts sub lo k out sp es m = record {
  spaced = (sp.0, sp.1, sp.2, m.spaced);
  counted = omega (arith, m.counted);
  covering = λ i. ground (arith, m.covering i);
  ends = (es.0, es.1, m.ends);
}

-- A stored substring that meets the new one is replaced by their union.
join-Merged :
    (f : ℕ → ℕ) (b e hi : ℕ) (t : Inforsubstr) (ts : List Inforsubstr) (sub : Inforsubstr)
    (lo k : ℕ) (out : Stored)
    → Good f t
    → Good f sub
    → Meets t sub
    → Merged f b e lo hi k ts (join f t sub) out
    → Merged f b e lo hi k (t ∷ ts) sub out
join-Merged f b e hi t ts sub lo k out gt gs mt m = record {
  spaced = m.spaced;
  counted = m.counted;
  covering = λ i. ground (arith, m.covering i, inside-join f t sub i gt gs mt);
  ends = m.ends;
}

-- The loop
pub merge_loop-Merged :
    (f : ℕ → ℕ) (b e hi : ℕ) (cs : List Inforsubstr) (sub : Inforsubstr) (lo k n : ℕ)
    → hi < u64_mod
    → Spaced f lo hi cs
    → Good f sub
    → lo ≤ sub.first
    → sub.last < hi
    → k ≤ lo
    → n ≡ k + total cs
    → sub.first < b
    → e ≤ sub.last
    → Straddle b e cs
    → (out : Stored) × (merge_loop cs sub n ≡ some out) × Merged f b e lo hi k cs sub out
unfolding merge_loop
merge_loop-Merged f b e hi [] sub lo k n hm sp gs hl hh hk hn hb he es =
    (_, refl, insert-Merged f b e hi [] sub lo k n hm tt gs hl hh hk hn hb he es)
merge_loop-Merged f b e hi (t ∷ ts) sub lo k n hm sp gs hl hh hk hn hb he es =
    elim (Bool-cases (ltb (add64 t.first (length t.bytes)) sub.first)) [
      | inl before ↦
          let len = Good-length f t sp.0 in
          let (out, eq, m) =
            merge_loop-Merged f b e hi ts sub (suc (suc t.last)) (k + length t.bytes) n hm sp.3 gs
              (ground arith) hh (ground arith) (omega arith) hb he es.2 in
          (
            record out { chunks = t ∷ out.chunks },
            ground (arith, eq),
            skip-Merged f b e hi t ts sub lo k out sp es m,
          )
      | inr here ↦ elim (Bool-cases (ltb (add64 sub.last 1) t.first)) [
        | inl after ↦ (
          _,
          ground arith,
          insert-Merged f b e hi (t ∷ ts) sub lo k n hm (sp.0, ground arith, sp.2, sp.3) gs hl hh hk
              hn hb he es,
        )
        | inr touch ↦
            let len = Good-length f t sp.0 in
            let mt : Meets t sub = (ground arith, ground arith) in
            let ends = join_ends f t sub in
            let bound = total_bound f lo hi (t ∷ ts) (omega (arith, sp.1, sp.2, sp.0.ordered)) sp in
            let (out, eq, m) =
              merge_loop-Merged f b e hi ts (join f t sub) lo k (sub64 n (length t.bytes)) hm
                (Spaced-mono f lo (suc (suc t.last)) hi ts (omega arith) sp.3)
                (join-Good f t sub sp.0 gs) (omega (arith, sp.1, ends.0))
                (omega (arith, sp.2, ends.1)) hk (omega (arith, bound)) (omega (arith, ends.0))
                (omega (arith, ends.1)) es.2 in
            (
              out,
              ground (arith, eq, absorb-join f t sub sp.0 gs mt (omega arith) (omega arith)),
              join-Merged f b e hi t ts sub lo k out sp.0 gs mt m,
            )
      ]
    ]
