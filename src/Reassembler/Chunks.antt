-- ===== src/Reassembler/Chunks.antt =====
-- Stored substrings that hold stretches of one stream, in order and with gaps between them.
use csed353_tcp.Prelude.{
  ℕ, suc, ◌+◌, ◌-◌, ◌≤◌, ◌<◌, ◌≡◌, Bool, false, ◌&&◌, ◌||◌, List, [], ◌∷◌, arith, leb, length,
}
use csed353_tcp.Reassembler.{Inforsubstr}
use csed353_tcp.Reassembler.Slice.{slice, length-slice}

-- A stored substring holds the bytes `first .. last` of the stream, at least one.
pub record Good (f : ℕ → ℕ) (c : Inforsubstr) : Type 0 where
  pub ordered : c.first ≤ c.last
  pub bytes_of : c.bytes ≡ slice f c.first (suc c.last - c.first)

-- The list lies within `lo .. hi`, sorted, and two neighbours do not touch.
abbrev pub Spaced : (ℕ → ℕ) → ℕ → ℕ → List Inforsubstr → Type 0
Spaced f lo hi [] = Unit {0}
Spaced f lo hi (c ∷ cs) =
    Good f c × (lo ≤ c.first) × (c.last < hi) × Spaced f (suc (suc c.last)) hi cs

abbrev pub total : List Inforsubstr → ℕ
total [] = 0
total (c ∷ cs) = length c.bytes + total cs

-- Byte `i` of the stream is in the substring, or in one of the list.
abbrev pub inside : ℕ → Inforsubstr → Bool
inside i c = leb c.first i && leb i c.last

abbrev pub covers : ℕ → List Inforsubstr → Bool
covers i [] = false
covers i (c ∷ cs) = inside i c || covers i cs

pub Good-length : (f : ℕ → ℕ) (c : Inforsubstr) → Good f c → length c.bytes ≡ suc c.last - c.first
Good-length f c g = ground (arith, length-slice f c.first (suc c.last - c.first))

pub Spaced-mono :
    (f : ℕ → ℕ) (lo lo' hi : ℕ) (cs : List Inforsubstr)
    → lo ≤ lo'
    → Spaced f lo' hi cs
    → Spaced f lo hi cs
Spaced-mono f lo lo' hi [] h s = tt
Spaced-mono f lo lo' hi (c ∷ cs) h s = (s.0, omega (arith, s.1), s.2, s.3)

-- The substrings of a list fit between its bounds.
pub total_bound :
    (f : ℕ → ℕ) (lo hi : ℕ) (cs : List Inforsubstr)
    → lo ≤ hi
    → Spaced f lo hi cs
    → total cs + lo ≤ hi
total_bound f lo hi [] h s = omega arith
total_bound f lo hi (c ∷ []) h s = omega (arith, Good-length f c s.0, s.1, s.2)
total_bound f lo hi (c ∷ d ∷ cs) h s = omega (
  arith,
  Good-length f c s.0,
  s.1,
  s.2,
  s.3.1,
  s.3.2,
  total_bound f (suc (suc c.last)) hi (d ∷ cs) (omega (arith, s.3.1, s.3.2, s.3.0.ordered)) s.3,
)

-- covers below
pub covers_below :
    (f : ℕ → ℕ) (lo hi i : ℕ) (cs : List Inforsubstr)
    → Spaced f lo hi cs
    → i < lo
    → covers i cs ≡ false
covers_below f lo hi i [] s h = ground arith
covers_below f lo hi i (c ∷ cs) s h = ground (arith, covers_below f (suc (suc c.last)) hi i cs s.3)

-- Every substring of the list starts before `b`, and ends at `e` or after it.
abbrev pub Straddle : ℕ → ℕ → List Inforsubstr → Type 0
Straddle b e [] = Unit {0}
Straddle b e (c ∷ cs) = (c.first < b) × (e ≤ c.last) × Straddle b e cs

pub Spaced-mono_hi :
    (f : ℕ → ℕ) (lo hi hi' : ℕ) (cs : List Inforsubstr)
    → hi ≤ hi'
    → Spaced f lo hi cs
    → Spaced f lo hi' cs
Spaced-mono_hi f lo hi hi' [] h s = tt
Spaced-mono_hi f lo hi hi' (c ∷ cs) h s =
    (s.0, s.1, omega (arith, s.2), Spaced-mono_hi f (suc (suc c.last)) hi hi' cs h s.3)

pub Spaced-Straddle :
    (f : ℕ → ℕ) (lo hi b e : ℕ) (cs : List Inforsubstr)
    → hi ≤ b
    → e ≤ lo
    → Spaced f lo hi cs
    → Straddle b e cs
Spaced-Straddle f lo hi b e [] h k s = tt
Spaced-Straddle f lo hi b e (c ∷ cs) h k s = (
  omega (arith, s.2, s.0.ordered),
  omega (arith, s.1, s.0.ordered),
  Spaced-Straddle f (suc (suc c.last)) hi b e cs h (omega (arith, s.1, s.0.ordered)) s.3,
)

-- No byte from the upper bound on is covered.
pub covers_above :
    (f : ℕ → ℕ) (lo hi i : ℕ) (cs : List Inforsubstr)
    → Spaced f lo hi cs
    → hi ≤ i
    → covers i cs ≡ false
covers_above f lo hi i [] s h = ground arith
covers_above f lo hi i (c ∷ cs) s h = ground (arith, covers_above f (suc (suc c.last)) hi i cs s.3)
