-- ===== src/NetworkSimulator/Checked.antt =====
-- When `check` of a host of apps/network_simulator.cc is content.
use csed353_tcp.Prelude.{
  ℕ, suc, ◌<◌, ◌≡◌, ◌↔◌, refl, sym, ap, ◌∙◌, Bool, true, false, Option, none, some, List, [], ◌∷◌,
  arith, if◌then◌else◌, ◌>>=◌, Bytes, Bool-cases, inl, inr, some-injective,
}
use csed353_tcp.Ipv4.{Ipv4Datagram}
use csed353_tcp.NetworkSimulator.{
  Host, same_bytes, text, expecting, remove_expectation, check_queue, check,
}

same_bytes-eq : (a b : Bytes) → same_bytes a b ≡ true → a ≡ b
unfolding same_bytes
same_bytes-eq [] [] h = refl
same_bytes-eq [] (y ∷ ys) h = cc
same_bytes-eq (x ∷ xs) [] h = cc
same_bytes-eq (x ∷ xs) (y ∷ ys) h = ground (arith, same_bytes-eq xs ys)

same_bytes_self : (a : Bytes) → same_bytes a a ≡ true
unfolding same_bytes
same_bytes_self [] = refl
same_bytes_self (x ∷ xs) = ground (arith, same_bytes_self xs)

-- How often a text is in a list.
pub count : Bytes → List Bytes → ℕ
count t [] = 0
count t (u ∷ us) = if same_bytes u t then suc (count t us) else count t us

-- The texts of datagrams that can all be written.
abbrev pub texts : List Ipv4Datagram → Option (List Bytes)
texts [] = some []
texts (d ∷ ds) = text d >>= λ t. texts ds >>= λ ts. some (t ∷ ts)

-- The same on texts.
member : Bytes → List Bytes → Bool
member t [] = false
member t (u ∷ us) = if same_bytes u t then true else member t us

remove_first : Bytes → List Bytes → List Bytes
remove_first t [] = []
remove_first t (u ∷ us) = if same_bytes u t then us else u ∷ remove_first t us

matched : List Bytes → List Bytes → Option (List Bytes)
matched [] us = some us
matched (t ∷ ts) us =
    let rest = matched ts (remove_first t us) in if member t us then rest else none

count_remove :
    (t : Bytes) (us : List Bytes) (c : Bytes)
    → member t us ≡ true
    → count c us ≡ count c (t ∷ remove_first t us)
unfolding count member remove_first
count_remove t [] c h = cc
count_remove t (u ∷ us) c h = elim (Bool-cases (same_bytes u t)) [
  | inl y ↦ let e = same_bytes-eq u t y in rw (y) (rw e refl)
  | inr n ↦ let ih = count_remove t us c (sym (rw n refl) ∙ h) in rw n (ground (arith, ih))
]

member_count : (t : Bytes) (us : List Bytes) → 0 < count t us → member t us ≡ true
unfolding count member
member_count t [] h = absurd (omega (arith, h))
member_count t (u ∷ us) h = elim (Bool-cases (same_bytes u t)) [
  | inl y ↦ rw y refl
  | inr n ↦ rw n (member_count t us (ground (arith, n, h)))
]

count_self : (t : Bytes) (us : List Bytes) → 0 < count t (t ∷ us)
unfolding count
count_self t us = rw (same_bytes_self t) (omega arith)

-- If everything is matched, every text is as often in the one list as in the other, and conversely.
matched-count :
    (ts us : List Bytes) → matched ts us ≡ some [] → (c : Bytes) → count c ts ≡ count c us
unfolding matched count
matched-count [] us h c = ap (count c) (sym (some-injective h))
matched-count (t ∷ ts) us h c = elim (Bool-cases (member t us)) [
  | inr n ↦ absurd (let bad : none ≡ some [] = sym (rw n refl) ∙ h in cc)
  | inl y ↦
      let ih = matched-count ts (remove_first t us) (sym (rw y refl) ∙ h) c in
      ground (arith, ih, count_remove t us c y)
]

count-matched :
    (ts us : List Bytes) → ((c : Bytes) → count c ts ≡ count c us) → matched ts us ≡ some []
unfolding matched count
count-matched [] [] same = refl
count-matched [] (u ∷ us) same = absurd (omega (arith, same u, count_self u us))
count-matched (t ∷ ts) us same =
    let there : member t us ≡ true = member_count t us (omega (arith, same t, count_self t ts)) in
    rw there
      (count-matched ts (remove_first t us) λ c. ground (arith, same c, count_remove t us c there))

-- The datagrams can all be written, as these texts.
abbrev pub Written : List Ipv4Datagram → List Bytes → Type 0
Written [] [] = Unit
Written [] (t ∷ ts) = ⊥
Written (d ∷ ds) [] = ⊥
Written (d ∷ ds) (t ∷ ts) = (text d ≡ some t) × Written ds ts

expecting-member :
    (es : List Ipv4Datagram) (us : List Bytes) (d : Ipv4Datagram) (b : Bytes)
    → Written es us
    → text d ≡ some b
    → expecting es d ≡ some (member b us)
unfolding expecting member
expecting-member [] [] d b w h = refl
expecting-member [] (u ∷ us) d b w h = absurd w
expecting-member (x ∷ xs) [] d b w h = absurd w
expecting-member (x ∷ xs) (u ∷ us) d b w h = rw w.0 (
    rw h (elim (Bool-cases (same_bytes u b)) [
      | inl y ↦ rw y refl
      | inr n ↦ rw n (expecting-member xs us d b w.1 h)
    ]))

remove_expectation-Written :
    (es : List Ipv4Datagram) (us : List Bytes) (d : Ipv4Datagram) (b : Bytes)
    → Written es us
    → text d ≡ some b
    → (left : List Ipv4Datagram) × (remove_expectation es d ≡ some left)
      × Written left (remove_first b us)
unfolding remove_expectation remove_first
remove_expectation-Written [] [] d b w h = ([], refl, tt)
remove_expectation-Written [] (u ∷ us) d b w h = absurd w
remove_expectation-Written (x ∷ xs) [] d b w h = absurd w
remove_expectation-Written (x ∷ xs) (u ∷ us) d b w h = elim (Bool-cases (same_bytes u b)) [
  | inl y ↦ (xs, rw w.0 (rw h (rw y refl)), rw y w.1)
  | inr n ↦
      let (left, e, l) = remove_expectation-Written xs us d b w.1 h in
      (x ∷ left, rw w.0 (rw h (rw n (rw e refl))), rw n (w.0, l))
]

abbrev Alike : Option (List Ipv4Datagram) → Option (List Bytes) → Type 0
Alike none none = Unit
Alike none (some vs) = ⊥
Alike (some ls) none = ⊥
Alike (some ls) (some vs) = Written ls vs

check_queue-Alike :
    (ds es : List Ipv4Datagram) (ts us : List Bytes)
    → Written ds ts
    → Written es us
    → Alike (check_queue ds es) (matched ts us)
unfolding check_queue matched
check_queue-Alike [] es [] us w v = v
check_queue-Alike [] es (t ∷ ts) us w v = absurd w
check_queue-Alike (d ∷ ds) es [] us w v = absurd w
check_queue-Alike (d ∷ ds) es (t ∷ ts) us w v =
    rw (expecting-member es us d t v w.0) (elim (Bool-cases (member t us)) [
      | inr n ↦ rw n tt
      | inl y ↦
          let (left, e, l) = remove_expectation-Written es us d t v w.0 in
          rw y (rw e (check_queue-Alike ds left ts (remove_first t us) w.1 l))
    ])

Alike-done :
    (o : Option (List Ipv4Datagram)) (m : Option (List Bytes))
    → Alike o m
    → (o ≡ some []) ↔ (m ≡ some [])
Alike-done none none a = (
  (λ h. absurd (let bad : ◌≡◌ {A = Option (List Ipv4Datagram)} none (some []) = h in cc)),
  (λ h. absurd (let bad : ◌≡◌ {A = Option (List Bytes)} none (some []) = h in cc)),
)
Alike-done none (some vs) a = absurd a
Alike-done (some ls) none a = absurd a
Alike-done (some []) (some []) a = ((λ h. refl), (λ h. refl))
Alike-done (some []) (some (v ∷ vs)) a = absurd a
Alike-done (some (l ∷ ls)) (some []) a = absurd a
Alike-done (some (l ∷ ls)) (some (v ∷ vs)) a = (
  (λ h. absurd (let bad = some-injective h in cc bad)),
  (λ h. absurd (let bad = some-injective h in cc bad)),
)

-- What is left to expect after a check that returns.
ended :
    (h : Host) (o : Option (List Ipv4Datagram)) (t : Host)
    → check_queue h.interface.datagrams_out h.expecting_to_receive ≡ o
    → check h ≡ some t
    → o ≡ some []
unfolding check
ended h none t e r = absurd (let bad : none ≡ some t = sym (rw e refl) ∙ r in cc)
ended h (some []) t e r = refl
ended h (some (l ∷ ls)) t e r = absurd (let bad : none ≡ some t = sym (rw e refl) ∙ r in cc)

-- A host whose datagrams, received and expected, can all be written is content exactly if every text is
-- received as often as it is expected, in whatever order.
pub check_iff :
    (h : Host) (ts us : List Bytes)
    → Written h.interface.datagrams_out ts
    → Written h.expecting_to_receive us
    → ((t : Host) × (check h ≡ some t)) ↔ ((c : Bytes) → count c ts ≡ count c us)
unfolding check
check_iff h ts us w v = (
  (λ (t, e).
      let done = ended h (check_queue h.interface.datagrams_out h.expecting_to_receive) t refl e in
      matched-count ts us ((Alike-done _ _ (check_queue-Alike _ _ ts us w v)).0 done)),
  (λ same.
      let done = (Alike-done _ _ (check_queue-Alike _ _ ts us w v)).1 (count-matched ts us same) in
      (
        record h {
          interface = record (h.interface) { datagrams_out = [] };
          expecting_to_receive = [];
        },
        rw done refl,
      )),
)
