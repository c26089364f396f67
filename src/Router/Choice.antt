-- ===== src/Router/Choice.antt =====
-- The route that libsponge/router.cc chooses: the longest match, and the first among equally long ones.
use csed353_tcp.Prelude.{
  ℕ, ◌≤◌, ◌<◌, ◌≡◌, ◌⊎◌, inl, inr, refl, sym, ap, ◌∙◌, true, false, Option, none, some, List, [],
  ◌∷◌, ◌++◌, append-nil, append_assoc, arith, ltb, Bool-cases, subst, ltb→lt,
}
use csed353_tcp.Router.{Route, matches, pick, scan}

abbrev pub All {ℓ κ} : {A : Type ℓ} → (A → Type κ) → List A → Type κ
All P [] = Unit
All P (x ∷ xs) = P x × All P xs

All-append {ℓ κ} :
    {A : Type ℓ} (P : A → Type κ) (xs ys : List A) → All P xs → All P ys → All P (xs ++ ys)
All-append P [] ys a b = b
All-append P (x ∷ xs) ys a b = (a.0, All-append P xs ys a.1 b)

All-map {ℓ κ} :
    {A : Type ℓ} (P Q : A → Type κ) (f : (x : A) → P x → Q x) (xs : List A) → All P xs → All Q xs
All-map P Q f [] a = tt
All-map P Q f (x ∷ xs) a = (f x a.0, All-map P Q f xs a.1)

module _ {Address : Type 0} (dst : ℕ) where
  abbrev pub Unmatched : Route Address → Type 0
  Unmatched o = matches dst o ≡ false

  -- A route before the chosen one is shorter, if it matches at all, and one after it is not longer.
  abbrev pub Shorter : Route Address → Route Address → Type 0
  Shorter r o = Unmatched o ⊎ (o.prefix_length < r.prefix_length)

  abbrev pub NotLonger : Route Address → Route Address → Type 0
  NotLonger r o = Unmatched o ⊎ (o.prefix_length ≤ r.prefix_length)

  -- The route is the first of the longest matches.
  pub record Longest (table : List (Route Address)) (r : Route Address) : Type 0 where
    pub before : List (Route Address)
    pub after : List (Route Address)
    pub place : table ≡ before ++ r ∷ after
    pub matching : matches dst r ≡ true
    pub shorter : All (Shorter r) before
    pub not_longer : All (NotLonger r) after

  abbrev pub Chosen : List (Route Address) → Option (Route Address) → Type 0
  Chosen table none = All Unmatched table
  Chosen table (some r) = Longest table r

  raise :
      (r o : Route Address)
      → r.prefix_length < o.prefix_length
      → (x : Route Address) → NotLonger r x
      → Shorter o x
  raise r o h x (inl u) = inl u
  raise r o h x (inr s) = inr (omega arith)

  weaken : (r x : Route Address) → Shorter r x → NotLonger r x
  weaken r x (inl u) = inl u
  weaken r x (inr s) = inr (omega arith)

  taken :
      (seen : List (Route Address)) (o : Route Address)
      → matches dst o ≡ true
      → All (Shorter o) seen
      → Longest (seen ++ o ∷ []) o
  taken seen o h a = record {
    before = seen;
    after = [];
    place = refl;
    matching = h;
    shorter = a;
    not_longer = tt;
  }

  -- A longer match than the chosen one is longer than all that were looked at.
  outdone :
      (seen : List (Route Address)) (r o : Route Address)
      → Longest seen r
      → r.prefix_length < o.prefix_length
      → All (Shorter o) seen
  outdone seen r o l h = subst (All (Shorter o)) (sym l.place) (
      All-append (Shorter o) l.before (r ∷ l.after)
        (All-map (Shorter r) (Shorter o) (λ x s. raise r o h x (weaken r x s)) l.before l.shorter)
        (inr h, All-map (NotLonger r) (Shorter o) (raise r o h) l.after l.not_longer))

  kept :
      (seen : List (Route Address)) (r o : Route Address)
      → Longest seen r
      → NotLonger r o
      → Longest (seen ++ o ∷ []) r
  kept seen r o l n = record {
    before = l.before;
    after = l.after ++ o ∷ [];
    place = ap (λ t. t ++ o ∷ []) l.place ∙ append_assoc l.before (r ∷ l.after) (o ∷ []);
    matching = l.matching;
    shorter = l.shorter;
    not_longer = All-append (NotLonger r) l.after (o ∷ []) l.not_longer (n, tt);
  }

  -- One more route is looked at.
  pick-Chosen :
      (seen : List (Route Address)) (best : Option (Route Address)) (o : Route Address)
      → Chosen seen best
      → Chosen (seen ++ o ∷ []) (pick dst best o)
  unfolding pick
  pick-Chosen seen none o c = elim (Bool-cases (matches dst o)) [
    | inl h ↦
        let e : some o ≡ pick dst none o = ground (arith, h) in
        subst (Chosen (seen ++ o ∷ [])) e
          (taken seen o h (All-map Unmatched (Shorter o) (λ x u. inl u) seen c))
    | inr h ↦
        let e : none ≡ pick dst none o = ground (arith, h) in
        subst (Chosen (seen ++ o ∷ [])) e (All-append Unmatched seen (o ∷ []) c (h, tt))
  ]
  pick-Chosen seen (some r) o c = elim (Bool-cases (matches dst o)) [
    | inl h ↦ elim (Bool-cases (ltb r.prefix_length o.prefix_length)) [
      | inl longer ↦
          let e : some o ≡ pick dst (some r) o = ground (arith, h, longer) in
          subst (Chosen (seen ++ o ∷ [])) e
            (taken seen o h (outdone seen r o c (ltb→lt r.prefix_length o.prefix_length longer)))
      | inr not_longer ↦
          let e : some r ≡ pick dst (some r) o = ground (arith, h, not_longer) in
          subst (Chosen (seen ++ o ∷ [])) e (kept seen r o c (inr (ground arith)))
    ]
    | inr h ↦
        let e : some r ≡ pick dst (some r) o = ground (arith, h) in
        subst (Chosen (seen ++ o ∷ [])) e (kept seen r o c (inl h))
  ]

  pub scan-Chosen :
      (table seen : List (Route Address)) (best : Option (Route Address))
      → Chosen seen best
      → Chosen (seen ++ table) (scan dst table best)
  unfolding scan
  scan-Chosen [] seen best c = subst (λ t. Chosen t best) (sym (append-nil seen)) c
  scan-Chosen (o ∷ rest) seen best c =
      subst (λ t. Chosen t (scan dst rest (pick dst best o))) (append_assoc seen (o ∷ []) rest)
        (scan-Chosen rest (seen ++ o ∷ []) (pick dst best o) (pick-Chosen seen best o c))

  -- The loop over the routing table, for a destination `dst`, ends with no route only if no route of
  -- the table matches; otherwise with one that matches, that no matching route is longer than, and
  -- that no earlier matching route is as long as.
  pub longest_match : (table : List (Route Address)) → Chosen table (scan dst table none)
  longest_match table = scan-Chosen table [] none tt
