-- ===== src/EventLoop/Rounds.antt =====
-- One call of `wait_next_event` of libsponge/util/eventloop.cc, whatever the rules do.
use csed353_tcp.Prelude.{
  ◌≡◌, refl, sym, ap, ◌∙◌, subst, Bool, true, false, not, ◌&&◌, Option, none, some, List, [], ◌∷◌,
  ◌==◌, if◌then◌else◌, ◌>>=◌, Bool-cases, if_lem, ◌⊎◌, inl, inr, bind-eq-some, some-injective,
}
use csed353_tcp.EventLoop.{
  Direction, Rule, PollFd, Revents, PollAnswer, Result, quiet, first, others, poll_ready, asked,
  service_count, finished, events_of, prepare, something_to_poll, serve, dispatch, rules_of,
  pollfds, answer, wait_next_event,
}

abbrev pub All {ℓ κ} : {A : Type ℓ} → (A → Type κ) → List A → Type κ
All P [] = Unit
All P (x ∷ xs) = P x × All P xs

-- Along an equation of pairs.
carry :
    {L S : Type 0} (Q : L → Type 0) (P : S → Type 0) {l l' : L} {s s' : S}
    → ◌≡◌ {A = L × S} (l, s) (l', s')
    → P s
    → Q l
    → P s' × Q l'
carry {L} {S} Q P e p q =
    (subst P (ap (λ (x : L × S). x.1) e) p, subst Q (ap (λ (x : L × S). x.0) e) q)

-- Which branch it was.
chosen :
    {S : Type 0} (failure gone ready : Bool) (a b c : Option S) (t : S)
    → (if failure then none else if gone then a else if ready then b else c) ≡ some t
    → (a ≡ some t) ⊎ ((b ≡ some t) ⊎ (c ≡ some t))
chosen true gone ready a b c t h = cc
chosen false true ready a b c t h = inl h
chosen false false true a b c t h = inr (inl h)
chosen false false false a b c t h = inr (inr h)

module _ {S : Type 0} (P : S → Type 0) where
  -- A rule whose callback and cancellation keep `P`, where they return.
  pub record Keeps (rule : Rule S) : Type 0 where
    pub callback_keeps : (s t : S) → P s → rule.callback s ≡ some t → P t
    pub cancel_keeps : (s t : S) → P s → rule.cancel s ≡ some t → P t

  prepare-kept :
      (rules : List (Rule S)) (s t : S) (entries : List (Rule S × PollFd))
      → All Keeps rules
      → P s
      → prepare rules s ≡ some (entries, t)
      → P t × All Keeps (rules_of entries)
  unfolding prepare
  prepare-kept [] s t entries k p h = carry (λ x. All Keeps (rules_of x)) P (some-injective h) p tt
  prepare-kept (rule ∷ rules) s t entries k p h =
      let gone : Bool = finished rule s in
      let entry : PollFd = record { fd = (rule.fd s).fd; events = events_of rule s } in
      let (s', c, rest) = bind-eq-some (if gone then rule.cancel s else some s) _ _ h in
      let ((es, u), e, r) = bind-eq-some (prepare rules s') _ _ rest in
      let keeps : Keeps rule = k.0 in
      let p' : P s' = elim (Bool-cases gone) [
        | inl y ↦ keeps.cancel_keeps s s' p (sym (rw y refl) ∙ c)
        | inr n ↦ subst P (some-injective (sym (rw n refl) ∙ c)) p
      ] in
      let (q, left) = prepare-kept rules s' u es k.1 p' e in
      let both = if_lem (λ x. All Keeps (rules_of x)) gone left (keeps, left) in
      carry (λ x. All Keeps (rules_of x)) P (some-injective r) q both

  serve-kept : (rule : Rule S) (s t : S) → Keeps rule → P s → serve rule s ≡ some t → P t
  unfolding serve
  serve-kept rule s t k p h =
      let (u, c, r) = bind-eq-some (rule.callback s) _ _ h in
      let busy : Bool = service_count rule s == service_count rule u && rule.interest u in
      elim (Bool-cases busy) [
        | inl y ↦ absurd (let bad : none ≡ some t = sym (rw y refl) ∙ r in cc)
        | inr n ↦ subst P (some-injective (sym (rw n refl) ∙ r)) (k.callback_keeps s u p c)
      ]

  -- The turn of one rule in the loop through the results.
  turn : Rule S → PollFd → Revents → S → Option S
  turn rule entry now s =
      let ready : Bool = poll_ready entry.events now in
      let gone : Bool = now.hangup && asked entry.events && not ready in
      if now.failure
      then none
      else if gone
      then rule.cancel s
      else if ready
      then serve rule s
      else some s

  turn-kept :
      (rule : Rule S) (entry : PollFd) (now : Revents) (s t : S)
      → Keeps rule
      → P s
      → turn rule entry now s ≡ some t
      → P t
  unfolding turn
  turn-kept rule entry now s t k p h =
      let ready : Bool = poll_ready entry.events now in
      let gone : Bool = now.hangup && asked entry.events && not ready in
      elim (chosen now.failure gone ready (rule.cancel s) (serve rule s) (some s) t h) [
        | inl c ↦ k.cancel_keeps s t p c
        | inr (inl c) ↦ serve-kept rule s t k p c
        | inr (inr c) ↦ subst P (some-injective c) p
      ]

  dispatch-kept :
      (entries : List (Rule S × PollFd)) (reports : List Revents) (s t : S) (left : List (Rule S))
      → All Keeps (rules_of entries)
      → P s
      → dispatch entries reports s ≡ some (left, t)
      → P t × All Keeps left
  unfolding dispatch turn
  dispatch-kept [] reports s t left k p h = carry (All Keeps) P (some-injective h) p tt
  dispatch-kept ((rule, entry) ∷ entries) reports s t left k p h =
      let now : Revents = first reports in
      let ready : Bool = poll_ready entry.events now in
      let gone : Bool = now.hangup && asked entry.events && not ready in
      let (s', c, rest) = bind-eq-some (turn rule entry now s) _ _ h in
      let ((ls, u), e, r) = bind-eq-some (dispatch entries (others reports) s') _ _ rest in
      let (q, kept) =
        dispatch-kept entries (others reports) s' u ls k.1 (turn-kept rule entry now s s' k.0 p c)
          e in
      let both = if_lem (All Keeps) gone kept (k.0, kept) in
      carry (All Keeps) P (some-injective r) q both

  dispatched :
      (entries : List (Rule S × PollFd)) (reports : List Revents) (s t : S) (left : List (Rule S))
      (ret : Result)
      → All Keeps (rules_of entries)
      → P s
      → let success : List (Rule S) × S → Option (Result × (List (Rule S) × S)) =
          λ done. some (Result.success, done) in
        (dispatch entries reports s >>= success) ≡ some (ret, (left, t)) → P t × All Keeps left
  dispatched entries reports s t left ret k p h =
      let (done, e, r) = bind-eq-some (dispatch entries reports s) _ _ h in
      dispatch-kept entries reports s t left k p
        (e ∙ ap some (ap (λ (x : Result × (List (Rule S) × S)). x.1) (some-injective r)))

  answer-kept :
      (entries : List (Rule S × PollFd)) (reply : PollAnswer) (s t : S) (left : List (Rule S))
      (ret : Result)
      → All Keeps (rules_of entries)
      → P s
      → answer entries reply s ≡ some (ret, (left, t))
      → P t × All Keeps left
  unfolding answer
  answer-kept entries PollAnswer.timed_out s t left ret k p h =
      carry (All Keeps) P (ap (λ (x : Result × (List (Rule S) × S)). x.1) (some-injective h)) p k
  answer-kept entries PollAnswer.interrupted s t left ret k p h =
      carry (All Keeps) P (ap (λ (x : Result × (List (Rule S) × S)). x.1) (some-injective h)) p k
  answer-kept entries PollAnswer.failed s t left ret k p h =
      dispatched entries [] s t left ret k p h
  answer-kept entries (PollAnswer.ready reports) s t left ret k p h =
      dispatched entries reports s t left ret k p h

  -- If what every rule's callback and cancellation return keeps `P`, and `poll` does, then one call of
  -- `wait_next_event` from a state with `P` that returns leaves a state with `P`, and rules that still keep it.
  pub wait_next_event-kept :
      (poll : S → List PollFd → S × PollAnswer)
      → ((s : S) (entries : List PollFd) → P s → P (poll s entries).0)
      → (rules left : List (Rule S)) (s t : S) (ret : Result) → All Keeps rules
      → P s
      → wait_next_event poll rules s ≡ some (ret, (left, t))
      → P t × All Keeps left
  unfolding wait_next_event
  wait_next_event-kept poll polled rules left s t ret k p h =
      let ((entries, u), e, rest) = bind-eq-some (prepare rules s) _ _ h in
      let (q, kept) = prepare-kept rules s u entries k p e in
      elim (Bool-cases (something_to_poll entries)) [
        | inr n ↦
            let r : ◌≡◌ {A = Option (Result × (List (Rule S) × S))}
                (some (Result.exit, (rules_of entries, u))) (some (ret, (left, t))) =
              sym (rw n refl) ∙ rest in
            carry (All Keeps) P (ap (λ (x : Result × (List (Rule S) × S)). x.1) (some-injective r))
              q kept
        | inl y ↦
            answer-kept entries (poll u (pollfds entries)).1 (poll u (pollfds entries)).0 t left ret
              kept (polled u _ q) (sym (rw y refl) ∙ rest)
      ]

poll_ready-quiet : (events : Option Direction) → poll_ready events quiet ≡ false
poll_ready-quiet none = refl
poll_ready-quiet (some Direction.reading) = refl
poll_ready-quiet (some Direction.writing) = refl

module _ {S : Type 0} where
  -- With no report, no rule is served or removed.
  dispatch-nil :
      (entries : List (Rule S × PollFd)) (s : S)
      → dispatch entries [] s ≡ some (rules_of entries, s)
  unfolding dispatch
  dispatch-nil [] s = refl
  dispatch-nil ((rule, entry) ∷ entries) s =
      rw (poll_ready-quiet entry.events) (rw (dispatch-nil entries s) refl)

  -- If the rules are set up without an exception, one of them is interested, and `poll` fails for
  -- another reason than a signal, then no callback is called, only the rules go that the set-up
  -- has cancelled, and the result is Success, as of a call that has served what is ready.
  pub wait_next_event-failed :
      (poll : S → List PollFd → S × PollAnswer)
      → (rules : List (Rule S)) (s t u : S) (entries : List (Rule S × PollFd))
      → prepare rules s ≡ some (entries, t)
      → something_to_poll entries ≡ true
      → poll t (pollfds entries) ≡ (u, PollAnswer.failed)
      → wait_next_event poll rules s ≡ some (Result.success, (rules_of entries, u))
  unfolding wait_next_event answer
  wait_next_event-failed poll rules s t u entries e asks fails =
      rw e (rw asks (rw fails (rw (dispatch-nil entries u) refl)))
