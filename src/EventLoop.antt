-- ===== src/EventLoop.antt =====
-- libsponge/util/eventloop.hh and eventloop.cc, over any program state `S`: a rule's callbacks change the
-- state, and the rule sees its descriptor in it. `poll`, which is not in this repository, is a parameter:
-- for the entries that are polled it gives a new state and an answer. `none` is an exception.
pub mod Rounds
pub mod Served
use csed353_tcp.Prelude.{
  ℕ, Bool, true, false, not, ◌&&◌, ◌||◌, Option, none, some, List, [], ◌∷◌, map, ◌==◌,
  if◌then◌else◌, ◌>>=◌,
}
use csed353_tcp.Descriptor.{FdWrapper}

-- EventLoop::Direction.
pub data Direction : Type 0 where
  reading : Direction
  writing : Direction

-- What `poll` is asked of a descriptor, and what it reports. POLLERR and POLLNVAL are one flag, as the
-- code tests them together.
pub record PollFd : Type 0 where
  pub fd : ℕ
  pub events : Option Direction

pub record Revents : Type 0 where
  pub readable : Bool
  pub writable : Bool
  pub hangup : Bool
  pub failure : Bool

abbrev pub quiet : Revents
quiet = record { readable = false; writable = false; hangup = false; failure = false }

-- No descriptor is ready in time, a signal comes, another error, or the entries with their reports, of
-- which those that are left out are quiet.
pub data PollAnswer : Type 0 where
  timed_out : PollAnswer
  interrupted : PollAnswer
  failed : PollAnswer
  ready : List Revents → PollAnswer

-- EventLoop::Result.
pub data Result : Type 0 where
  success : Result
  timeout : Result
  exit : Result

-- EventLoop::Rule.
pub record Rule (S : Type 0) : Type 0 where
  pub fd : S → FdWrapper
  pub direction : Direction
  pub callback : S → Option S
  pub interest : S → Bool
  pub cancel : S → Option S

-- The default arguments of `add_rule`.
abbrev pub always : {S : Type 0} → S → Bool
always s = true

abbrev pub do_nothing : {S : Type 0} → S → Option S
do_nothing s = some s

abbrev pub is_reading : Direction → Bool
is_reading Direction.reading = true
is_reading Direction.writing = false

-- What was asked for is among what is reported.
abbrev pub poll_ready : Option Direction → Revents → Bool
poll_ready none now = false
poll_ready (some Direction.reading) now = now.readable
poll_ready (some Direction.writing) now = now.writable

abbrev pub asked : Option Direction → Bool
asked none = false
asked (some direction) = true

-- The report on the next entry, and the reports on those after it.
abbrev pub first : List Revents → Revents
first [] = quiet
first (now ∷ later) = now

abbrev pub others : List Revents → List Revents
others [] = []
others (now ∷ later) = later

module _ {S : Type 0} where
  unfoldable pub service_count : Rule S → S → ℕ
  service_count rule s =
      if is_reading rule.direction then (rule.fd s).read_count else (rule.fd s).write_count

  -- A rule on a descriptor at its end or closed goes, before it is polled.
  unfoldable pub finished : Rule S → S → Bool
  finished rule s = is_reading rule.direction && (rule.fd s).eof || (rule.fd s).closed

  -- The events that a rule is interested in.
  unfoldable pub events_of : Rule S → S → Option Direction
  events_of rule s = if rule.interest s then some rule.direction else none

  -- The loop that sets up the entries: the rules that are left, with the events of their entries.
  unfoldable pub prepare : List (Rule S) → S → Option (List (Rule S × PollFd) × S)
  unfolding finished events_of
  prepare [] s = some ([], s)
  prepare (rule ∷ rules) s =
      let gone : Bool = finished rule s in
      let entry : PollFd = record { fd = (rule.fd s).fd; events = events_of rule s } in
      (if gone then rule.cancel s else some s) >>= λ t. prepare rules t >>= λ (entries, u).
      some (if gone then entries else (rule, entry) ∷ entries, u)

  unfoldable pub something_to_poll : List (Rule S × PollFd) → Bool
  something_to_poll [] = false
  something_to_poll ((rule, entry) ∷ entries) = asked entry.events || something_to_poll entries

  -- The callback of a rule that is ready, and the test for a busy wait.
  unfoldable pub serve : Rule S → S → Option S
  unfolding service_count
  serve rule s = rule.callback s >>= λ t.
      if service_count rule s == service_count rule t && rule.interest t then none else some t

  -- The loop through the results.
  unfoldable pub dispatch : List (Rule S × PollFd) → List Revents → S → Option (List (Rule S) × S)
  unfolding serve
  dispatch [] reports s = some ([], s)
  dispatch ((rule, entry) ∷ entries) reports s =
      let now : Revents = first reports in
      let ready : Bool = poll_ready entry.events now in
      let gone : Bool = now.hangup && asked entry.events && not ready in
      let turn : Option S =
        if gone then rule.cancel s else if ready then serve rule s else some s in
      (if now.failure then none else turn) >>= λ t.
      dispatch entries (others reports) t >>= λ (rules, u).
      some (if gone then rules else rule ∷ rules, u)

  -- The rules that the loop through the entries leaves.
  abbrev pub rules_of : List (Rule S × PollFd) → List (Rule S)
  rules_of entries = map (λ (e : Rule S × PollFd). e.0) entries

  abbrev pub pollfds : List (Rule S × PollFd) → List PollFd
  pollfds entries = map (λ (e : Rule S × PollFd). e.1) entries

  -- What follows the call of `poll`.
  unfoldable pub answer :
      List (Rule S × PollFd) → PollAnswer → S → Option (Result × (List (Rule S) × S))
  unfolding dispatch
  answer entries PollAnswer.timed_out s = some (Result.timeout, (rules_of entries, s))
  answer entries PollAnswer.interrupted s = some (Result.exit, (rules_of entries, s))
  answer entries PollAnswer.failed s = dispatch entries [] s >>= λ done. some (Result.success, done)
  answer entries (PollAnswer.ready reports) s =
      dispatch entries reports s >>= λ done. some (Result.success, done)

  unfoldable pub wait_next_event :
      (S → List PollFd → S × PollAnswer) → List (Rule S) → S → Option (Result × (List (Rule S) × S))
  unfolding prepare something_to_poll answer
  wait_next_event poll rules s = prepare rules s >>= λ (entries, t).
      if something_to_poll entries
      then (let (u, reply) = poll t (pollfds entries) in answer entries reply u)
      else some (Result.exit, (rules_of entries, t))
