-- ===== src/Sender/Timeouts.antt =====
-- `tick` (libsponge/tcp_sender.cc) and the timer of tcp_sender.hh.
use mathlib.Core.Bool.{false≢true}
use csed353_tcp.Prelude.{
  ℕ, ◌+◌, ◌-◌, ◌≤◌, ◌<◌, ◌≡◌, refl, ap, Bool, true, false, ◌&&◌, List, [], ◌∷◌, ◌++◌, arith, leb,
  if◌then◌else◌, u32_mod, u64_mod, add64, sub64, Bool-cases, inl, inr, some, ◌%◌, ◌⊎◌,
}
use csed353_tcp.Segment.{TcpSegment}
use csed353_tcp.Sender.{TcpSender, tick, timeout, retransmit, update_time, start, rto_double}
use csed353_tcp.Sender.Invariant.{IsValid, is_empty}

-- The time on the sender's clock at which the oldest segment in flight is due.
abbrev pub elapsed : TcpSender → ℕ → ℕ
elapsed s ms = s.time + ms - s.timer.start_time

-- The sender after a tick in which nothing is due: the clocks have moved on.
abbrev pub later : TcpSender → ℕ → TcpSender
later s ms = record s {
  time = s.time + ms;
  timer = record s.timer {
    current_time = if s.timer.active then s.time + ms else s.timer.current_time;
  };
}

-- The sender that has sent its oldest segment once more: the timeout is doubled and starts anew.
abbrev pub again : TcpSender → ℕ → TcpSegment → TcpSender
again s ms oldest = record s {
  time = s.time + ms;
  segments_out = s.segments_out ++ oldest ∷ [];
  consecutive_retrans = (s.consecutive_retrans + 1) % u32_mod;
  timer = record {
    active = true;
    start_time = s.time + ms;
    current_time = s.time + ms;
    rto = add64 s.timer.rto s.timer.rto;
  };
}

front_of :
    (s : TcpSender)
    → IsValid s
    → s.timer.active ≡ true
    → (oldest : TcpSegment) × (rest : List TcpSegment) × (s.unacked ≡ oldest ∷ rest)
front_of s v a = first s.unacked refl
  where
    first :
        (segs : List TcpSegment)
        → s.unacked ≡ segs
        → (oldest : TcpSegment) × (rest : List TcpSegment) × (s.unacked ≡ oldest ∷ rest)
    first [] e = absurd (false≢true (ground (arith, v.timed, ap is_empty e)))
    first (x ∷ xs) e = (x, xs, e)

not_due : (a : Bool) (rto e : ℕ) → a && leb rto e ≡ false → (a ≡ false) ⊎ (e < rto)
not_due false rto e h = inl refl
not_due true rto e h = inr (ground arith)

module _ (s : TcpSender) (v : IsValid s) (ms : ℕ) (short : s.time + ms < u64_mod)
    (started : s.timer.start_time ≤ s.time) where
  -- While the timer of a valid sender is off, or its timeout has not run out at the end of the tick, the
  -- tick only moves the clocks on, as long as the clock does not wrap and the timer was not started in
  -- the future.
  pub tick_quiet :
      (s.timer.active ≡ false) ⊎ (elapsed s ms < s.timer.rto) → tick s ms ≡ some (later s ms)
  unfolding tick timeout update_time
  tick_quiet h =
      let now : add64 s.time ms ≡ s.time + ms = omega arith in
      let gone : sub64 (s.time + ms) s.timer.start_time ≡ elapsed s ms = omega arith in
      ground (arith, now, gone)

  -- When the timer of a valid sender is on and its timeout has run out at the end of the tick, there is a
  -- segment in flight, and exactly the oldest goes out once more: it is queued, counted as one more
  -- retransmission in a row, and the timer starts anew with twice the timeout. The clock must not
  -- wrap and the timer must not have been started in the future.
  pub tick_due :
      s.timer.active ≡ true
      → s.timer.rto ≤ elapsed s ms
      → (oldest : TcpSegment) × (rest : List TcpSegment) × (s.unacked ≡ oldest ∷ rest)
        × (tick s ms ≡ some (again s ms oldest))
  unfolding tick timeout update_time retransmit start rto_double
  tick_due a h =
      let now : add64 s.time ms ≡ s.time + ms = omega arith in
      let gone : sub64 (s.time + ms) s.timer.start_time ≡ elapsed s ms = omega arith in
      let f = front_of s v a in (f.0, f.1, f.2, ground (arith, now, gone, f.2))

  -- A valid sender survives a tick without an exception, and stays valid, as long as the clock does
  -- not wrap and the timer was not started in the future.
  pub tick-IsValid : (t : TcpSender) × (tick s ms ≡ some t) × IsValid t
  tick-IsValid = elim (Bool-cases (s.timer.active && leb s.timer.rto (elapsed s ms))) [
    | inl due ↦
        let d = tick_due (ground arith) (ground arith) in
        (
          again s ms d.0,
          d.3,
          record {
            oldest = v.oldest;
            chain = v.chain;
            pending = v.pending;
            begun = v.begun;
            ordered = v.ordered;
            narrow = v.narrow;
            small = v.small;
            isn_word = v.isn_word;
            window_word = v.window_word;
            stream_ok = v.stream_ok;
            counted = v.counted;
            finished = v.finished;
            timed = ground (arith, v.timed);
          },
        )
    | inr quiet ↦ (
      later s ms,
      tick_quiet (not_due s.timer.active s.timer.rto (elapsed s ms) quiet),
      record {
        oldest = v.oldest;
        chain = v.chain;
        pending = v.pending;
        begun = v.begun;
        ordered = v.ordered;
        narrow = v.narrow;
        small = v.small;
        isn_word = v.isn_word;
        window_word = v.window_word;
        stream_ok = v.stream_ok;
        counted = v.counted;
        finished = v.finished;
        timed = v.timed;
      },
    )
  ]
