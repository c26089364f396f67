-- ===== src/Sender/Acks.antt =====
-- `ack_received` (libsponge/tcp_sender.cc).
use csed353_tcp.Prelude.{
  ℕ, ◌+◌, ◌≤◌, ◌<◌, ◌^◌, ◌≡◌, refl, ◌∙◌, true, false, not, List, [], ◌∷◌, arith, ◌==◌,
  if◌then◌else◌, u64_mod, u16_mod, length,
}
use csed353_tcp.Wrapping.{wrap, unwrap}
use csed353_tcp.Wrapping.Laws.{unwrap-wrap}
use csed353_tcp.Segment.{TcpSegment}
use csed353_tcp.Sender.{TcpSender, pop_acked, advance, ack_received, fill_window, start, rto_reset}
use csed353_tcp.Sender.Invariant.{IsValid, Chain, Pending, is_empty}
use csed353_tcp.Sender.Filling.{Filled, fill_window-Filled}
use csed353_tcp.Sender.Popping.{Popped, pop_acked-Popped}

is_empty-length : (segs : List TcpSegment) → (length segs == 0) ≡ is_empty segs
is_empty-length [] = refl
is_empty-length (x ∷ xs) = ground arith

-- The oldest segment in flight is at most 2 ^ 30 numbers behind the next one.
pub first_bound : (s : TcpSender) (v : IsValid s) → s.byte_sent ≤ v.oldest + 2 ^ 30
first_bound s v = bound s.unacked v.chain v.pending
  where
    bound :
        (segs : List TcpSegment)
        → Chain s.isn v.oldest s.byte_sent segs
        → Pending v.oldest s.byte_received segs
        → s.byte_sent ≤ v.oldest + 2 ^ 30
    bound [] ch p = omega (arith, ch)
    bound (seg ∷ rest) ch p = omega (arith, ch.2, p, v.narrow)

advance-Popped :
    (s : TcpSender) (v : IsValid s) (ack : ℕ)
    → s.byte_received ≤ ack
    → ack ≤ s.byte_sent
    → s.byte_sent + 2 ^ 18 ≤ u64_mod
    → Popped s.isn v.oldest s.byte_sent ack s.unacked (advance s ack).unacked
unfolding advance
advance-Popped s v ack h k hs =
    pop_acked-Popped s.isn s.byte_sent ack s.unacked v.oldest v.isn_word (omega arith) v.chain
      (omega (arith, v.begun)) k (omega (arith, first_bound s v))

timer_of :
    (s : TcpSender) (segs : List TcpSegment)
    → (if not (length segs == 0)
        then start (rto_reset s.timer s.initial_retransmission_timeout) s.time
        else rto_reset s.timer s.initial_retransmission_timeout).active
      ≡ not (is_empty segs)
unfolding start rto_reset
timer_of s [] = refl
timer_of s (seg ∷ segs) = ground arith

advance-IsValid :
    (s : TcpSender) (v : IsValid s) (ack : ℕ)
    → s.byte_received ≤ ack
    → ack ≤ s.byte_sent
    → s.byte_sent + 2 ^ 18 ≤ u64_mod
    → IsValid (advance s ack)
advance-IsValid s v ack h k hs =
    let p = advance-Popped s v ack h k hs in
    unfold advance in
    record {
      oldest = p.oldest;
      chain = p.chain;
      pending = p.pending;
      begun = p.begun;
      ordered = k;
      narrow = omega (arith, v.narrow);
      small = omega arith;
      isn_word = v.isn_word;
      window_word = v.window_word;
      stream_ok = v.stream_ok;
      counted = v.counted;
      finished = v.finished;
      timed = timer_of s (pop_acked s.isn ack s.unacked);
    }

-- The sender with the window that the peer announced.
abbrev pub told : TcpSender → ℕ → TcpSender
told s window = record s { window_size = window }

told-IsValid :
    (s : TcpSender) (v : IsValid s) (window : ℕ) → window < u16_mod → IsValid (told s window)
told-IsValid s v window h = record {
  oldest = v.oldest;
  chain = v.chain;
  pending = v.pending;
  begun = v.begun;
  ordered = v.ordered;
  narrow = v.narrow;
  small = v.small;
  isn_word = v.isn_word;
  window_word = h;
  stream_ok = v.stream_ok;
  counted = v.counted;
  finished = v.finished;
  timed = v.timed;
}

-- An acknowledgment, by the absolute number that it stands for.
module _ (s : TcpSender) (v : IsValid s) (ack window : ℕ) (word : ack < u64_mod)
    (w : window < u16_mod) (small : s.byte_sent + 2 ^ 18 ≤ u64_mod)
    (ahead : ack ≤ s.byte_received + 2 ^ 31) (behind : s.byte_received < ack + 2 ^ 31) where
  ack_number : unwrap (wrap ack s.isn) s.isn s.byte_received ≡ ack
  ack_number =
      unwrap-wrap ack s.isn s.byte_received word v.isn_word (omega (arith, v.small)) ahead behind

  -- A valid sender, not yet within 2 ^ 18 of the last 64-bit number, refuses the acknowledgment of a
  -- number that it has not sent, less than 2 ^ 31 away from the last one acknowledged: only the
  -- window that is announced is taken over.
  pub ack_received_unsent :
      s.byte_sent < ack → ack_received s (wrap ack s.isn) window ≡ (told s window, false)
  unfolding ack_received
  ack_received_unsent h = let n = ack_number in let o = v.ordered in ground (arith, n, o)

  -- A valid sender, not yet within 2 ^ 18 of the last 64-bit number, accepts the acknowledgment of a
  -- number less than 2 ^ 31 below the last one acknowledged, but takes over only the window that is
  -- announced.
  pub ack_received_old :
      ack < s.byte_received → ack_received s (wrap ack s.isn) window ≡ (told s window, true)
  unfolding ack_received
  ack_received_old h = let n = ack_number in let o = v.ordered in ground (arith, n, o)

  -- A valid sender, not yet within 2 ^ 18 of the last 64-bit number, accepts a repeated acknowledgment:
  -- it takes over the window that is announced, and fills it as `fill_window` promises.
  pub ack_received_repeated :
      ack ≡ s.byte_received
      → let (t, ok) = ack_received s (wrap ack s.isn) window in
        (ok ≡ true) × Filled (told s window) t
  unfolding ack_received
  ack_received_repeated h =
      let n = ack_number in
      let o = v.ordered in
      let e : ack_received s (wrap ack s.isn) window ≡ (fill_window (told s window), true) =
        ground (arith, n, o) in
      rw e (refl, fill_window-Filled (told s window) (told-IsValid s v window w))

  -- A valid sender, not yet within 2 ^ 18 of the last 64-bit number, takes a new acknowledgment of a
  -- number that it has sent: it becomes the last one acknowledged; exactly the segments that it
  -- covers in full leave the queue, from the front; the window is then filled as `fill_window`
  -- promises, and the sender is valid again.
  pub ack_received_new :
      s.byte_received < ack
      → ack ≤ s.byte_sent
      → let (t, ok) = ack_received s (wrap ack s.isn) window in
        let mid = advance (told s window) ack in
        (ok ≡ true)
        × Filled mid t
        × (t.byte_received ≡ ack)
        × Popped s.isn v.oldest s.byte_sent ack s.unacked mid.unacked
  unfolding ack_received
  ack_received_new h k =
      let n = ack_number in
      let vt = told-IsValid s v window w in
      let e : ack_received s (wrap ack s.isn) window
          ≡ (fill_window (advance (told s window) ack), true) =
        ground (arith, n) in
      let filled =
        fill_window-Filled (advance (told s window) ack)
          (advance-IsValid (told s window) vt ack (omega arith) k small) in
      rw e (
        refl,
        filled,
        filled.sent.same_received ∙ advanced,
        advance-Popped s v ack (omega arith) k small,
      )
    where
      advanced : (advance (told s window) ack).byte_received ≡ ack
      advanced = refl
