-- ===== src/Sender/Window.antt =====
-- `fill_window` (libsponge/tcp_sender.cc).
use csed353_tcp.Prelude.{
  ℕ, ◌+◌, ◌-◌, ◌≤◌, ◌<◌, ◌≡◌, refl, sym, ap, ◌∙◌, Bool, true, false, not, ◌&&◌, ◌||◌, none, some,
  ◌⊎◌, inl, inr, Bool-cases, arith, length, Bytes, ltb, leb, ◌==◌, if◌then◌else◌, u16_mod, add64,
  sub64,
}
use csed353_tcp.ByteStream
use csed353_tcp.ByteStream.Laws
use csed353_tcp.Wrapping.{wrap}
use csed353_tcp.Segment.{TcpSegment, length_in_sequence_space, flag, flag_le}
use csed353_tcp.Sender.{
  TcpSender, usable_window, payload_size, cut_segment, send, next_segment, bytes_in_flight,
  next_seqno, restart, start, rto_reset,
}
use csed353_tcp.Sender.Invariant.{
  IsValid, Chain-append, Pending-append, is_empty-append, max_segment,
}

-- The sender may send: the FIN has not gone out, the window has room for the next numbers, and there is
-- something to send.
pub record CanSend (s : TcpSender) : Type 0 where
  pub open_end : s.fin_flag ≡ false
  pub room : bytes_in_flight s + flag (s.byte_sent == 0) ≤ usable_window s
  pub space : bytes_in_flight s < usable_window s
  pub something :
      (ByteStream.eof s.stream ≡ true)
      ⊎ (0 < flag (s.byte_sent == 0) + payload_size s (s.byte_sent == 0))

pub flight : (s : TcpSender) → IsValid s → bytes_in_flight s ≡ s.byte_sent - s.byte_received
unfolding bytes_in_flight
flight s v = omega (arith, v.ordered, v.narrow, v.small)

pub window_bounds :
    (s : TcpSender) → IsValid s → (1 ≤ usable_window s) × (usable_window s < u16_mod)
window_bounds s v = ground (arith, v.window_word)

abbrev pub syn_now : TcpSender → Bool
syn_now s = s.byte_sent == 0

abbrev pub next_payload : TcpSender → ℕ
next_payload s = payload_size s (syn_now s)

abbrev pub next_out : TcpSender → TcpSegment
next_out s = cut_segment s (syn_now s) (next_payload s)

abbrev pub next_state : TcpSender → TcpSender
next_state s = send s (next_out s) (ByteStream.read s.stream (next_payload s)).0

can_send_something : (eof : Bool) (k : ℕ) → not eof && (k == 0) ≡ false → (eof ≡ true) ⊎ (0 < k)
can_send_something true k h = inl refl
can_send_something false k h = inr (ground arith)

pub next_segment_cases :
    (s : TcpSender)
    → IsValid s
    → (next_segment s ≡ none) ⊎ (CanSend s × (next_segment s ≡ some (next_state s)))
unfolding next_segment
next_segment_cases s v =
    let fl = flight s v in
    let w = window_bounds s v in
    let sum : add64 (bytes_in_flight s) (flag (syn_now s)) ≡ bytes_in_flight s + flag (syn_now s) =
      ground (arith, fl, v.narrow) in
    elim (Bool-cases s.fin_flag) [
      | inl done ↦ inl (ground arith)
      | inr more ↦
          elim (Bool-cases (
            ltb (usable_window s) (add64 (bytes_in_flight s) (flag (syn_now s)))
            || leb (usable_window s) (bytes_in_flight s))) [
              | inl full ↦ inl (ground (arith, full))
              | inr room ↦
                  elim (Bool-cases
                    (not (ByteStream.eof s.stream) && (flag (syn_now s) + next_payload s == 0))) [
                      | inl idle ↦ inl (ground (arith, room, idle))
                      | inr busy ↦ inr (
                        record {
                          open_end = more;
                          room = ground (arith, room, sum);
                          space = ground (arith, room);
                          something =
                              can_send_something (ByteStream.eof s.stream)
                                (flag (syn_now s) + next_payload s) busy;
                        },
                        ground (arith, room, busy, more),
                      )
                    ]
            ]
    ]

module _ (s : TcpSender) (v : IsValid s) (c : CanSend s) where
  abbrev pub stream_after : ByteStream.ByteStream
  stream_after = (ByteStream.read s.stream (next_payload s)).0

  abbrev pub bytes_cut : Bytes
  bytes_cut = (ByteStream.read s.stream (next_payload s)).1

  payload_bounds :
      (next_payload s ≤ 1000)
      × (next_payload s ≤ length s.stream.content)
      × (next_payload s + flag (syn_now s) + bytes_in_flight s ≤ usable_window s)
  unfolding ByteStream.buffer_size
  payload_bounds =
      let w = window_bounds s v in
      let room : sub64 (sub64 (usable_window s) (bytes_in_flight s)) (flag (syn_now s))
          ≡ usable_window s - bytes_in_flight s - flag (syn_now s) =
        omega (arith, c.room, c.space, w.1) in
      ground (arith, room, c.room)

  pub cut_length : length bytes_cut ≡ next_payload s
  unfolding ByteStream.buffer_size
  cut_length = omega (arith, (Laws.read_lem s.stream (next_payload s)).2, payload_bounds.1)

  abbrev fin_fits : Bool
  fin_fits = ltb (bytes_in_flight s + next_payload s + flag (syn_now s)) (usable_window s)

  fin_cut : (next_out s).header.fin ≡ (if fin_fits then ByteStream.eof stream_after else false)
  unfolding cut_segment
  fin_cut =
      let w = window_bounds s v in
      let sum : add64 (bytes_in_flight s) (length bytes_cut + flag (syn_now s) + 0)
          ≡ bytes_in_flight s + next_payload s + flag (syn_now s) =
        omega (arith, cut_length, payload_bounds.2, w.1) in
      ground (arith, sum)

  out_length :
      length_in_sequence_space (next_out s)
      ≡ next_payload s + flag (syn_now s) + flag (next_out s).header.fin
  unfolding cut_segment
  out_length = ground (arith, cut_length)

  pub out_pos : 0 < length_in_sequence_space (next_out s)
  out_pos = elim c.something [
    | inl ended ↦
        ground (arith, out_length, fin_cut, Laws.eof-read s.stream (next_payload s) ended, c.space)
    | inr some_bytes ↦ omega (arith, out_length)
  ]

  pub out_bounds :
      (length_in_sequence_space (next_out s) ≤ max_segment)
      × (bytes_in_flight s + length_in_sequence_space (next_out s) ≤ usable_window s)
  out_bounds =
      let l = out_length in
      let b = payload_bounds in let fc = fin_cut in (ground (arith, l, b), ground (arith, l, b, fc))

  pub sent_number :
      add64 s.byte_sent (length_in_sequence_space (next_out s))
      ≡ s.byte_sent + length_in_sequence_space (next_out s)
  sent_number = omega (arith, out_bounds, v.narrow, v.small)

  read_number : stream_after.alread ≡ s.stream.alread + next_payload s
  read_number =
      let read_to = (Laws.read_lem s.stream (next_payload s)).4 in
      let bounds = payload_bounds.0 in
      let flags = flag_le (s.byte_sent == 0) in
      omega (arith, read_to, cut_length, bounds, v.counted, v.narrow, v.small, flags)

  pub out_number : (next_out s).header.seqno ≡ wrap s.byte_sent s.isn
  unfolding cut_segment next_seqno
  out_number = refl

  sent_narrow :
      s.byte_sent + length_in_sequence_space (next_out s) ≤ s.byte_received + (u16_mod - 1)
  sent_narrow = omega (arith, out_bounds.1, (window_bounds s v).1, flight s v, v.ordered, v.narrow)

  sent_counted :
      s.byte_sent + length_in_sequence_space (next_out s)
      ≡ 1 + stream_after.alread + flag (next_out s).header.fin
  sent_counted =
      let l = out_length in
      let n = read_number in let k = v.counted in let o = c.open_end in ground (arith, l, n, k, o)

  finished_now : (next_out s).header.fin ≡ true → ByteStream.eof stream_after ≡ true
  finished_now h = ground (arith, fin_cut)

  restart_active : (restart s).active ≡ true
  unfolding restart start rto_reset
  restart_active = ground arith

  pub next-IsValid : IsValid (next_state s)
  unfolding send
  next-IsValid = record {
    oldest = v.oldest;
    chain = rw sent_number (
        Chain-append s.isn v.oldest s.byte_sent _ s.unacked (next_out s) v.chain out_number out_pos
          out_bounds.0 refl);
    pending =
        Pending-append s.isn v.oldest s.byte_sent s.byte_received s.unacked (next_out s) v.chain
          v.pending out_pos;
    begun = v.begun;
    ordered = omega (arith, v.ordered, sent_number);
    narrow = omega (arith, sent_number, sent_narrow);
    small = v.small;
    isn_word = v.isn_word;
    window_word = v.window_word;
    stream_ok = Laws.read-IsValid (next_payload s) v.stream_ok;
    counted = ground (arith, sent_number, sent_counted, out_pos, c.open_end);
    finished = λ p. finished_now (ground (arith, c.open_end));
    timed = restart_active ∙ ap not (sym (is_empty-append s.unacked (next_out s)));
  }
