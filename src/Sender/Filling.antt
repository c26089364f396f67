-- ===== src/Sender/Filling.antt =====
-- `fill_window` (libsponge/tcp_sender.cc) as a whole.
use mathlib.Core.Path.{subst}
use csed353_tcp.Prelude.{
  ℕ, zero, suc, ◌+◌, ◌≤◌, ◌^◌, ◌≡◌, inl, inr, refl, sym, ap, ◌∙◌, none, List, [], ◌∷◌, ◌++◌, arith,
  max, append-nil, append_assoc, Bytes,
}
use csed353_tcp.ByteStream.Laws
use csed353_tcp.Segment.{TcpSegment}
use csed353_tcp.Sender.{
  TcpSender, usable_window, cut_segment, send, next_segment, fill_loop, fill_window,
}
use csed353_tcp.Sender.Invariant.{IsValid, Chain}
use csed353_tcp.Sender.Window.{
  CanSend, flight, window_bounds, next_segment_cases, next_out, next_payload, next_state, bytes_cut,
  out_bounds, out_pos, out_number, sent_number, next-IsValid,
}

abbrev pub payloads : List TcpSegment → Bytes
payloads [] = []
payloads (seg ∷ segs) = seg.payload ++ payloads segs

-- From `s` to `t` the segments `segs` have gone out, in order.
pub record Sent (s t : TcpSender) (segs : List TcpSegment) : Type 0 where
  pub queued : t.segments_out ≡ s.segments_out ++ segs
  pub in_flight : t.unacked ≡ s.unacked ++ segs
  pub numbered : Chain s.isn s.byte_sent t.byte_sent segs
  pub taken : s.stream.content ≡ payloads segs ++ t.stream.content
  pub same_isn : t.isn ≡ s.isn
  pub same_received : t.byte_received ≡ s.byte_received
  pub same_window : t.window_size ≡ s.window_size

-- What `fill_window` promises, from `s` to `t`; `segs` are the segments that it sent.
pub record Filled (s t : TcpSender) : Type 0 where
  pub valid : IsValid t
  pub blocked : next_segment t ≡ none
  pub grown : s.byte_sent ≤ t.byte_sent
  pub bounded : t.byte_sent ≤ max s.byte_sent (s.byte_received + usable_window s)
  pub segs : List TcpSegment
  pub sent : Sent s t segs

nothing-Sent : (s : TcpSender) → Sent s s []
nothing-Sent s = record {
  queued = sym (append-nil s.segments_out);
  in_flight = sym (append-nil s.unacked);
  numbered = refl;
  taken = refl;
  same_isn = refl;
  same_received = refl;
  same_window = refl;
}

one-Sent :
    (s t : TcpSender) (segs : List TcpSegment)
    → IsValid s
    → CanSend s
    → Sent (next_state s) t segs
    → Sent s t (next_out s ∷ segs)
unfolding send cut_segment
one-Sent s t segs v c r = record {
  queued = r.queued ∙ append_assoc s.segments_out (next_out s ∷ []) segs;
  in_flight = r.in_flight ∙ append_assoc s.unacked (next_out s ∷ []) segs;
  numbered = (
    out_number s v c,
    out_pos s v c,
    (out_bounds s v c).0,
    subst (λ a. Chain s.isn a t.byte_sent segs) (sent_number s v c) r.numbered,
  );
  taken =
      (Laws.read_lem s.stream (next_payload s)).3
      ∙ ap (◌++◌ (bytes_cut s v c)) r.taken
      ∙ sym (append_assoc (bytes_cut s v c) (payloads segs) t.stream.content);
  same_isn = r.same_isn;
  same_received = r.same_received;
  same_window = r.same_window;
}

stopped : (s : TcpSender) → IsValid s → next_segment s ≡ none → Filled s s
stopped s v e = record {
  valid = v;
  blocked = e;
  grown = omega arith;
  bounded = omega arith;
  segs = [];
  sent = nothing-Sent s;
}

-- One more segment in front.
next-Filled : (s t : TcpSender) → IsValid s → CanSend s → Filled (next_state s) t → Filled s t
unfolding send
next-Filled s t v c r = record {
  valid = r.valid;
  blocked = r.blocked;
  grown = omega (arith, r.grown, sent_number s v c);
  bounded =
      omega (arith, r.bounded, sent_number s v c, flight s v, v.ordered, (out_bounds s v c).1);
  segs = next_out s ∷ r.segs;
  sent = one-Sent s t r.segs v c r.sent;
}

next_room :
    (s : TcpSender) (fuel : ℕ)
    → IsValid s
    → CanSend s
    → s.byte_received + usable_window s ≤ s.byte_sent + suc fuel
    → (next_state s).byte_received + usable_window (next_state s) ≤ (next_state s).byte_sent + fuel
unfolding send
next_room s fuel v c h = omega (arith, sent_number s v c, out_pos s v c)

fill_loop-Filled :
    (fuel : ℕ) (s : TcpSender)
    → IsValid s
    → s.byte_received + usable_window s ≤ s.byte_sent + fuel
    → Filled s (fill_loop fuel s)
unfolding fill_loop
fill_loop-Filled zero s v h = elim (next_segment_cases s v) [
  | inl e ↦ stopped s v e
  | inr (c, e) ↦ absurd (omega (arith, c.space, flight s v, v.ordered))
]
fill_loop-Filled (suc fuel) s v h = elim (next_segment_cases s v) [
  | inl e ↦ ground (arith, e, stopped s v e)
  | inr (c, e) ↦
      rw (e, fill_loop)
        (next-Filled s (fill_loop fuel (next_state s)) v c
          (fill_loop-Filled fuel (next_state s) (next-IsValid s v c) (next_room s fuel v c h)))
]

-- From a valid sender `fill_window` ends because nothing more can be sent, not because its rounds
-- run out. The numbers in flight stay within the window, if they were; the segments that went out
-- are queued and in flight, numbered without a gap from the old next number on, and carry the
-- bytes taken from the stream, in order; and the sender is valid again.
pub fill_window-Filled : (s : TcpSender) → IsValid s → Filled s (fill_window s)
unfolding fill_window
fill_window-Filled s v =
    fill_loop-Filled (2 ^ 16) s v (omega (arith, (window_bounds s v).1, v.ordered))
