-- ===== src/ByteStream/History.antt =====
-- A byte stream of libsponge/byte_stream.cc over a whole history of calls: what the reader gets is
-- what the writer was told it had written.
use csed353_tcp.Prelude.{
  ℕ, ◌≤◌, ◌≡◌, refl, sym, ap, ◌∙◌, List, [], ◌∷◌, ◌++◌, append-nil, append_assoc, arith, Bytes,
  length, take,
}
use csed353_tcp.ByteStream.{ByteStream, write, read, peek_output, pop_output, end_input, set_error}
use csed353_tcp.ByteStream.Laws.{
  IsValid, write_lem, write-IsValid, read_lem, read-IsValid, pop_output-IsValid,
}

pub data Call : Type 0 where
  writes : Bytes → Call
  reads : ℕ → Call
  pops : ℕ → Call
  ends errs : Call

-- The stream after a call, the bytes that the writer was told were accepted, and the bytes that
-- left at the reader's side.
pub record Outcome : Type 0 where
  pub stream : ByteStream
  pub accepted : Bytes
  pub delivered : Bytes

pub step : ByteStream → Call → Outcome
step s (writes bytes) =
    let (t, n) = write s bytes in record { stream = t; accepted = take n bytes; delivered = [] }
step s (reads n) = let (t, out) = read s n in record { stream = t; accepted = []; delivered = out }
step s (pops n) = record { stream = pop_output s n; accepted = []; delivered = peek_output s n }
step s ends = record { stream = end_input s; accepted = []; delivered = [] }
step s errs = record { stream = set_error s; accepted = []; delivered = [] }

pub run : ByteStream → List Call → Outcome
run s [] = record { stream = s; accepted = []; delivered = [] }
run s (c ∷ cs) =
    let o : Outcome = step s c in
    let rest : Outcome = run o.stream cs in
    record rest {
      accepted = o.accepted ++ rest.accepted;
      delivered = o.delivered ++ rest.delivered;
    }

step-IsValid : {s : ByteStream} (c : Call) → IsValid s → IsValid (step s c).stream
unfolding step end_input set_error
step-IsValid (writes bytes) v = write-IsValid bytes v
step-IsValid (reads n) v = read-IsValid n v
step-IsValid (pops n) v = pop_output-IsValid n v
step-IsValid ends v = ground (arith, v)
step-IsValid errs v = ground (arith, v)

step_conserves :
    {s : ByteStream} (c : Call)
    → IsValid s
    → let o = step s c in s.content ++ o.accepted ≡ o.delivered ++ o.stream.content
unfolding step end_input set_error
step_conserves {s} (writes bytes) v = ground (arith, write_lem bytes v)
step_conserves {s} (reads n) v = ground (arith, read_lem s n, append-nil s.content)
step_conserves {s} (pops n) v = ground (arith, read_lem s n, append-nil s.content)
step_conserves {s} ends v = append-nil s.content
step_conserves {s} errs v = append-nil s.content

max-step : (s : ByteStream) (c : Call) → IsValid s → (step s c).stream.max ≡ s.max
unfolding step end_input set_error
max-step s (writes bytes) v = ground (arith, write_lem bytes v)
max-step s (reads n) v = ground (arith, read_lem s n)
max-step s (pops n) v = ground (arith, read_lem s n)
max-step s ends v = refl
max-step s errs v = refl

-- After any calls on a valid stream, what was in the buffer followed by what was accepted is what
-- was delivered followed by what is in the buffer now, and the buffer is within the capacity that
-- the stream had at the start.
pub run_fifo :
    (cs : List Call) {s : ByteStream}
    → IsValid s
    → let o = run s cs in
      (s.content ++ o.accepted ≡ o.delivered ++ o.stream.content)
      × (length o.stream.content ≤ s.max)
unfolding run
run_fifo [] {s} v = (append-nil s.content, v.within)
run_fifo (c ∷ cs) {s} v =
    let o : Outcome = step s c in
    let rest : Outcome = run o.stream cs in
    let ih = run_fifo cs {s = o.stream} (step-IsValid c v) in
    (
      sym (append_assoc s.content o.accepted rest.accepted)
          ∙ ap (λ l. l ++ rest.accepted) (step_conserves c v)
          ∙ append_assoc o.delivered o.stream.content rest.accepted
          ∙ ap (◌++◌ o.delivered) ih.0
          ∙ sym (append_assoc o.delivered rest.delivered rest.stream.content),
      omega (arith, ih.1, max-step s c v),
    )
