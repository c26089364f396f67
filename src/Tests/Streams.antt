-- ===== src/Tests/Streams.antt =====
-- Sequence numbers and byte streams (libsponge/wrapping_integers.cc, byte_stream.cc) at concrete inputs.
use csed353_tcp.Prelude.{◌+◌, ◌≤◌, ◌≡◌, ◌^◌, refl, List, [], ◌∷◌, ◌++◌, arith, length, Bytes}
use csed353_tcp.Wrapping.{WrappingInt32, wrap, unwrap}
use csed353_tcp.Wrapping.Laws.{unwrap-wrap}
use csed353_tcp.ByteStream.{ByteStream, init, write}
use csed353_tcp.ByteStream.Laws.{init-IsValid}
use csed353_tcp.ByteStream.History.{Call, run, run_fifo}
use csed353_tcp.ByteStream.History.Call.{writes, reads, pops, ends}

-- A number close below 2 ^ 32, so that the sequence numbers wrap.
abbrev isn : WrappingInt32
isn = record { raw_value = 4294967290 }

abbrev seqno : WrappingInt32
seqno = record { raw_value = 5 }

wrapped_around : unwrap seqno isn 0 ≡ 11
unfolding unwrap wrap
wrapped_around = refl

unwrap-wrap_example : unwrap (wrap 17 isn) isn 10 ≡ 17
unwrap-wrap_example =
    unwrap-wrap 17 isn 10 (omega arith) (omega arith) (omega arith) (omega arith) (omega arith)

same_number : wrap (11 + 2 ^ 32) isn ≡ seqno
unfolding wrap
same_number = refl

abbrev calls : List Call
calls = writes (1 ∷ 2 ∷ 3 ∷ []) ∷ reads 1 ∷ writes (4 ∷ []) ∷ pops 1 ∷ ends ∷ []

run_fifo_example :
    let o = run (init 2) calls in
    ((init 2).content ++ o.accepted ≡ o.delivered ++ o.stream.content)
    × (length o.stream.content ≤ (init 2).max)
run_fifo_example = run_fifo calls (init-IsValid 2 (omega arith))

abbrev three : Bytes
three = 1 ∷ 2 ∷ 3 ∷ []

abbrev filled : ByteStream
filled = (write (init 4) (1 ∷ 2 ∷ 3 ∷ [])).0
