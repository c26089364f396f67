-- ===== src/Tests/Reassembly.antt =====
-- The reassembler (libsponge/stream_reassembler.cc) at concrete inputs.
use csed353_tcp.Prelude.{
  ℕ, ◌≤◌, ◌<◌, ◌≡◌, refl, true, false, none, some, [], ◌∷◌, ◌++◌, arith, length, Bytes, ◌>>=◌,
}
use csed353_tcp.ByteStream
use csed353_tcp.Reassembler.{StreamReassembler, init, push_substring}
use csed353_tcp.Reassembler.State.{Inv}
use csed353_tcp.Reassembler.Push.{Pushed, push_substring-Pushed}
use csed353_tcp.Reassembler.History.{Reach, Reach_prefix, init-Inv, read_out, bytes_out}
use csed353_tcp.Reassembler.History.Reach.{start, push, read}
use csed353_tcp.Reassembler.Slice.{slice}
use csed353_tcp.Reassembler.Eof.{EofInv, push_substring-EofInv}
use csed353_tcp.Reassembler.Faults.{push_twice_throws, eof_too_early}

-- The stream 0, 1, 2, ...
abbrev ident : ℕ → ℕ
ident i = i

abbrev fresh : StreamReassembler
fresh = init 4

fresh-Inv : Inv ident 10 fresh
fresh-Inv = init-Inv ident 10 4 (omega arith) (omega arith)

abbrev pair : Bytes
pair = 1 ∷ 2 ∷ []

abbrev four : Bytes
four = 0 ∷ 1 ∷ 2 ∷ 3 ∷ []

push_substring-Pushed_example :
    (r' : StreamReassembler) × (push_substring fresh pair 1 false ≡ some r')
    × Pushed ident 10 1 2 fresh r'
unfolding init
push_substring-Pushed_example =
    push_substring-Pushed ident 10 fresh pair 1 false fresh-Inv refl (omega arith) (omega arith)
      (omega arith)

fresh-EofInv : EofInv 4 fresh
unfolding init ByteStream.init ByteStream.input_ended
fresh-EofInv = record {
  announced = λ h. ground (arith, h);
  ended = λ h. ground (arith, h);
  complete = λ h. ground (arith, h);
}

fresh4-Inv : Inv ident 4 fresh
fresh4-Inv = init-Inv ident 4 4 (omega arith) (omega arith)

push_substring-EofInv_example :
    (r' : StreamReassembler) × (push_substring fresh four 0 true ≡ some r') × EofInv 4 r'
unfolding init
push_substring-EofInv_example =
    push_substring-EofInv ident 4 fresh four 0 true fresh4-Inv fresh-EofInv refl (omega arith)
      (omega arith) (omega arith) (λ _. (refl, omega arith, omega arith))

abbrev after_pair : StreamReassembler
after_pair = push_substring-Pushed_example.0

reached : Reach ident 10 4 after_pair []
unfolding init
reached =
    push pair 1 false start refl (omega arith) (omega arith) (omega arith)
      push_substring-Pushed_example.1

reached_read : Reach ident 10 4 (read_out after_pair 3) ([] ++ bytes_out after_pair 3)
reached_read = read 3 reached

Reach_prefix_example :
    let r = read_out after_pair 3 in
    (([] ++ bytes_out after_pair 3) ++ r.output.content ≡ slice ident 0 r.firstindex)
    × (length r.output.content ≤ r.capacity)
Reach_prefix_example = Reach_prefix ident 10 4 (omega arith) (omega arith) reached_read

push_twice_throws_example :
    (r : StreamReassembler) × (push_substring (init 4) pair 6 false ≡ some r)
    × (push_substring r pair 6 false ≡ none)
push_twice_throws_example =
    push_twice_throws 4 6 pair false (omega arith) (omega arith) (omega arith) (omega arith)

eof_too_early_example :
    let pushed = push_substring (init 4) [] 3 true >>= λ r. push_substring r pair 0 false in
    (r : StreamReassembler) × (pushed ≡ some r)
    × (ByteStream.input_ended r.output ≡ true)
    × (r.output.content ≡ pair)
    × (ByteStream.bytes_written r.output < 3)
eof_too_early_example =
    eof_too_early 4 3 pair (omega arith) (omega arith) (omega arith) (omega arith)
