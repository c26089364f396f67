-- ===== src/Sender/Invariant.antt =====
-- What holds of the sender (libsponge/tcp_sender.cc) between calls.
use csed353_tcp.Prelude.{
  ℕ, ◌+◌, ◌-◌, ◌≤◌, ◌<◌, ◌^◌, ◌≡◌, refl, Bool, true, false, not, some, List, [], ◌∷◌, ◌++◌, arith,
  ◌==◌, u64_mod, u32_mod, u16_mod,
}
use csed353_tcp.ByteStream
use csed353_tcp.ByteStream.Laws
use csed353_tcp.Wrapping.{WrappingInt32, wrap}
use csed353_tcp.Segment.{TcpSegment, length_in_sequence_space, flag}
use csed353_tcp.Sender.{TcpSender, init}

-- A SYN or FIN beside the largest payload.
abbrev pub max_segment : ℕ
max_segment = 1002

-- The segments follow one another without a gap from absolute number `a` to `b`.
abbrev pub Chain : WrappingInt32 → ℕ → ℕ → List TcpSegment → Type 0
Chain isn a b [] = a ≡ b
Chain isn a b (seg ∷ rest) =
    (seg.header.seqno ≡ wrap a isn)
    × (0 < length_in_sequence_space seg)
    × (length_in_sequence_space seg ≤ max_segment)
    × Chain isn (a + length_in_sequence_space seg) b rest

-- Of the segments from `a` on, the first is not yet acknowledged in full at `r`.
abbrev pub Pending : ℕ → ℕ → List TcpSegment → Type 0
Pending a r [] = a ≡ r
Pending a r (seg ∷ rest) = r < a + length_in_sequence_space seg

abbrev pub is_empty : List TcpSegment → Bool
is_empty [] = true
is_empty (seg ∷ rest) = false

-- `oldest` is the absolute number of the first segment in flight.
pub record IsValid (s : TcpSender) : Type 0 where
  pub oldest : ℕ
  pub chain : Chain s.isn oldest s.byte_sent s.unacked
  pub pending : Pending oldest s.byte_received s.unacked
  pub begun : oldest ≤ s.byte_received
  pub ordered : s.byte_received ≤ s.byte_sent
  pub narrow : s.byte_sent ≤ s.byte_received + (u16_mod - 1)
  pub small : s.byte_received + 2 ^ 18 ≤ u64_mod
  pub isn_word : s.isn.raw_value < u32_mod
  pub window_word : s.window_size < u16_mod
  pub stream_ok : Laws.IsValid s.stream
  pub counted : s.byte_sent + flag (s.byte_sent == 0) ≡ 1 + s.stream.alread + flag s.fin_flag
  pub finished : s.fin_flag ≡ true → ByteStream.eof s.stream ≡ true
  pub timed : s.timer.active ≡ not (is_empty s.unacked)

pub Chain-append :
    (isn : WrappingInt32) (a b c : ℕ) (segs : List TcpSegment) (seg : TcpSegment)
    → Chain isn a b segs
    → seg.header.seqno ≡ wrap b isn
    → 0 < length_in_sequence_space seg
    → length_in_sequence_space seg ≤ max_segment
    → b + length_in_sequence_space seg ≡ c
    → Chain isn a c (segs ++ seg ∷ [])
Chain-append isn a b c [] seg ch q p m e = (ground arith, p, m, omega arith)
Chain-append isn a b c (x ∷ xs) seg ch q p m e =
    (ch.0, ch.1, ch.2, Chain-append isn (a + length_in_sequence_space x) b c xs seg ch.3 q p m e)

pub Pending-append :
    (isn : WrappingInt32) (a b r : ℕ) (segs : List TcpSegment) (seg : TcpSegment)
    → Chain isn a b segs
    → Pending a r segs
    → 0 < length_in_sequence_space seg
    → Pending a r (segs ++ seg ∷ [])
Pending-append isn a b r [] seg ch p h = omega arith
Pending-append isn a b r (x ∷ xs) seg ch p h = p

pub is_empty-append :
    (segs : List TcpSegment) (seg : TcpSegment) → is_empty (segs ++ seg ∷ []) ≡ false
is_empty-append [] seg = refl
is_empty-append (x ∷ xs) seg = refl

-- A new sender is valid.
pub init-IsValid :
    (capacity timeout random : ℕ) (isn : WrappingInt32)
    → capacity < u64_mod
    → isn.raw_value < u32_mod
    → IsValid (init capacity timeout (some isn) random)
unfolding init ByteStream.init
init-IsValid capacity timeout random isn hc hi = record {
  oldest = 0;
  chain = refl;
  pending = refl;
  begun = omega arith;
  ordered = omega arith;
  narrow = omega arith;
  small = omega arith;
  isn_word = hi;
  window_word = omega arith;
  stream_ok = Laws.init-IsValid capacity hc;
  counted = refl;
  finished = λ p. cc;
  timed = refl;
}
