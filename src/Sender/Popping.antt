-- ===== src/Sender/Popping.antt =====
-- Which segments an acknowledgment takes off the queue (`ack_received` of libsponge/tcp_sender.cc).
use csed353_tcp.Prelude.{
  ℕ, ◌+◌, ◌≤◌, ◌<◌, ◌^◌, ◌≡◌, refl, ap, List, [], ◌∷◌, ◌++◌, arith, leb, u32_mod, u64_mod, add64,
  leb→le, Bool-cases, inl, inr,
}
use csed353_tcp.Wrapping.{WrappingInt32, unwrap}
use csed353_tcp.Wrapping.Laws.{unwrap-wrap}
use csed353_tcp.Segment.{TcpSegment, length_in_sequence_space}
use csed353_tcp.Sender.{pop_acked}
use csed353_tcp.Sender.Invariant.{Chain, Pending}

-- The queue is cut at the first segment that reaches beyond the acknowledgment.
pub record Popped (isn : WrappingInt32) (a b ack : ℕ) (segs left : List TcpSegment) : Type 0 where
  pub oldest : ℕ
  pub acked : List TcpSegment
  pub parts : segs ≡ acked ++ left
  pub covered : Chain isn a oldest acked
  pub chain : Chain isn oldest b left
  pub pending : Pending oldest ack left
  pub begun : oldest ≤ ack

pub pop_acked-Popped :
    (isn : WrappingInt32) (b ack : ℕ) (segs : List TcpSegment) (a : ℕ)
    → isn.raw_value < u32_mod
    → ack + 2 ^ 18 ≤ u64_mod
    → Chain isn a b segs
    → a ≤ ack
    → ack ≤ b
    → ack < a + 2 ^ 31
    → Popped isn a b ack segs (pop_acked isn ack segs)
unfolding pop_acked
pop_acked-Popped isn b ack [] a hi hs ch h k w = record {
  oldest = a;
  acked = [];
  parts = refl;
  covered = refl;
  chain = ch;
  pending = omega arith;
  begun = h;
}
pop_acked-Popped isn b ack (seg ∷ rest) a hi hs ch h k w =
    let len : ℕ = length_in_sequence_space seg in
    let at : unwrap seg.header.seqno isn ack ≡ a =
      rw (ch.0) (unwrap-wrap a isn ack (omega arith) hi (omega arith) (omega arith) w) in
    let end : add64 (unwrap seg.header.seqno isn ack) len ≡ a + len = omega (arith, at, ch.2) in
    elim (Bool-cases (leb (add64 (unwrap seg.header.seqno isn ack) len) ack)) [
      | inl gone ↦
          let le = leb→le _ _ gone in
          let p =
            pop_acked-Popped isn b ack rest (a + len) hi hs ch.3 (omega (arith, end)) k
              (omega arith) in
          let r : Popped isn a b ack (seg ∷ rest) (pop_acked isn ack rest) = record {
            oldest = p.oldest;
            acked = seg ∷ p.acked;
            parts = ap (◌∷◌ seg) p.parts;
            covered = (ch.0, ch.1, ch.2, p.covered);
            chain = p.chain;
            pending = p.pending;
            begun = p.begun;
          } in
          ground (arith, r)
      | inr stays ↦
          let r : Popped isn a b ack (seg ∷ rest) (seg ∷ rest) = record {
            oldest = a;
            acked = [];
            parts = refl;
            covered = refl;
            chain = ch;
            pending = ground (arith, end);
            begun = h;
          } in
          ground (arith, r)
    ]
