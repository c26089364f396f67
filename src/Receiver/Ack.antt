-- ===== src/Receiver/Ack.antt =====
-- What libsponge/tcp_receiver.cc acknowledges.
use csed353_tcp.Prelude.{
  ℕ, ◌+◌, ◌≤◌, ◌<◌, ◌^◌, ◌≡◌, true, ◌&&◌, some, arith, u32_mod, u64_mod, ◌==◌,
}
use csed353_tcp.Wrapping.{WrappingInt32, wrap, unwrap}
use csed353_tcp.Wrapping.Laws.{unwrap-wrap}
use csed353_tcp.Segment.{flag, flag_le}
use csed353_tcp.Receiver.{TcpReceiver, ackno, stream_out, unassembled_bytes}

-- The absolute number that is acknowledged: the SYN, the bytes written, and the FIN if it was seen
-- and nothing is stored.
abbrev pub acknowledged : TcpReceiver → ℕ
acknowledged r = 1 + (stream_out r).alwritten + flag (r.finset && (unassembled_bytes r == 0))

pub ackno-wrap :
    (r : TcpReceiver)
    → r.isnset ≡ true
    → (stream_out r).alwritten + 2 < u64_mod
    → ackno r ≡ some (wrap (acknowledged r) r.isn)
unfolding ackno
ackno-wrap r h k = ground arith

-- A peer that unwraps the acknowledgment of a synchronised receiver, which has written fewer than
-- 2 ^ 64 - 2 bytes, at a 64-bit checkpoint less than 2 ^ 31 away from what is acknowledged, gets the number that is acknowledged: the bytes written, one more for the SYN, and one more
-- for the FIN once it was seen and nothing is stored.
pub unwrap-ackno :
    (r : TcpReceiver) (checkpoint : ℕ) (a : WrappingInt32)
    → r.isnset ≡ true
    → (stream_out r).alwritten + 2 < u64_mod
    → r.isn.raw_value < u32_mod
    → checkpoint < u64_mod
    → acknowledged r ≤ checkpoint + 2 ^ 31
    → checkpoint < acknowledged r + 2 ^ 31
    → ackno r ≡ some a
    → unwrap a r.isn checkpoint ≡ acknowledged r
unwrap-ackno r checkpoint a h k hi hc ha hb e =
    let le = flag_le (r.finset && (unassembled_bytes r == 0)) in
    let w = ackno-wrap r h k in
    ground (arith, w, unwrap-wrap (acknowledged r) r.isn checkpoint (omega arith) hi hc ha hb)
