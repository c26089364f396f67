-- ===== src/Receiver.antt =====
-- libsponge/tcp_receiver.hh and tcp_receiver.cc: the receiver keeps the peer's initial sequence number,
-- gives payloads to the reassembler at their stream index, and says what it acknowledges.
pub mod Ack
pub mod Segments
pub mod Appended
pub mod Handshake
pub mod Faults
use csed353_tcp.Prelude.{
  ℕ, Bool, true, false, not, ◌&&◌, Option, none, some, ltb, ◌==◌, if◌then◌else◌, ◌>>=◌, Bytes,
  length, add64, sub64,
}
use csed353_tcp.Wrapping.{WrappingInt32, wrap, unwrap}
use csed353_tcp.ByteStream
use csed353_tcp.ByteStream.{ByteStream}
use csed353_tcp.Reassembler
use csed353_tcp.Reassembler.{StreamReassembler}
use csed353_tcp.Segment.{TcpSegment, flag}

pub record TcpReceiver : Type 0 where
  pub reassembler : StreamReassembler
  pub capacity : ℕ
  pub isn : WrappingInt32
  pub isnset : Bool
  pub finset : Bool

unfoldable pub init : ℕ → TcpReceiver
init capacity = record {
  reassembler = Reassembler.init capacity;
  capacity = capacity;
  isn = record { raw_value = 0 };
  isnset = false;
  finset = false;
}

-- `stream_out()`.
abbrev pub stream_out : TcpReceiver → ByteStream
stream_out r = r.reassembler.output

unfoldable pub unassembled_bytes : TcpReceiver → ℕ
unassembled_bytes r = Reassembler.unassembled_bytes r.reassembler

unfoldable pub ackno : TcpReceiver → Option WrappingInt32
unfolding unassembled_bytes Reassembler.unassembled_bytes ByteStream.bytes_written
ackno r =
    let isend : Bool = r.finset && (unassembled_bytes r == 0) in
    if r.isnset
    then some (wrap (add64 (add64 1 (ByteStream.bytes_written (stream_out r))) (flag isend)) r.isn)
    else none

unfoldable pub window_size : TcpReceiver → ℕ
window_size r = ByteStream.remaining_capacity (stream_out r)

-- A payload goes to the reassembler.
abbrev pub push : TcpReceiver → Bytes → ℕ → Bool → Option TcpReceiver
push r bytes index eof = Reassembler.push_substring r.reassembler bytes index eof >>= λ q.
    some (record r { reassembler = q })

-- A segment before the SYN, and the SYN itself.
unfoldable pub unsynchronised : TcpReceiver → TcpSegment → Option (TcpReceiver × Bool)
unsynchronised r seg =
    if seg.header.syn
    then (push (record r { isn = seg.header.seqno; isnset = true; finset = seg.header.fin })
          seg.payload 0 seg.header.fin
        >>= λ q. some (q, true))
    else some (r, seg.header.fin)

-- Whether the segment, taken as one byte long if it is empty, meets the window, taken as one byte
-- long if it is shut.
unfoldable pub in_window : TcpReceiver → TcpSegment → WrappingInt32 → Bool
unfolding window_size
in_window r seg ack =
    let checkpoint : ℕ = ByteStream.bytes_written (stream_out r) in
    let win_size : ℕ = if window_size r == 0 then 1 else window_size r in
    let len : ℕ = if length seg.payload == 0 then 1 else length seg.payload in
    let win_begin : ℕ = unwrap ack r.isn checkpoint in
    let win_end : ℕ = add64 win_begin win_size in
    let left : ℕ = unwrap seg.header.seqno r.isn checkpoint in
    let right : ℕ = add64 left len in ltb win_begin right && ltb left win_end

unfoldable pub synchronised : TcpReceiver → TcpSegment → Option (TcpReceiver × Bool)
unfolding ackno in_window
synchronised r seg =
    let checkpoint : ℕ = ByteStream.bytes_written (stream_out r) in
    let abs_n : ℕ = unwrap seg.header.seqno r.isn checkpoint in
    let index : ℕ = if not seg.header.syn then sub64 abs_n 1 else abs_n in
    ackno r >>= λ ack. push r seg.payload index seg.header.fin >>= λ q. some (
      record q { finset = if seg.header.fin && not q.finset then true else q.finset },
      in_window r seg ack,
    )

-- `none` is an exception of the reassembler or of an empty `optional`.
unfoldable pub segment_received : TcpReceiver → TcpSegment → Option (TcpReceiver × Bool)
unfolding unsynchronised synchronised
segment_received r seg = if not r.isnset then unsynchronised r seg else synchronised r seg
