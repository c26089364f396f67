-- ===== src/Segment.antt =====
-- libsponge/tcp_helpers/tcp_header.hh, tcp_segment.hh and tcp_segment.cc: the TCP segment as the sender
-- and the receiver see it. The payload, a `Buffer`, is the bytes that it shows.
pub mod Wire
pub mod RoundTrip
pub mod Checksummed
use csed353_tcp.Prelude.{ℕ, ◌+◌, ◌≤◌, arith, Bool, true, false, [], if◌then◌else◌, Bytes, length}
use csed353_tcp.Wrapping.{WrappingInt32}

-- struct TCPHeader.
pub record TcpHeader : Type 0 where
  pub sport : ℕ
  pub dport : ℕ
  pub seqno : WrappingInt32
  pub ackno : WrappingInt32
  pub doff : ℕ
  pub urg : Bool
  pub ack : Bool
  pub psh : Bool
  pub rst : Bool
  pub syn : Bool
  pub fin : Bool
  pub win : ℕ
  pub cksum : ℕ
  pub uptr : ℕ

-- TCPHeader::LENGTH.
abbrev pub header_length : ℕ
header_length = 20

-- The header that a default-constructed `TCPHeader` has.
abbrev pub empty_header : TcpHeader
empty_header = record {
  sport = 0;
  dport = 0;
  seqno = record { raw_value = 0 };
  ackno = record { raw_value = 0 };
  doff = 5;
  urg = false;
  ack = false;
  psh = false;
  rst = false;
  syn = false;
  fin = false;
  win = 0;
  cksum = 0;
  uptr = 0;
}

pub record TcpSegment : Type 0 where
  pub header : TcpHeader
  pub payload : Bytes

abbrev pub empty_segment : TcpSegment
empty_segment = record { header = empty_header; payload = [] }

abbrev pub flag : Bool → ℕ
flag b = if b then 1 else 0

-- A string fits in memory, so the sum does not wrap.
abbrev pub length_in_sequence_space : TcpSegment → ℕ
length_in_sequence_space seg = length seg.payload + flag seg.header.syn + flag seg.header.fin

pub flag_le : (b : Bool) → flag b ≤ 1
flag_le true = omega arith
flag_le false = omega arith
