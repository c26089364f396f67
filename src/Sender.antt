-- ===== src/Sender.antt =====
-- libsponge/tcp_sender.hh and tcp_sender.cc: the retransmission timer and the sender, which cuts the
-- outgoing byte stream into segments, keeps those in flight and sends the oldest one again.
pub mod Invariant
pub mod Window
pub mod Filling
pub mod Popping
pub mod Acks
pub mod Timeouts
use csed353_tcp.Prelude.{
  ℕ, zero, suc, ◌-◌, ◌+◌, ◌%◌, ◌^◌, Bool, true, false, not, ◌&&◌, ◌||◌, Option, none, some, List,
  [], ◌∷◌, ◌++◌, ltb, leb, ◌==◌, if◌then◌else◌, Bytes, length, add64, sub64, u32_mod, u64_mod,
}
use csed353_tcp.Wrapping.{WrappingInt32, wrap, unwrap}
use csed353_tcp.ByteStream
use csed353_tcp.ByteStream.{ByteStream}
use csed353_tcp.Segment.{TcpSegment, empty_header, empty_segment, length_in_sequence_space, flag}

-- class Timer.
pub record Timer : Type 0 where
  pub active : Bool
  pub start_time : ℕ
  pub current_time : ℕ
  pub rto : ℕ

abbrev pub timer_init : ℕ → Timer
timer_init rto = record { active = false; start_time = 0; current_time = 0; rto = rto }

unfoldable pub update_time : Timer → ℕ → Timer
update_time t timestamp = record t { current_time = timestamp }

unfoldable pub timeout : Timer → Bool
timeout t = t.active && leb t.rto (sub64 t.current_time t.start_time)

unfoldable pub rto_double : Timer → Timer
rto_double t = record t { rto = add64 t.rto t.rto }

unfoldable pub start : Timer → ℕ → Timer
start t timestamp = record t { start_time = timestamp; current_time = timestamp; active = true }

unfoldable pub rto_reset : Timer → ℕ → Timer
rto_reset t rto = record t { rto = rto; active = false }

-- TCPConfig::MAX_PAYLOAD_SIZE.
abbrev pub max_payload_size : ℕ
max_payload_size = 1000

-- class TCPSender. The heads of the lists are the fronts of the queues.
pub record TcpSender : Type 0 where
  pub isn : WrappingInt32
  pub segments_out : List TcpSegment
  pub initial_retransmission_timeout : ℕ
  pub stream : ByteStream
  pub consecutive_retrans : ℕ
  pub unacked : List TcpSegment
  pub timer : Timer
  pub time : ℕ
  pub window_size : ℕ
  pub byte_sent : ℕ
  pub byte_received : ℕ
  pub fin_flag : Bool

-- The constructor; `random` is what `random_device` draws where no number is fixed.
unfoldable pub init : ℕ → ℕ → Option WrappingInt32 → ℕ → TcpSender
init capacity retx_timeout fixed_isn random = record {
  isn = elim fixed_isn [ none ↦ record { raw_value = random } | some n ↦ n ];
  segments_out = [];
  initial_retransmission_timeout = retx_timeout;
  stream = ByteStream.init capacity;
  consecutive_retrans = 0;
  unacked = [];
  timer = timer_init retx_timeout;
  time = 0;
  window_size = 1;
  byte_sent = 0;
  byte_received = 0;
  fin_flag = false;
}

unfoldable pub bytes_in_flight : TcpSender → ℕ
bytes_in_flight s = sub64 s.byte_sent s.byte_received

unfoldable pub next_seqno : TcpSender → WrappingInt32
next_seqno s = wrap s.byte_sent s.isn

unfoldable pub fin_sent : TcpSender → Bool
fin_sent s = s.fin_flag

unfoldable pub fin_acked : TcpSender → Bool
unfolding fin_sent
fin_acked s = length s.unacked == 0 && fin_sent s

-- The window that the sender fills: a shut one counts as one byte.
abbrev pub usable_window : TcpSender → ℕ
usable_window s = if ltb 0 s.window_size then s.window_size else 1

-- How much payload the next segment takes; `syn` is its SYN flag.
abbrev pub payload_size : TcpSender → Bool → ℕ
payload_size s syn =
    let room : ℕ = sub64 (sub64 (usable_window s) (bytes_in_flight s)) (flag syn) in
    let buffered : ℕ =
      if ltb (ByteStream.buffer_size s.stream) room
      then ByteStream.buffer_size s.stream
      else room in
    if ltb max_payload_size buffered then max_payload_size else buffered

-- The segment that goes out, and the sender that has queued it.
unfoldable pub cut_segment : TcpSender → Bool → ℕ → TcpSegment
cut_segment s syn payload =
    let (stream, bytes) = ByteStream.read s.stream payload in
    let seg : TcpSegment = record {
      header = record empty_header { syn = syn; seqno = next_seqno s };
      payload = bytes;
    } in
    let room : Bool =
      ltb (add64 (bytes_in_flight s) (length_in_sequence_space seg)) (usable_window s) in
    let fin : Bool = if room then ByteStream.eof stream else false in
    record seg { header = record empty_header { syn = syn; seqno = next_seqno s; fin = fin } }

unfoldable pub restart : TcpSender → Timer
restart s =
    if not s.timer.active
    then start (rto_reset s.timer s.initial_retransmission_timeout) s.time
    else s.timer

unfoldable pub send : TcpSender → TcpSegment → ByteStream → TcpSender
unfolding restart
send s seg stream = record s {
  stream = stream;
  fin_flag = if seg.header.fin then true else s.fin_flag;
  segments_out = s.segments_out ++ seg ∷ [];
  unacked = s.unacked ++ seg ∷ [];
  byte_sent = add64 s.byte_sent (length_in_sequence_space seg);
  timer = restart s;
}

-- One round of `fill_window` up to its call of itself; `none` is a return without a segment.
unfoldable pub next_segment : TcpSender → Option TcpSender
unfolding bytes_in_flight next_seqno cut_segment send
next_segment s =
    let syn : Bool = s.byte_sent == 0 in
    let sequence_size : ℕ = flag syn in
    let in_flight : ℕ = bytes_in_flight s in
    let payload : ℕ = payload_size s syn in
    let sent : TcpSender =
      send s (cut_segment s syn payload) (ByteStream.read s.stream payload).0 in
    if s.fin_flag
    then none
    else if ltb (usable_window s) (add64 in_flight sequence_size) || leb (usable_window s) in_flight
    then none
    else if not (ByteStream.eof s.stream) && (sequence_size + payload == 0)
    then none
    else some sent

-- `fill_window` calls itself until a round returns without a segment. Every segment takes at least
-- one number of a window of at most 2 ^ 16 - 1, so that many rounds are enough.
unfoldable pub fill_loop : ℕ → TcpSender → TcpSender
fill_loop zero s = s
fill_loop (suc fuel) s = elim (next_segment s) [ none ↦ s | some t ↦ fill_loop fuel t ]

unfoldable pub fill_window : TcpSender → TcpSender
unfolding fill_loop
fill_window s = fill_loop (2 ^ 16) s

-- The segments that an acknowledgment covers leave the queue.
unfoldable pub pop_acked : WrappingInt32 → ℕ → List TcpSegment → List TcpSegment
pop_acked isn abs_ack [] = []
pop_acked isn abs_ack (seg ∷ rest) =
    let left : List TcpSegment = pop_acked isn abs_ack rest in
    if leb (add64 (unwrap seg.header.seqno isn abs_ack) (length_in_sequence_space seg)) abs_ack
    then left
    else seg ∷ rest

-- What a new acknowledgment changes, before the window is filled.
unfoldable pub advance : TcpSender → ℕ → TcpSender
unfolding pop_acked rto_reset start
advance s abs_ack =
    let left : List TcpSegment = pop_acked s.isn abs_ack s.unacked in
    let timer : Timer = rto_reset s.timer s.initial_retransmission_timeout in
    record s {
      timer = if not (length left == 0) then start timer s.time else timer;
      consecutive_retrans = 0;
      byte_received = abs_ack;
      unacked = left;
    }

unfoldable pub ack_received : TcpSender → WrappingInt32 → ℕ → TcpSender × Bool
unfolding advance
ack_received s ackno window_size =
    let abs_ack : ℕ = unwrap ackno s.isn s.byte_received in
    let t : TcpSender = record s { window_size = window_size } in
    if ltb t.byte_sent abs_ack
    then (t, false)
    else if ltb abs_ack t.byte_received
    then (t, true)
    else if abs_ack == t.byte_received
    then (fill_window t, true)
    else (fill_window (advance t abs_ack), true)

-- The oldest segment goes out again. `none` stands for `front()` of an empty queue.
unfoldable pub retransmit : TcpSender → Option TcpSender
unfolding rto_double start
retransmit s = elim s.unacked [
  | [] ↦ none
  | oldest ∷ _ ↦ some (record s {
    segments_out = s.segments_out ++ oldest ∷ [];
    consecutive_retrans = (s.consecutive_retrans + 1) % u32_mod;
    timer = start (rto_double s.timer) s.time;
  })
]

unfoldable pub tick : TcpSender → ℕ → Option TcpSender
unfolding update_time timeout retransmit
tick s₀ ms =
    let s : TcpSender = record s₀ { time = add64 s₀.time ms } in
    let t : TcpSender = record s { timer = update_time s.timer s.time } in
    if s.timer.active then (if timeout t.timer then retransmit t else some t) else some s

unfoldable pub send_empty_segment : TcpSender → TcpSender
unfolding next_seqno
send_empty_segment s = record s {
  segments_out =
      s.segments_out
      ++ record empty_segment { header = record empty_header { seqno = next_seqno s } } ∷ [];
}
