-- ===== src/StreamCopy.antt =====
-- apps/bidirectional_stream_copy.cc: the standard input goes to a socket and the socket to the standard
-- output, by way of two byte streams and an event loop of four rules. The descriptors start in the
-- non-blocking mode, which the system calls know. The loop is on fuel for its rounds; `none` inside is
-- that it is used up, and outside an exception.
pub mod Steps
pub mod Faithful
pub mod Copied
use csed353_tcp.Prelude.{
  ℕ, zero, suc, min, Bool, true, false, not, ◌&&◌, ◌||◌, Option, none, some, List, [], ◌∷◌, ltb,
  if◌then◌else◌, ◌>>=◌, Bytes,
}
use csed353_tcp.ByteStream
use csed353_tcp.ByteStream.{ByteStream}
use csed353_tcp.Descriptor
use csed353_tcp.Descriptor.{Kernel, FdWrapper, How, open_fd}
use csed353_tcp.EventLoop.{Rule, Result, PollFd, PollAnswer, Direction, wait_next_event}

-- The local variables, with the socket that is copied to and from.
pub record StreamCopy (W : Type 0) : Type 0 where
  pub world : W
  pub socket : FdWrapper
  pub input : FdWrapper
  pub output : FdWrapper
  pub outbound : ByteStream
  pub inbound : ByteStream
  pub outbound_shutdown : Bool
  pub inbound_shutdown : Bool

abbrev pub max_copy_length : ℕ
max_copy_length = 65536

abbrev pub buffer_size : ℕ
buffer_size = 1048576

abbrev pub stdin_fileno : ℕ
stdin_fileno = 0

abbrev pub stdout_fileno : ℕ
stdout_fileno = 1

module _ {W : Type 0} where
  unfoldable pub start : W → FdWrapper → StreamCopy W
  start w socket = record {
    world = w;
    socket = socket;
    input = open_fd stdin_fileno;
    output = open_fd stdout_fileno;
    outbound = ByteStream.init buffer_size;
    inbound = ByteStream.init buffer_size;
    outbound_shutdown = false;
    inbound_shutdown = false;
  }

  -- The cancellations of the rules 1 and 2, and of 3 and 4.
  unfoldable pub end_outbound : StreamCopy W → Option (StreamCopy W)
  end_outbound s = some (record s { outbound = ByteStream.end_input s.outbound })

  unfoldable pub end_inbound : StreamCopy W → Option (StreamCopy W)
  end_inbound s = some (record s { inbound = ByteStream.end_input s.inbound })

-- The interests of the rules 1 and 3, with the stream that is filled and the other, and of 2 and 4.
unfoldable pub wants_read : ByteStream → ByteStream → Bool
wants_read filled other =
    not (ByteStream.error filled)
    && ltb 0 (ByteStream.remaining_capacity filled)
    && not (ByteStream.error other)

unfoldable pub wants_write : ByteStream → Bool → Bool
wants_write stream over = not (ByteStream.buffer_empty stream) || ByteStream.eof stream && not over

-- What a stream is after a read, whose descriptor says whether it was the last.
unfoldable pub taken : ByteStream → FdWrapper → Bytes → ByteStream
taken stream d bytes =
    let written : ByteStream = (ByteStream.write stream bytes).0 in
    if d.eof then ByteStream.end_input written else written

abbrev pub is_exit : Result → Bool
is_exit Result.exit = true
is_exit Result.success = false
is_exit Result.timeout = false

module _ {W : Type 0} (k : Kernel W) where
  -- Rule 1.
  unfoldable pub read_input : StreamCopy W → Option (StreamCopy W)
  unfolding taken
  read_input s =
      Descriptor.read k s.input s.world (ByteStream.remaining_capacity s.outbound)
      >>= λ (d, (w, bytes)).
          some (record s { world = w; input = d; outbound = taken s.outbound d bytes })

  -- Rule 2.
  unfoldable pub write_socket : StreamCopy W → Option (StreamCopy W)
  write_socket s =
      let bytes_to_write : ℕ = min max_copy_length (ByteStream.buffer_size s.outbound) in
      Descriptor.write k s.socket s.world (ByteStream.peek_output s.outbound bytes_to_write ∷ [])
        false
      >>= λ (d, (w, bytes_written)).
          let left : ByteStream = ByteStream.pop_output s.outbound bytes_written in
          let t : StreamCopy W = record s { world = w; socket = d; outbound = left } in
          if ByteStream.eof left
          then (Descriptor.shutdown k d w How.shut_wr >>= λ (e, v).
              some (record t { world = v; socket = e; outbound_shutdown = true }))
          else some t

  -- Rule 3.
  unfoldable pub read_socket : StreamCopy W → Option (StreamCopy W)
  unfolding taken
  read_socket s =
      Descriptor.read k s.socket s.world (ByteStream.remaining_capacity s.inbound)
      >>= λ (d, (w, bytes)).
          some (record s { world = w; socket = d; inbound = taken s.inbound d bytes })

  -- Rule 4.
  unfoldable pub write_output : StreamCopy W → Option (StreamCopy W)
  write_output s =
      let bytes_to_write : ℕ = min max_copy_length (ByteStream.buffer_size s.inbound) in
      Descriptor.write k s.output s.world (ByteStream.peek_output s.inbound bytes_to_write ∷ [])
        false
      >>= λ (d, (w, bytes_written)).
          let left : ByteStream = ByteStream.pop_output s.inbound bytes_written in
          let t : StreamCopy W = record s { world = w; output = d; inbound = left } in
          if ByteStream.eof left
          then (Descriptor.close k d w >>= λ (e, v).
              some (record t { world = v; output = e; inbound_shutdown = true }))
          else some t

  abbrev pub rule_input : Rule (StreamCopy W)
  rule_input = record {
    fd = λ s. s.input;
    direction = Direction.reading;
    callback = read_input;
    interest = λ s. wants_read s.outbound s.inbound;
    cancel = end_outbound;
  }

  abbrev pub rule_to_socket : Rule (StreamCopy W)
  rule_to_socket = record {
    fd = λ s. s.socket;
    direction = Direction.writing;
    callback = write_socket;
    interest = λ s. wants_write s.outbound s.outbound_shutdown;
    cancel = end_outbound;
  }

  abbrev pub rule_from_socket : Rule (StreamCopy W)
  rule_from_socket = record {
    fd = λ s. s.socket;
    direction = Direction.reading;
    callback = read_socket;
    interest = λ s. wants_read s.inbound s.outbound;
    cancel = end_inbound;
  }

  abbrev pub rule_output : Rule (StreamCopy W)
  rule_output = record {
    fd = λ s. s.output;
    direction = Direction.writing;
    callback = write_output;
    interest = λ s. wants_write s.inbound s.inbound_shutdown;
    cancel = end_inbound;
  }

  unfoldable pub rules : List (Rule (StreamCopy W))
  rules = rule_input ∷ rule_to_socket ∷ rule_from_socket ∷ rule_output ∷ []

module _ {W : Type 0} (k : Kernel W)
    (poll : StreamCopy W → List PollFd → StreamCopy W × PollAnswer) where
  -- The loop until completion.
  unfoldable pub loop :
      ℕ → List (Rule (StreamCopy W)) → StreamCopy W → Option (Option (StreamCopy W))
  loop zero rs s = some none
  loop (suc rounds) rs s = wait_next_event poll rs s >>= λ (ret, (left, t)). elim (is_exit ret) [
    | true ↦ some (some t)
    | false ↦ loop rounds left t
  ]

  unfoldable pub bidirectional_stream_copy : ℕ → W → FdWrapper → Option (Option (StreamCopy W))
  unfolding start rules loop
  bidirectional_stream_copy rounds w socket = loop rounds (rules k) (start w socket)
