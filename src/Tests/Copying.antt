-- ===== src/Tests/Copying.antt =====
-- Descriptors and apps/bidirectional_stream_copy.cc at concrete inputs.
use csed353_tcp.Prelude.{
  ◌≡◌, refl, true, false, Option, none, some, List, [], ◌∷◌, ◌++◌, map, arith, ◌==◌, if◌then◌else◌,
}
use csed353_tcp.ByteStream
use csed353_tcp.Buffer.{view_size_from, view_remove_prefix}
use csed353_tcp.Descriptor
use csed353_tcp.Descriptor.{FdWrapper, open_fd, write}
use csed353_tcp.Descriptor.Writes.{write_all_lem}
use csed353_tcp.EventLoop.{PollFd, PollAnswer, Revents, wait_next_event}
use csed353_tcp.StreamCopy.{
  StreamCopy, bidirectional_stream_copy, start, read_input, write_socket, read_socket, write_output,
  wants_read, wants_write, end_outbound, end_inbound,
}
use csed353_tcp.StreamCopy.Copied.{IsPoll, copy-faithful}
use csed353_tcp.Tests.Machine.{
  Machine, machine, machine-IsStream, machine-IsBlocking, machine-IsRecord,
}

abbrev socket : FdWrapper
socket = open_fd 5

-- Five bytes stand on the standard input, and two come in on the socket.
abbrev world : Machine
world = record {
  sent = λ x. [];
  received = λ x. [];
  supply = λ x. if x == 0 then 1 ∷ 2 ∷ 3 ∷ 4 ∷ 5 ∷ [] else if x == 5 then 8 ∷ 9 ∷ [] else [];
  incoming = [];
  wire = [];
  clock = 0;
}

write_all_lem_example :
    (d : FdWrapper) × (w : Machine) × (write machine socket world
        ((1 ∷ 2 ∷ []) ∷ (3 ∷ []) ∷ [])
        true
      ≡ some (d, (w, 3)))
    × (w.sent 5 ≡ 1 ∷ 2 ∷ 3 ∷ [])
unfolding open_fd
write_all_lem_example =
    write_all_lem machine socket world ((1 ∷ 2 ∷ []) ∷ (3 ∷ []) ∷ []) (omega arith) machine-IsStream
      (machine-IsBlocking 5)

-- Every descriptor is ready for both.
abbrev both : Revents
both = record { readable = true; writable = true; hangup = false; failure = false }

abbrev poll : StreamCopy Machine → List PollFd → StreamCopy Machine × PollAnswer
poll s entries = (s, PollAnswer.ready (map (λ (x : PollFd). both) entries))

poll-IsPoll : IsPoll (λ w. w.sent) (λ w. w.received) poll
poll-IsPoll = record { poll_keeps = λ s entries. (s.world, refl, λ x. (refl, refl)) }

abbrev ended : Option (Option (StreamCopy Machine)) → StreamCopy Machine
ended none = start world (open_fd 5)
ended (some none) = start world (open_fd 5)
ended (some (some t)) = t

abbrev final : StreamCopy Machine
final = ended (bidirectional_stream_copy machine poll 20 world socket)

terminates : bidirectional_stream_copy machine poll 20 world socket ≡ some (some final)
unfolding bidirectional_stream_copy wait_next_event read_input write_socket read_socket write_output
    wants_read wants_write end_outbound end_inbound open_fd Descriptor.read Descriptor.write
    Descriptor.shutdown Descriptor.close view_size_from view_remove_prefix ByteStream.write
    ByteStream.peek_output ByteStream.pop_output ByteStream.buffer_size ByteStream.eof
    ByteStream.buffer_empty ByteStream.remaining_capacity ByteStream.end_input ByteStream.error
    ByteStream.init
terminates = refl

copy-faithful_example :
    (final.world.received 0 ≡ final.world.sent 5 ++ final.outbound.content)
    × (final.world.received 5 ≡ final.world.sent 1 ++ final.inbound.content)
unfolding open_fd
copy-faithful_example =
    copy-faithful machine-IsRecord 5 (λ e. ground (arith, e)) (λ e. ground (arith, e)) poll
      poll-IsPoll 20 world socket final refl refl refl terminates
