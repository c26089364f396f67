-- ===== src/StreamCopy/Copied.antt =====
-- What apps/bidirectional_stream_copy.cc has copied, after any number of rounds of its loop.
use csed353_tcp.Prelude.{
  ℕ, zero, suc, ◌≡◌, ◌≢◌, refl, sym, ◌∙◌, subst, true, false, Option, none, some, List, ◌++◌,
  append-nil, Bytes, Bool-cases, inl, inr, bind-eq-some, some-injective,
}
use csed353_tcp.ByteStream
use csed353_tcp.Descriptor.{Kernel, FdWrapper, open_fd}
use csed353_tcp.EventLoop.{PollFd, PollAnswer, Result, Rule, wait_next_event}
use csed353_tcp.EventLoop.Rounds.{Keeps, All, wait_next_event-kept}
use csed353_tcp.StreamCopy.{
  StreamCopy, start, end_outbound, end_inbound, rules, is_exit, loop, bidirectional_stream_copy,
}
use csed353_tcp.StreamCopy.Steps.{IsRecord}
use csed353_tcp.StreamCopy.Faithful.{
  IsFaithful, quiet, read_input-kept, write_socket-kept, read_socket-kept, write_output-kept,
}

-- What is documented of `poll`: it reads and writes nothing. The local variables are not its.
pub record IsPoll {W : Type 0} (sent received : W → ℕ → Bytes)
    (poll : StreamCopy W → List PollFd → StreamCopy W × PollAnswer) : Type 0 where
  pub poll_keeps :
      (s : StreamCopy W) (entries : List PollFd)
      → (v : W) × ((poll s entries).0 ≡ record s { world = v })
        × ((x : ℕ) → (sent v x ≡ sent s.world x) × (received v x ≡ received s.world x))

module _ {W : Type 0} {k : Kernel W} {sent received : W → ℕ → Bytes}
    (laws : IsRecord k sent received) (sock : ℕ) (not_in : sock ≢ 0) (not_out : sock ≢ 1) where
  abbrev Good : StreamCopy W → Type 0
  Good = IsFaithful laws sock not_in not_out

  end_outbound-kept : (s t : StreamCopy W) → Good s → end_outbound s ≡ some t → Good t
  unfolding end_outbound ByteStream.end_input
  end_outbound-kept s t f h = subst Good (some-injective h) (record {
    input_is = f.input_is;
    output_is = f.output_is;
    socket_is = f.socket_is;
    out = f.out;
    back = f.back;
  })

  end_inbound-kept : (s t : StreamCopy W) → Good s → end_inbound s ≡ some t → Good t
  unfolding end_inbound ByteStream.end_input
  end_inbound-kept s t f h = subst Good (some-injective h) (record {
    input_is = f.input_is;
    output_is = f.output_is;
    socket_is = f.socket_is;
    out = f.out;
    back = f.back;
  })

  rules-kept : All (Keeps Good) (rules k)
  unfolding rules
  rules-kept = (
    record {
      callback_keeps = read_input-kept laws sock not_in not_out;
      cancel_keeps = end_outbound-kept;
    },
    (
      record {
        callback_keeps = write_socket-kept laws sock not_in not_out;
        cancel_keeps = end_outbound-kept;
      },
      (
        record {
          callback_keeps = read_socket-kept laws sock not_in not_out;
          cancel_keeps = end_inbound-kept;
        },
        (
          record {
            callback_keeps = write_output-kept laws sock not_in not_out;
            cancel_keeps = end_inbound-kept;
          },
          tt,
        ),
      ),
    ),
  )

  module _ (poll : StreamCopy W → List PollFd → StreamCopy W × PollAnswer)
      (polled : IsPoll sent received poll) where
    poll-kept : (s : StreamCopy W) (entries : List PollFd) → Good s → Good (poll s entries).0
    poll-kept s entries f =
        let (v, e, same) = polled.poll_keeps s entries in
        subst Good (sym e) (quiet laws sock not_in not_out s v same f)

    loop-kept :
        (rounds : ℕ) (rs : List (Rule (StreamCopy W))) (s t : StreamCopy W)
        → All (Keeps Good) rs
        → Good s
        → loop k poll rounds rs s ≡ some (some t)
        → Good t
    unfolding loop
    loop-kept zero rs s t ks f h = absurd (let bad : none ≡ some t = some-injective h in cc)
    loop-kept (suc rounds) rs s t ks f h =
        let go : Result × (List (Rule (StreamCopy W)) × StreamCopy W)
            → Option (Option (StreamCopy W)) =
          λ x. elim (is_exit x.0) [
            | true ↦ some (some x.1.1)
            | false ↦ loop k poll rounds x.1.0 x.1.1
          ] in
        let ((ret, (left, u)), e, r) = bind-eq-some (wait_next_event poll rs s) go (some t) h in
        let (g, kept) = wait_next_event-kept Good poll poll-kept rs left s u ret ks f e in
        elim (Bool-cases (is_exit ret)) [
          | inl over ↦
              let q : some (some u) ≡ some (some t) = sym (rw over refl) ∙ r in
              subst Good (some-injective (some-injective q)) g
          | inr more ↦ loop-kept rounds left u t kept g (sym (rw more refl) ∙ r)
        ]

    -- Over system calls and a `poll` that keep a record of what they receive and send, on a
    -- socket whose number is neither 0 nor 1: if at first what has been received on the standard
    -- input is what has been sent on the socket, and what has been received on the socket is what
    -- has been sent on the standard output, as where both are nothing, then where the copy ends,
    -- what has come in on the standard input is what has gone out on the socket, followed by what
    -- the outbound stream holds; and what has come in on the socket is what has gone out on the
    -- standard output, followed by what the inbound stream holds. Nothing is lost, doubled or
    -- reordered.
    pub copy-faithful :
        (rounds : ℕ) (w : W) (socket : FdWrapper) (t : StreamCopy W)
        → socket.fd ≡ sock
        → received w 0 ≡ sent w sock
        → received w sock ≡ sent w 1
        → bidirectional_stream_copy k poll rounds w socket ≡ some (some t)
        → (received t.world 0 ≡ sent t.world sock ++ t.outbound.content)
          × (received t.world sock ≡ sent t.world 1 ++ t.inbound.content)
    unfolding bidirectional_stream_copy start open_fd ByteStream.init
    copy-faithful rounds w socket t is out back h =
        let first : Good (start w socket) = record {
          input_is = refl;
          output_is = refl;
          socket_is = is;
          out = out ∙ sym (append-nil (sent w sock));
          back = back ∙ sym (append-nil (sent w 1));
        } in
        let f = loop-kept rounds (rules k) (start w socket) t rules-kept first h in (f.out, f.back)
