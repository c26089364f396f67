-- ===== src/StreamCopy/Steps.antt =====
-- What single reads and writes of apps/bidirectional_stream_copy.cc do, over system calls that keep a
-- record of what they receive and send.
use csed353_tcp.Prelude.{ℕ, ◌≡◌, ◌≢◌, ap, some, ◌++◌, Bytes, if_lem}
use csed353_tcp.Buffer.{BufferViewList}
use csed353_tcp.ByteStream
use csed353_tcp.ByteStream.{ByteStream}
use csed353_tcp.Descriptor
use csed353_tcp.Descriptor.{Kernel, FdWrapper, How, register_read, register_write, open_fd}
use csed353_tcp.Descriptor.Reads.{read_once}
use csed353_tcp.Descriptor.Streams.{offer, offer-conserved, offer_call, read-write_fits}
use csed353_tcp.Descriptor.Documented.{IsStream}
use csed353_tcp.StreamCopy.{taken}

-- A record of what has been received and sent on each descriptor: a call changes what it says of its own
-- descriptor, and of no other.
pub record IsRecord {W : Type 0} (k : Kernel W) (sent received : W → ℕ → Bytes) : Type 0 where
  pub stream : IsStream k sent
  pub read_receives :
      (w : W) (fd n : ℕ) (w' : W) (bytes : Bytes)
      → k.read w fd n ≡ some (w', bytes)
      → (received w' fd ≡ received w fd ++ bytes)
        × ((x : ℕ) → x ≢ fd → received w' x ≡ received w x)
        × ((x : ℕ) → sent w' x ≡ sent w x)
  pub writev_others :
      (w : W) (fd : ℕ) (vs : BufferViewList) (w' : W) (n : ℕ)
      → k.writev w fd vs ≡ some (w', n)
      → ((x : ℕ) → x ≢ fd → sent w' x ≡ sent w x) × ((x : ℕ) → received w' x ≡ received w x)
  pub shutdown_others :
      (w : W) (fd : ℕ) (how : How) (w' : W)
      → k.shutdown w fd how ≡ some w'
      → (x : ℕ) → (sent w' x ≡ sent w x) × (received w' x ≡ received w x)
  pub close_others :
      (w : W) (fd : ℕ) (w' : W)
      → k.close w fd ≡ some w'
      → (x : ℕ) → (sent w' x ≡ sent w x) × (received w' x ≡ received w x)

module _ {W : Type 0} {k : Kernel W} {sent received : W → ℕ → Bytes}
    (laws : IsRecord k sent received) where
  -- A read with the room of a stream as its limit.
  pub read_step :
      (d : FdWrapper) (w : W) (stream : ByteStream) (d' : FdWrapper) (w' : W) (bytes : Bytes)
      → Descriptor.read k d w (ByteStream.remaining_capacity stream) ≡ some (d', (w', bytes))
      → (received w' d.fd ≡ received w d.fd ++ bytes)
        × ((x : ℕ) → x ≢ d.fd → received w' x ≡ received w x)
        × ((x : ℕ) → sent w' x ≡ sent w x)
        × ((taken stream d' bytes).content ≡ stream.content ++ bytes)
        × (d'.fd ≡ d.fd)
  unfolding taken register_read ByteStream.end_input
  read_step d w stream d' w' bytes h =
      let (e, _, reg) = read_once k d w (ByteStream.remaining_capacity stream) d' w' bytes h in
      let (now, others, out) = laws.read_receives w d.fd _ w' bytes e in
      let whole = read-write_fits k d w stream d' w' bytes h in
      (
        now,
        others,
        out,
        if_lem (λ (x : ByteStream). x.content ≡ stream.content ++ bytes) d'.eof
            {x = ByteStream.end_input (ByteStream.write stream bytes).0}
            {y = (ByteStream.write stream bytes).0} whole whole,
        ap (λ (x : FdWrapper). x.fd) reg,
      )

  pub write_step :
      (d : FdWrapper) (w : W) (stream : ByteStream) (d' : FdWrapper) (w' : W) (n : ℕ)
      → offer k d w stream ≡ some (d', (w', n))
      → (sent w' d.fd ++ (ByteStream.pop_output stream n).content ≡ sent w d.fd ++ stream.content)
        × ((x : ℕ) → x ≢ d.fd → sent w' x ≡ sent w x)
        × ((x : ℕ) → received w' x ≡ received w x)
        × (d'.fd ≡ d.fd)
  unfolding register_write
  write_step d w stream d' w' n h =
      let (now, _, reg) = offer-conserved k sent laws.stream d w stream d' w' n h in
      let (others, inn) = laws.writev_others w d.fd _ w' n (offer_call k d w stream d' w' n h) in
      (now, others, inn, ap (λ (x : FdWrapper). x.fd) reg)
