-- ===== src/Descriptor.antt =====
-- libsponge/util/file_descriptor.hh and file_descriptor.cc, and `shutdown` of socket.cc: a descriptor that
-- is shared knows whether it is at the end or closed, and counts reads and writes. Duplicates share it,
-- so there is one value of it.
--
-- The system calls are a record of functions of the world's state, given as a parameter. `none` is an
-- exception: of a call that fails, or of one that returns what it should not. The flags of `fcntl`, for
-- `set_blocking`, are left out, and so are the destructors.
pub mod Documented
pub mod Counts
pub mod Reads
pub mod Streams
pub mod Writes
use csed353_tcp.Prelude.{
  ℕ, zero, suc, ◌+◌, ◌*◌, ◌%◌, min, Bool, true, false, not, ◌&&◌, Option, none, some, List, [], ◌∷◌,
  ltb, ◌==◌, if◌then◌else◌, ◌>>=◌, Bytes, length, add64, u32_mod,
}
use csed353_tcp.Buffer.{BufferViewList, view_size_from, view_remove_prefix}

-- How a socket is shut down.
pub data How : Type 0 where
  shut_rd : How
  shut_wr : How
  shut_rdwr : How

-- The system calls that the library makes, on a descriptor's number; `none` is a failure.
pub record Kernel (W : Type 0) : Type 0 where
  pub read : W → ℕ → ℕ → Option (W × Bytes)
  pub writev : W → ℕ → BufferViewList → Option (W × ℕ)
  pub shutdown : W → ℕ → How → Option W
  pub close : W → ℕ → Option W
  pub timestamp_ms : W → W × ℕ

-- FileDescriptor::FDWrapper.
pub record FdWrapper : Type 0 where
  pub fd : ℕ
  pub eof : Bool
  pub closed : Bool
  pub read_count : ℕ
  pub write_count : ℕ

-- The constructor, for a number that is not negative.
unfoldable pub open_fd : ℕ → FdWrapper
open_fd fd = record { fd = fd; eof = false; closed = false; read_count = 0; write_count = 0 }

unfoldable pub register_read : FdWrapper → FdWrapper
register_read d = record d { read_count = (d.read_count + 1) % u32_mod }

unfoldable pub register_write : FdWrapper → FdWrapper
register_write d = record d { write_count = (d.write_count + 1) % u32_mod }

-- The largest number of bytes that one call reads.
abbrev pub buffer_size : ℕ
buffer_size = 1048576

module _ {W : Type 0} (k : Kernel W) where
  unfoldable pub read : FdWrapper → W → ℕ → Option (FdWrapper × (W × Bytes))
  unfolding register_read
  read d w limit =
      let size_to_read : ℕ = min buffer_size limit in
      k.read w d.fd size_to_read >>= λ (w', str).
      if ltb size_to_read (length str)
      then none
      else some (
        register_read (record d { eof = if ltb 0 limit && (length str == 0) then true else d.eof }),
        (w', str),
      )

  -- The loop of `write`. A round that does not end it writes at least one byte.
  unfoldable pub write_loop :
      ℕ → FdWrapper → W → BufferViewList → Bool → ℕ → Option (FdWrapper × (W × ℕ))
  write_loop zero d w buffer write_all total = none
  write_loop (suc rounds) d w buffer write_all total =
      k.writev w d.fd buffer >>= λ (w', bytes_written).
      if bytes_written == 0 && not (view_size_from buffer 0 == 0)
      then none
      else if ltb (view_size_from buffer 0) bytes_written
      then none
      else (view_remove_prefix buffer bytes_written >>= λ left.
          let total' : ℕ = add64 total bytes_written in
          elim (write_all && not (view_size_from left 0 == 0)) [
            | true ↦ write_loop rounds (register_write d) w' left write_all total'
            | false ↦ some (register_write d, (w', total'))
          ])

  unfoldable pub write : FdWrapper → W → BufferViewList → Bool → Option (FdWrapper × (W × ℕ))
  unfolding write_loop
  write d w buffer write_all = write_loop (suc (view_size_from buffer 0)) d w buffer write_all 0

  unfoldable pub close : FdWrapper → W → Option (FdWrapper × W)
  close d w = k.close w d.fd >>= λ w'. some (record d { eof = true; closed = true }, w')

  -- Socket::shutdown.
  unfoldable pub shutdown : FdWrapper → W → How → Option (FdWrapper × W)
  unfolding register_read register_write
  shutdown d w how = k.shutdown w d.fd how >>= λ w'. some (
    elim how [
      | How.shut_rd ↦ register_read d
      | How.shut_wr ↦ register_write d
      | How.shut_rdwr ↦ register_write (register_read d)
    ],
    w',
  )
