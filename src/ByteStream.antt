-- ===== src/ByteStream.antt =====
-- libsponge/byte_stream.hh and byte_stream.cc: the flow-controlled in-memory byte stream. A method
-- that changes the stream returns the new stream, beside its result where it has one.
pub mod Laws
pub mod History
use csed353_tcp.Prelude.{
  ℕ, Bool, true, false, ◌&&◌, [], ◌++◌, leb, ◌==◌, if◌then◌else◌, Bytes, length, take, drop, add64,
  sub64,
}

pub record ByteStream : Type 0 where
  pub error_flag : Bool
  pub end : Bool
  pub content : Bytes
  pub alread : ℕ
  pub alwritten : ℕ
  pub max : ℕ

-- The constructor.
unfoldable pub init : ℕ → ByteStream
init capacity = record {
  error_flag = false;
  end = false;
  content = [];
  alread = 0;
  alwritten = 0;
  max = capacity;
}

unfoldable pub buffer_size : ByteStream → ℕ
buffer_size s = length s.content

unfoldable pub buffer_empty : ByteStream → Bool
buffer_empty s = length s.content == 0

unfoldable pub remaining_capacity : ByteStream → ℕ
remaining_capacity s = sub64 s.max (length s.content)

unfoldable pub write : ByteStream → Bytes → ByteStream × ℕ
unfolding remaining_capacity
write s bytes =
    let size : ℕ =
      if leb (length bytes) (remaining_capacity s) then length bytes else remaining_capacity s in
    (record s { content = s.content ++ take size bytes; alwritten = add64 s.alwritten size }, size)

unfoldable pub peek_output : ByteStream → ℕ → Bytes
unfolding buffer_size
peek_output s len =
    let size : ℕ = if leb len (buffer_size s) then len else buffer_size s in take size s.content

unfoldable pub pop_output : ByteStream → ℕ → ByteStream
unfolding buffer_size
pop_output s len =
    let size : ℕ = if leb len (buffer_size s) then len else buffer_size s in
    record s { content = drop size s.content; alread = add64 s.alread size }

unfoldable pub read : ByteStream → ℕ → ByteStream × Bytes
unfolding buffer_size peek_output pop_output
read s len =
    let size : ℕ = if leb len (buffer_size s) then len else buffer_size s in
    let buffercopy : Bytes = peek_output s size in (pop_output s size, buffercopy)

unfoldable pub end_input : ByteStream → ByteStream
end_input s = record s { end = true }

unfoldable pub set_error : ByteStream → ByteStream
set_error s = record s { error_flag = true }

unfoldable pub input_ended : ByteStream → Bool
input_ended s = s.end

unfoldable pub error : ByteStream → Bool
error s = s.error_flag

unfoldable pub eof : ByteStream → Bool
unfolding buffer_empty
eof s = s.end && buffer_empty s

unfoldable pub bytes_written : ByteStream → ℕ
bytes_written s = s.alwritten

unfoldable pub bytes_read : ByteStream → ℕ
bytes_read s = s.alread
