-- ===== src/Reassembler.antt =====
-- libsponge/stream_reassembler.hh and stream_reassembler.cc: substrings that arrive out of order and
-- overlapping become an in-order byte stream.
-- `none` is the `std::out_of_range` that `std::string::substr` throws past the end of a string.
-- A step of the loop that erases the first element makes the iterator step back over `begin()`; as in
-- libstdc++'s circular list, the next round is then at the new first element.
pub mod Slice
pub mod Chunks
pub mod Merge
pub mod Trim
pub mod State
pub mod Deliver
pub mod Push
pub mod Empty
pub mod Eof
pub mod History
pub mod Faults
use csed353_tcp.Prelude.{
  ℕ, ◌+◌, Bool, true, false, ◌&&◌, Option, none, some, List, [], ◌∷◌, ◌++◌, ltb, leb, ◌==◌,
  if◌then◌else◌, ◌>>=◌, Bytes, length, take, drop, add64, sub64,
}
use csed353_tcp.ByteStream
use csed353_tcp.ByteStream.{ByteStream}

-- class inforsubstr.
pub record Inforsubstr : Type 0 where
  pub first : ℕ
  pub last : ℕ
  pub bytes : Bytes

-- class StreamReassembler.
pub record StreamReassembler : Type 0 where
  pub private_unassembled_bytes : ℕ
  pub checkeof : Bool
  pub storelist : List Inforsubstr
  pub firstindex : ℕ
  pub output : ByteStream
  pub capacity : ℕ

unfoldable pub init : ℕ → StreamReassembler
init capacity = record {
  private_unassembled_bytes = 0;
  checkeof = false;
  storelist = [];
  firstindex = 0;
  output = ByteStream.init capacity;
  capacity = capacity;
}

-- `s.substr(pos)`.
abbrev pub substr_from : Bytes → ℕ → Option Bytes
substr_from s pos = if ltb (length s) pos then none else some (drop pos s)

-- The stored list and the count of unassembled bytes, which the stages of a push hand on.
pub record Stored : Type 0 where
  pub chunks : List Inforsubstr
  pub count : ℕ

-- The union of a stored substring and the new one, by how they overlap.
unfoldable pub absorb : Inforsubstr → Inforsubstr → Option Inforsubstr
absorb temp sub =
    if leb temp.first sub.first && leb sub.last temp.last
    then some temp
    else if leb temp.first sub.first && leb temp.last sub.last
    then (substr_from sub.bytes (sub64 (add64 temp.last 1) sub.first) >>= λ rest.
        some (record { first = temp.first; last = sub.last; bytes = temp.bytes ++ rest }))
    else if leb sub.first temp.first && leb sub.last temp.last
    then (substr_from temp.bytes (sub64 (add64 sub.last 1) temp.first) >>= λ rest.
        some (record { first = sub.first; last = temp.last; bytes = sub.bytes ++ rest }))
    else some sub

-- The loop over `storelist`, with the insertion at the end that follows it.
unfoldable pub merge_loop : List Inforsubstr → Inforsubstr → ℕ → Option Stored
merge_loop [] sub count =
    some (record { chunks = sub ∷ []; count = add64 count (length sub.bytes) })
merge_loop (temp ∷ rest) sub count = elim (ltb (add64 temp.first (length temp.bytes)) sub.first) [
  | true ↦ merge_loop rest sub count >>= λ s. some (record s { chunks = temp ∷ s.chunks })
  | false ↦ elim (ltb (add64 sub.last 1) temp.first) [
    | true ↦ some (record { chunks = sub ∷ temp ∷ rest; count = add64 count (length sub.bytes) })
    | false ↦ absorb temp sub >>= λ sub'. merge_loop rest sub' (sub64 count (length temp.bytes))
  ]
]

-- The front is cut where it was already written.
unfoldable pub trim_front : ℕ → Stored → Option Stored
trim_front firstindex s = elim s.chunks [
  | [] ↦ some s
  | front ∷ rest ↦
      if ltb front.first firstindex
      then (substr_from front.bytes (sub64 firstindex front.first) >>= λ bytes. some (record {
        chunks = record front { bytes = bytes; first = firstindex } ∷ rest;
        count = add64 (sub64 s.count (length front.bytes)) (length bytes);
      }))
      else some s
]

-- The back is cut at the end of the window. The first argument is `firstindex + _capacity`.
unfoldable pub trim_chunk : ℕ → Inforsubstr → Inforsubstr
trim_chunk limit back = record back {
  bytes = take (sub64 limit back.first) back.bytes;
  last = sub64 limit 1;
}

unfoldable pub trim_back : ℕ → List Inforsubstr → ℕ → Stored
unfolding trim_chunk
trim_back limit [] count = record { chunks = []; count = count }
trim_back limit (back ∷ []) count =
    if leb limit (add64 back.last 1)
    then record {
      chunks = trim_chunk limit back ∷ [];
      count = add64 (sub64 count (length back.bytes)) (length (trim_chunk limit back).bytes);
    }
    else record { chunks = back ∷ []; count = count }
trim_back limit (front ∷ next ∷ rest) count =
    let s : Stored = trim_back limit (next ∷ rest) count in record s { chunks = front ∷ s.chunks }

-- `empty()`.
unfoldable pub empty : List Inforsubstr → ℕ → Bool
empty storelist count = length storelist == 0 && count == 0

-- The front goes to the output: the part for which there is room, or all of it.
unfoldable pub send_part :
    StreamReassembler → Inforsubstr → List Inforsubstr → ℕ → StreamReassembler
send_part r front rest rc = record r {
  storelist = record front { first = add64 front.first rc; bytes = drop rc front.bytes } ∷ rest;
  firstindex = add64 front.first rc;
  private_unassembled_bytes = sub64 r.private_unassembled_bytes (length (take rc front.bytes));
  output = (ByteStream.write r.output (take rc front.bytes)).0;
}

unfoldable pub send_whole : StreamReassembler → Inforsubstr → List Inforsubstr → StreamReassembler
send_whole r front rest = record r {
  storelist = rest;
  firstindex = add64 front.last 1;
  private_unassembled_bytes = sub64 r.private_unassembled_bytes (length front.bytes);
  output = (ByteStream.write r.output front.bytes).0;
}

-- The input has ended once nothing is stored and the end was announced.
unfoldable pub finish : StreamReassembler → StreamReassembler
unfolding empty
finish r =
    if empty r.storelist r.private_unassembled_bytes && r.checkeof
    then record r { output = ByteStream.end_input r.output }
    else r

unfoldable pub deliver_front :
    StreamReassembler → Inforsubstr → List Inforsubstr → StreamReassembler
unfolding send_part send_whole finish
deliver_front r front rest =
    let rc : ℕ = ByteStream.remaining_capacity r.output in
    if front.first == r.firstindex
    then finish
        (if ltb rc (length front.bytes) then send_part r front rest rc else send_whole r front rest)
    else r

unfoldable pub deliver : StreamReassembler → StreamReassembler
unfolding deliver_front
deliver r = elim r.storelist [ [] ↦ r | front ∷ rest ↦ deliver_front r front rest ]

-- What follows the early returns of `push_substring`.
unfoldable pub store : StreamReassembler → Inforsubstr → Option StreamReassembler
unfolding merge_loop trim_front trim_back deliver
store r sub = do
  merged ← merge_loop r.storelist sub r.private_unassembled_bytes
  s ← trim_front r.firstindex merged
  let t = trim_back (add64 r.firstindex r.capacity) s.chunks s.count
  some (deliver (record r { storelist = t.chunks; private_unassembled_bytes = t.count }))

unfoldable pub push_substring : StreamReassembler → Bytes → ℕ → Bool → Option StreamReassembler
unfolding store
push_substring r₀ bytes index eof =
    let r : StreamReassembler = record r₀ { checkeof = if eof then eof else r₀.checkeof } in
    let sub_end : ℕ = sub64 (add64 index (length bytes)) 1 in
    let stored : Option StreamReassembler =
      store r (record { first = index; last = sub_end; bytes = bytes }) in
    if length bytes == 0
    then some (
        if r.checkeof && r.firstindex == index
        then record r { output = ByteStream.end_input r.output }
        else r)
    else if ltb sub_end r.firstindex
    then some r
    else stored

unfoldable pub unassembled_bytes : StreamReassembler → ℕ
unassembled_bytes r = r.private_unassembled_bytes
