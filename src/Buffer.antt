-- ===== src/Buffer.antt =====
-- libsponge/util/buffer.hh and buffer.cc: strings that are shared and lose bytes from the front. The
-- storage that several buffers share is never written, so each buffer has its own value of it.
-- `none` is an exception. Memory is not modelled, nor is the conversion to `iovec`s.
pub mod Views
use csed353_tcp.Prelude.{
  ℕ, ◌-◌, Bool, Option, none, some, List, [], ◌∷◌, ◌++◌, map, ltb, ◌==◌, if◌then◌else◌, ◌>>=◌,
  Bytes, length, get_elem?, drop, add64,
}

-- class Buffer.
pub record Buffer : Type 0 where
  pub storage : Option Bytes
  pub starting_offset : ℕ

-- The constructors.
abbrev pub nothing : Buffer
nothing = record { storage = none; starting_offset = 0 }

abbrev pub of_string : Bytes → Buffer
of_string bytes = record { storage = some bytes; starting_offset = 0 }

unfoldable pub str : Buffer → Bytes
str b = elim b.storage [ none ↦ [] | some bytes ↦ drop b.starting_offset bytes ]

unfoldable pub size : Buffer → ℕ
unfolding str
size b = length (str b)

unfoldable pub at : Buffer → ℕ → Option ℕ
unfolding str
at b n = get_elem? (str b) n

unfoldable pub remove_prefix : Buffer → ℕ → Option Buffer
unfolding str
remove_prefix b n =
    let starting_offset : ℕ = add64 b.starting_offset n in
    let whole : Bool = elim b.storage [
      | none ↦ Bool.false
      | some bytes ↦ starting_offset == length bytes
    ] in
    if ltb (length (str b)) n
    then none
    else some
        (record { storage = if whole then none else b.storage; starting_offset = starting_offset })

-- class BufferList: its buffers.
abbrev pub BufferList : Type 0
BufferList = List Buffer

unfoldable pub append : BufferList → BufferList → BufferList
append bs other = bs ++ other

-- The conversion to one buffer.
unfoldable pub to_buffer : BufferList → Option Buffer
to_buffer [] = some nothing
to_buffer (b ∷ []) = some b
to_buffer (b ∷ c ∷ bs) = none

unfoldable pub concatenate : BufferList → Bytes
concatenate [] = []
concatenate (b ∷ bs) = str b ++ concatenate bs

-- The loop of `size`, from what it has counted.
unfoldable pub size_from : BufferList → ℕ → ℕ
size_from [] ret = ret
size_from (b ∷ bs) ret = size_from bs (add64 ret (size b))

unfoldable pub list_size : BufferList → ℕ
unfolding size_from
list_size bs = size_from bs 0

unfoldable pub list_remove_prefix : BufferList → ℕ → Option BufferList
list_remove_prefix [] n = if n == 0 then some [] else none
list_remove_prefix (b ∷ bs) n =
    let rest = list_remove_prefix bs (n - size b) in
    if n == 0
    then some (b ∷ bs)
    else if ltb n (size b)
    then (remove_prefix b n >>= λ c. some (c ∷ bs))
    else rest

-- class BufferViewList: its views.
abbrev pub BufferViewList : Type 0
BufferViewList = List Bytes

unfoldable pub views : BufferList → BufferViewList
views bs = map str bs

unfoldable pub view_remove_prefix : BufferViewList → ℕ → Option BufferViewList
view_remove_prefix [] n = if n == 0 then some [] else none
view_remove_prefix (v ∷ vs) n =
    let rest = view_remove_prefix vs (n - length v) in
    if n == 0 then some (v ∷ vs) else if ltb n (length v) then some (drop n v ∷ vs) else rest

unfoldable pub view_size_from : BufferViewList → ℕ → ℕ
view_size_from [] ret = ret
view_size_from (v ∷ vs) ret = view_size_from vs (add64 ret (length v))
