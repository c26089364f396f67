-- ===== src/Reassembler/Empty.antt =====
-- An empty substring pushed (`push_substring` of libsponge/stream_reassembler.cc).
use csed353_tcp.Prelude.{ℕ, ◌≡◌, refl, Bool, true, false, ◌&&◌, [], if◌then◌else◌, some, ◌==◌}
use csed353_tcp.Reassembler.{StreamReassembler, push_substring}
use csed353_tcp.Reassembler.Deliver.{ended-Inv}
use csed353_tcp.Reassembler.State.{Inv}
use csed353_tcp.ByteStream.{end_input}
use csed353_tcp.Reassembler.Push.{noted, noted-Inv}

-- An empty push stores nothing, and ends the output if the end is announced here.
pub push_substring_empty :
    (r : StreamReassembler) (index : ℕ) (eof : Bool)
    → let q : StreamReassembler = noted r eof in
      push_substring r [] index eof
      ≡ some (
          if q.checkeof && r.firstindex == index
          then record q { output = end_input q.output }
          else q)
unfolding push_substring
push_substring_empty r index eof = refl

-- The bytes are as they were, written and stored.
pub record Unmoved (f : ℕ → ℕ) (n : ℕ) (r r' : StreamReassembler) : Type 0 where
  pub inv : Inv f n r'
  pub same_index : r'.firstindex ≡ r.firstindex
  pub same_list : r'.storelist ≡ r.storelist
  pub same_count : r'.private_unassembled_bytes ≡ r.private_unassembled_bytes
  pub same_content : r'.output.content ≡ r.output.content
  pub same_written : r'.output.alwritten ≡ r.output.alwritten
  pub same_capacity : r'.capacity ≡ r.capacity

-- An empty push never throws, and leaves what is written, stored and counted as it was.
pub push_empty-Unmoved :
    (f : ℕ → ℕ) (n : ℕ) (r : StreamReassembler) (index : ℕ) (eof : Bool)
    → Inv f n r
    → (r' : StreamReassembler) × (push_substring r [] index eof ≡ some r') × Unmoved f n r r'
unfolding end_input
push_empty-Unmoved f n r index eof v =
    let q : StreamReassembler = noted r eof in
    let e : StreamReassembler = record q { output = end_input q.output } in
    let vq = noted-Inv f n r eof v in
    (
      _,
      push_substring_empty r index eof,
      elim (q.checkeof && r.firstindex == index) as (λ b. Unmoved f n r (if b then e else q)) [
        | true ↦ record {
          inv = ended-Inv f n q vq;
          same_index = refl;
          same_list = refl;
          same_count = refl;
          same_content = refl;
          same_written = refl;
          same_capacity = refl;
        }
        | false ↦ record {
          inv = vq;
          same_index = refl;
          same_list = refl;
          same_count = refl;
          same_content = refl;
          same_written = refl;
          same_capacity = refl;
        }
      ],
    )
