-- ===== src/Chunks.antt =====
-- crates/omp-core/src/chunks.rs: the body of a `chunks` object, one line `<hash> <length>` for each
-- chunk, in file order. A length is below 2^64 where it stands for the source's `u64`.
pub mod RoundTrip
use open_memory_protocol.Base.{
  ℕ, ◌+◌, ◌^◌, List, [], ◌∷◌, ◌++◌, not, Result, ok, err, ◌>>=◌, ◌>>◌, reject_if, ok_or, map_err,
}
use open_memory_protocol.Base.Bytes.{Bytes, split, split_once}
use open_memory_protocol.Base.Utf8.{is_utf8}
use open_memory_protocol.Base.Decimal.{format_uint, parse_uint}
use open_memory_protocol.Error.{OmpError}
use open_memory_protocol.Hash.{Hash, hex, from_str}

pub record ChunkEntry : Type 0 where
  pub hash : Hash
  pub length : ℕ

pub record ChunksBody : Type 0 where
  pub entries : List ChunkEntry

-- The loop of `serialize`.
unfoldable pub serialize_entries : List ChunkEntry → Bytes
serialize_entries [] = []
serialize_entries (e ∷ es) =
    hex e.hash ++ b' ' ∷ format_uint e.length ++ b'\n' ∷ serialize_entries es

unfoldable pub serialize : ChunksBody → Bytes
serialize body = serialize_entries body.entries

-- One round of the loop of `parse` on a line that is not empty.
unfoldable pub parse_line : Bytes → Result OmpError ChunkEntry
parse_line line = do
  (hash_part, len_part) ← ok_or (split_once b' ' line) OmpError.corrupt
  hash ← map_err (λ _. OmpError.corrupt) (from_str hash_part)
  length ← ok_or (parse_uint len_part) OmpError.corrupt
  ok (record { hash = hash; length = length })

-- The loop of `parse` over the lines. An empty line is passed over wherever it stands.
unfoldable pub parse_lines : List Bytes → Result OmpError (List ChunkEntry)
parse_lines [] = ok []
parse_lines ([] ∷ lines) = parse_lines lines
parse_lines ((c ∷ line) ∷ lines) = do
  entry ← parse_line (c ∷ line)
  entries ← parse_lines lines
  ok (entry ∷ entries)

unfoldable pub parse : Bytes → Result OmpError ChunksBody
parse bytes = do
  reject_if (not (is_utf8 bytes)) OmpError.corrupt
  entries ← parse_lines (split b'\n' bytes)
  ok (record { entries = entries })

-- The sum in exact numbers. The source sums in `u64`, so the two agree while the sum is below 2^64.
unfoldable pub sum_lengths : List ChunkEntry → ℕ
sum_lengths [] = 0
sum_lengths (e ∷ es) = e.length + sum_lengths es

unfoldable pub total_length : ChunksBody → ℕ
total_length body = sum_lengths body.entries
