-- ===== src/Uploads.antt =====
-- crates/omp-core/src/uploads.rs: resumable upload sessions. The uploads folder is a map from session
-- ids to sessions, a session is its state and its chunk files, each under its offset, and the file
-- system does not fail. The session's new id and the time are arguments.
pub mod Bounds
pub mod Assembly
pub mod Sorting
use open_memory_protocol.Base.{
  ℕ, ◌+◌, ◌^◌, List, [], ◌∷◌, ◌++◌, Bool, ltb, leb, ◌==◌, ◌||◌, if◌then◌else◌, Option, none, some,
  Result, ok, err, ◌>>=◌, ◌>>◌, reject_if, ok_or, length,
}
use open_memory_protocol.Base.Bytes.{Bytes}
use open_memory_protocol.Base.SortedMap.{SortedMap, get, insert, remove}
use open_memory_protocol.Error.{OmpError}

pub record UploadHandle : Type 0 where
  pub upload_id : Bytes
  pub chunk_size_bytes : ℕ

pub record SessionState : Type 0 where
  pub id : Bytes
  pub declared_size : ℕ
  pub path : Option Bytes
  pub created_at : Bytes
  pub chunk_size_bytes : ℕ

-- The files `chunk.<offset>` of a session, in no order.
abbrev pub ChunkFiles : Type 0
ChunkFiles = List (ℕ × Bytes)

pub record Session : Type 0 where
  pub state : SessionState
  pub chunks : ChunkFiles

abbrev pub Sessions : Type 0
Sessions = SortedMap Session

-- TOML has no integers from 2^63 on, so a session with one is not written.
abbrev pub is_too_large : SessionState → Bool
is_too_large s = leb (2 ^ 63) s.declared_size || leb (2 ^ 63) s.chunk_size_bytes

abbrev pub new_state : ℕ → Bytes → Bytes → ℕ → SessionState
new_state default_chunk_size id now declared_size = record {
  id = id;
  declared_size = declared_size;
  path = none;
  created_at = now;
  chunk_size_bytes = default_chunk_size;
}

unfoldable pub open_session :
    ℕ → Bytes → Bytes → ℕ → Sessions → Result OmpError (UploadHandle × Sessions)
open_session default_chunk_size id now declared_size sessions = do
  let state = new_state default_chunk_size id now declared_size
  reject_if (is_too_large state) OmpError.internal
  ok (
    record { upload_id = id; chunk_size_bytes = default_chunk_size },
    insert id (record { state = state; chunks = [] }) sessions,
  )

unfoldable pub load_session : Sessions → Bytes → Result OmpError Session
load_session sessions id = ok_or (get id sessions) OmpError.not_found

-- Writing a file: it takes the place of the file of that name.
unfoldable pub put_file : ℕ → Bytes → ChunkFiles → ChunkFiles
put_file offset bytes [] = (offset, bytes) ∷ []
put_file offset bytes ((o, old) ∷ files) =
    let later = put_file offset bytes files in
    if o == offset then (o, bytes) ∷ files else (o, old) ∷ later

-- The test of `write_chunk`: `offset + len` overflows 64 bits, or is past the declared size.
unfoldable pub overflows : ℕ → ℕ → ℕ → Bool
overflows offset len declared_size = leb (2 ^ 64) (offset + len) || ltb declared_size (offset + len)

unfoldable pub write_chunk : Bytes → ℕ → Bytes → Sessions → Result OmpError Sessions
write_chunk id offset bytes sessions = do
  session ← load_session sessions id
  reject_if (overflows offset (length bytes) session.state.declared_size) OmpError.invalid_path
  ok (insert id (record session { chunks = put_file offset bytes session.chunks }) sessions)

-- `sort_by_key`
unfoldable pub insert_chunk : ℕ → Bytes → ChunkFiles → ChunkFiles
insert_chunk offset bytes [] = (offset, bytes) ∷ []
insert_chunk offset bytes ((o, b) ∷ files) =
    let later = insert_chunk offset bytes files in
    if leb offset o then (offset, bytes) ∷ (o, b) ∷ files else (o, b) ∷ later

unfoldable pub sort_by_offset : ChunkFiles → ChunkFiles
sort_by_offset [] = []
sort_by_offset ((o, b) ∷ files) = insert_chunk o b (sort_by_offset files)

-- The loop over the chunks, with `cursor` and `buf`.
unfoldable pub splice : ℕ → Bytes → ChunkFiles → Result OmpError (ℕ × Bytes)
splice cursor buf [] = ok (cursor, buf)
splice cursor buf ((offset, bytes) ∷ files) =
    let rest = splice (cursor + length bytes) (buf ++ bytes) files in
    if offset == cursor then rest else err OmpError.corrupt

unfoldable pub assemble : Sessions → Bytes → Result OmpError Bytes
assemble sessions id = do
  session ← load_session sessions id
  (cursor, buf) ← splice 0 [] (sort_by_offset session.chunks)
  if cursor == session.state.declared_size then ok buf else err OmpError.corrupt

unfoldable pub remove_session : Bytes → Sessions → Sessions
remove_session id sessions = remove id sessions
