-- ===== src/Commit.antt =====
-- crates/omp-core/src/commit.rs: commit objects, with the message plain or sealed.
pub mod Authors
pub mod Lines
pub mod RoundTrip
use open_memory_protocol.Base.{
  ◌==◌, ◌-◌, ℕ, ◌+◌, ◌<◌, List, [], ◌∷◌, ◌++◌, Bool, true, false, not, ltb, if◌then◌else◌, Option,
  none, some, Result, ok, err, ◌>>=◌, ◌>>◌, ok_or, map_err, reject_if, length, take, drop,
}
use open_memory_protocol.Base.Bytes.{Bytes, codes, strip_prefix}
use open_memory_protocol.Base.Trim.{trim, trim_end, trim_end_matches, rsplit_once, rfind}
use open_memory_protocol.Base.Utf8.{is_utf8}
use open_memory_protocol.Error.{OmpError}
use open_memory_protocol.Hex
use open_memory_protocol.Hash.{Hash, hex, from_str}
use open_memory_protocol.Crypto.{Primitives, seal, open_sealed, derive_nonce}

-- `ENCRYPTED_MESSAGE_PREFIX`
abbrev pub encrypted_message_prefix : Bytes
encrypted_message_prefix = codes "!encrypted-message v1 "

-- `COMMIT_MSG_AAD`
abbrev pub commit_msg_aad : Bytes
commit_msg_aad = codes "omp-commit-message"

pub record Author : Type 0 where
  pub name : Bytes
  pub email : Bytes
  pub timestamp : Bytes

unfoldable pub format : Author → Bytes
format a = a.name ++ (codes " <" ++ (a.email ++ (codes "> " ++ a.timestamp)))

unfoldable pub parse_author : Bytes → Result OmpError Author
parse_author s = do
  (before, timestamp) ← ok_or (rsplit_once b' ' (trim s)) OmpError.corrupt
  let rest = trim_end before
  email_start ← ok_or (rfind b'<' rest) OmpError.corrupt
  email_end ← ok_or (rfind b'>' rest) OmpError.corrupt
  reject_if (ltb email_end email_start) OmpError.corrupt
  ok (record {
    name = trim_end (take email_start rest);
    email = take (email_end - (email_start + 1)) (drop (email_start + 1) rest);
    timestamp = timestamp;
  })

pub record Commit : Type 0 where
  pub tree : Hash
  pub parents : List Hash
  pub author : Author
  pub message : Bytes

unfoldable pub serialize_parents : List Hash → Bytes
serialize_parents [] = []
serialize_parents (h ∷ parents) = (codes "parent " ++ hex h) ++ b'\n' ∷ serialize_parents parents

-- The header lines and the empty line after them, before `rest`.
unfoldable pub serialize_headers : Commit → Bytes → Bytes
serialize_headers c rest =
    (codes "tree " ++ hex c.tree)
    ++ b'\n'
      ∷ (serialize_parents c.parents
          ++ ((codes "author " ++ format c.author) ++ b'\n' ∷ b'\n' ∷ rest))

-- The pieces of a text, each up to a line feed and with it.
abbrev pub prepend : ℕ → List Bytes → List Bytes
prepend c [] = (c ∷ []) ∷ []
prepend c (line ∷ lines) = (c ∷ line) ∷ lines

unfoldable pub split_inclusive : Bytes → List Bytes
split_inclusive [] = []
split_inclusive (c ∷ s) =
    let rest = split_inclusive s in if c == b'\n' then (c ∷ []) ∷ rest else prepend c rest

pub record Headers : Type 0 where
  pub tree : Option Hash
  pub parents : List Hash
  pub author : Option Author

abbrev pub no_headers : Headers
no_headers = record { tree = none; parents = []; author = none }

abbrev pub parse_hash : Bytes → Result OmpError Hash
parse_hash s = map_err (λ _. OmpError.corrupt) (from_str s)

abbrev pub header_line :
    Headers → Option Bytes → Option Bytes → Option Bytes → Result OmpError Headers
header_line h (some rest) _ _ = do tree ← parse_hash rest; ok (record h { tree = some tree })
header_line h none (some rest) _ = do
  parent ← parse_hash rest
  ok (record h { parents = h.parents ++ parent ∷ [] })
header_line h none none (some rest) = do
  author ← parse_author rest
  ok (record h { author = some author })
header_line h none none none = err OmpError.corrupt

unfoldable pub parse_header : Headers → Bytes → Result OmpError Headers
parse_header h l =
    header_line h (strip_prefix (codes "tree ") l) (strip_prefix (codes "parent ") l)
      (strip_prefix (codes "author ") l)

abbrev pub is_empty : Bytes → Bool
is_empty [] = true
is_empty (_ ∷ _) = false

-- The loop over the lines, with `header_bytes_consumed`.
unfoldable pub read_headers : Headers → ℕ → List Bytes → Result OmpError (Headers × ℕ)
read_headers h consumed [] = ok (h, consumed)
read_headers h consumed (line ∷ lines) =
    let l = trim_end_matches b'\n' line in
    let more = (do h' ← parse_header h l; read_headers h' (consumed + length line) lines) in
    if is_empty l then ok (h, consumed + length line) else more

module _ (p : Primitives) where
  unfoldable pub seal_message : Bytes → Bytes → Result OmpError Bytes
  seal_message key message = do
    nonce ← derive_nonce p key (codes "commit-msg") message
    sealed ← map_err (λ _. OmpError.internal) (seal p key nonce commit_msg_aad message)
    ok (encrypted_message_prefix ++ Hex.encode sealed)

  unfoldable pub serialize_with_commit_key : Option Bytes → Commit → Result OmpError Bytes
  serialize_with_commit_key none c =
      ok (serialize_headers c (trim_end_matches b'\n' c.message ++ b'\n' ∷ []))
  serialize_with_commit_key (some key) c = do
    body ← seal_message key (trim_end_matches b'\n' c.message)
    ok (serialize_headers c (body ++ b'\n' ∷ []))

  -- The body without its line feeds at the end, and what follows the prefix in it.
  unfoldable pub open_message : Option Bytes → Bytes → Option Bytes → Result OmpError Bytes
  open_message commit_key body none = ok body
  open_message commit_key body (some hex_sealed) = do
    key ← ok_or commit_key OmpError.unauthorized
    sealed ← Hex.decode hex_sealed
    opened ← map_err (λ _. OmpError.unauthorized) (open_sealed p key commit_msg_aad sealed)
    reject_if (not (is_utf8 opened)) OmpError.corrupt
    ok opened

  unfoldable pub parse_with_commit_key : Option Bytes → Bytes → Result OmpError Commit
  parse_with_commit_key commit_key bytes = do
    reject_if (not (is_utf8 bytes)) OmpError.corrupt
    (h, consumed) ← read_headers no_headers 0 (split_inclusive bytes)
    let body = trim_end_matches b'\n' (drop consumed bytes)
    message ← open_message commit_key body (strip_prefix encrypted_message_prefix body)
    tree ← ok_or h.tree OmpError.corrupt
    author ← ok_or h.author OmpError.corrupt
    ok (record { tree = tree; parents = h.parents; author = author; message = message })

  unfoldable pub parse : Bytes → Result OmpError Commit
  parse bytes = parse_with_commit_key none bytes
