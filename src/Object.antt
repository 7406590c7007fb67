-- ===== src/Object.antt =====
-- crates/omp-core/src/object.rs: object types and the framing `<type> <size>\0<content>`. The zlib
-- functions are not modelled.
pub mod Framing
use open_memory_protocol.Base.{
  ℕ, [], ◌∷◌, ◌++◌, not, ◌==◌, if◌then◌else◌, Result, ok, err, ◌>>=◌, ◌>>◌, reject_if, ok_or,
  length,
}
use open_memory_protocol.Base.Bytes.{Bytes, codes, beq, split_once}
use open_memory_protocol.Base.Utf8.{is_utf8}
use open_memory_protocol.Base.Decimal.{format_uint, parse_uint}
use open_memory_protocol.Error.{OmpError}
use open_memory_protocol.Hash.{Hash}

pub data ObjectType : Type 0 where
  blob tree manifest commit chunks share audit : ObjectType

unfoldable pub as_str : ObjectType → Bytes
as_str blob = codes "blob"
as_str tree = codes "tree"
as_str manifest = codes "manifest"
as_str commit = codes "commit"
as_str chunks = codes "chunks"
as_str share = codes "share"
as_str audit = codes "audit"

unfoldable pub parse : Bytes → Result OmpError ObjectType
parse s =
    if beq s (codes "blob")
    then ok blob
    else if beq s (codes "tree")
    then ok tree
    else if beq s (codes "manifest")
    then ok manifest
    else if beq s (codes "commit")
    then ok commit
    else if beq s (codes "chunks")
    then ok chunks
    else if beq s (codes "share")
    then ok share
    else if beq s (codes "audit")
    then ok audit
    else err OmpError.corrupt

unfoldable pub frame : ObjectType → Bytes → Bytes
frame t content = as_str t ++ b' ' ∷ format_uint (length content) ++ 0 ∷ content

-- `sha256` is the digest of the `sha2` crate.
unfoldable pub hash_of : (Bytes → Hash) → ObjectType → Bytes → Hash
hash_of sha256 t content = sha256 (frame t content)

-- `split_once 0` is the search for the first NUL with the two slices around it.
unfoldable pub parse_framed : Bytes → Result OmpError (ObjectType × Bytes)
parse_framed framed = do
  (header, content) ← ok_or (split_once 0 framed) OmpError.corrupt
  reject_if (not (is_utf8 header)) OmpError.corrupt
  (type_str, size_str) ← ok_or (split_once b' ' header) OmpError.corrupt
  declared ← ok_or (parse_uint size_str) OmpError.corrupt
  t ← parse type_str
  reject_if (not (length content == declared)) OmpError.corrupt
  ok (t, content)
