-- ===== src/Disk.antt =====
-- crates/omp-core/src/store/disk.rs: the store in the files under `.omp`. A file is its path from there
-- and its bytes; a write replaces a file at once. A name leads to a file as the file system reads it, but a
-- folder is not told from a missing file. zlib and SHA-256 are parameters.
pub mod Objects
pub mod RefFiles
pub mod Careful
pub mod Trees
use open_memory_protocol.Base.{
  [], ◌∷◌, ◌++◌, not, ◌==◌, ◌||◌, Bool, true, false, if◌then◌else◌, Option, none, some, Result, ok,
  err, ◌>>=◌, ◌>>◌, reject_if, ok_or, map_err, take, drop, ℕ, length, List,
}
use open_memory_protocol.Base.Decimal.{format_uint}
use open_memory_protocol.Base.Bytes.{Bytes, codes, beq, split}
use open_memory_protocol.Base.Trim.{trim}
use open_memory_protocol.Base.Utf8.{is_utf8}
use open_memory_protocol.Base.SortedMap
use open_memory_protocol.Base.SortedMap.{SortedMap}
use open_memory_protocol.Error.{OmpError}
use open_memory_protocol.Hash.{Hash, hex, from_str}
use open_memory_protocol.Object
use open_memory_protocol.Object.{ObjectType, frame, parse_framed}
use open_memory_protocol.Query.Evaluate.{contains_text, starts_with, is_some}

-- The files of the store, and the calls of the crates `sha2` and `flate2`.
pub record Codecs : Type 0 where
  pub sha256 : Bytes → Hash
  pub compress : Bytes → Bytes
  pub inflate : Bytes → Option Bytes

abbrev pub Files : Type 0
Files = SortedMap Bytes

-- `split_at 2` of the hex form, as two folders' names.
unfoldable pub object_path : Hash → Bytes
object_path h = codes "objects/" ++ (take 2 (hex h) ++ b'/' ∷ drop 2 (hex h))

unfoldable pub is_bad_ref : Bytes → Bool
is_bad_ref name = contains_text (codes "..") name || starts_with (codes "/") name || beq name []

-- What the file system makes of the components of a path: empty ones and `.` lead nowhere else.
abbrev is_here : Bytes → Bool
is_here part = beq part [] || beq part (codes ".")

abbrev pub steps_of : List Bytes → List Bytes
steps_of [] = []
steps_of (part ∷ parts) = let rest = steps_of parts in if is_here part then rest else part ∷ rest

abbrev pub join_steps : List Bytes → Bytes
join_steps [] = []
join_steps (part ∷ []) = part
join_steps (part ∷ next ∷ parts) = part ++ b'/' ∷ join_steps (next ∷ parts)

-- A path that ends in a slash or in `.` can only be a folder.
abbrev ends_here : List Bytes → Bool
ends_here [] = true
ends_here (part ∷ []) = is_here part
ends_here (part ∷ next ∷ parts) = ends_here (next ∷ parts)

-- The file that a name leads to, and whether the name asks for a folder.
unfoldable pub ref_path : Bytes → Result OmpError (Bytes × Bool)
ref_path name = do
  reject_if (is_bad_ref name) OmpError.invalid_path
  ok (join_steps (steps_of (split b'/' name)), ends_here (split b'/' name))

-- Opening or removing a file by a name that asks for a folder fails, other than where there is none.
abbrev pub file_at : Bool → Option Bytes → Result OmpError (Option Bytes)
file_at folder none = ok none
file_at folder (some bytes) = if folder then err OmpError.io else ok (some bytes)

unfoldable pub init : Files → Files
init files = elim (SortedMap.get (codes "HEAD") files) [
  | none ↦ SortedMap.insert (codes "HEAD") (codes "ref: refs/heads/main" ++ b'\n' ∷ []) files
  | some _ ↦ files
]

abbrev pub parse_ref : Option Bytes → Result OmpError (Option Hash)
parse_ref none = ok none
parse_ref (some bytes) = do
  reject_if (not (is_utf8 bytes)) OmpError.io
  h ← map_err (λ _. OmpError.corrupt) (from_str (trim bytes))
  ok (some h)

unfoldable pub read_ref : Files → Bytes → Result OmpError (Option Hash)
read_ref files name = do
  (path, folder) ← ref_path name
  bytes ← file_at folder (SortedMap.get path files)
  parse_ref bytes

unfoldable pub write_ref : Files → Bytes → Hash → Result OmpError Files
write_ref files name commit = do
  (path, folder) ← ref_path name
  reject_if folder OmpError.io
  ok (SortedMap.insert path (hex commit ++ b'\n' ∷ []) files)

unfoldable pub delete_ref : Files → Bytes → Result OmpError Files
delete_ref files name = do
  (path, folder) ← ref_path name
  _ ← file_at folder (SortedMap.get path files)
  ok (SortedMap.remove path files)

unfoldable pub read_head : Files → Result OmpError Bytes
read_head files = do
  s ← ok_or (SortedMap.get (codes "HEAD") files) OmpError.io
  reject_if (not (is_utf8 s)) OmpError.io
  ok (trim s)

-- The text with a line feed at its end.
abbrev pub end_line : Bytes → Bytes
end_line [] = b'\n' ∷ []
end_line (c ∷ []) = if c == b'\n' then c ∷ [] else c ∷ b'\n' ∷ []
end_line (c ∷ d ∷ s) = c ∷ end_line (d ∷ s)

unfoldable pub write_head : Files → Bytes → Files
write_head files value = SortedMap.insert (codes "HEAD") (end_line value) files

module _ (z : Codecs) where
  -- The files after an object is written where there is none.
  abbrev pub place : Files → Hash → Bytes → Option Bytes → Files
  place files h framed none = SortedMap.insert (object_path h) (z.compress framed) files
  place files h framed (some _) = files

  unfoldable pub put : Files → Bytes → Bytes → Result OmpError (Hash × Files)
  put files type content = do
    t ← Object.parse type
    let framed = frame t content
    let hash = z.sha256 framed
    ok (hash, place files hash framed (SortedMap.get (object_path hash) files))

  abbrev pub total_of : List Bytes → Bytes
  total_of [] = []
  total_of (piece ∷ pieces) = piece ++ total_of pieces

  -- The pieces that the reader gives, up to its end.
  unfoldable pub put_stream : Files → Bytes → List Bytes → ℕ → Result OmpError (Hash × Files)
  put_stream files type pieces known_size = do
    t ← Object.parse type
    let header = Object.as_str t ++ b' ' ∷ format_uint known_size ++ 0 ∷ []
    let content = total_of pieces
    reject_if (not (length content == known_size)) OmpError.internal
    let hash = z.sha256 (header ++ content)
    ok (hash, place files hash (header ++ content) (SortedMap.get (object_path hash) files))

  abbrev pub read_object : Option Bytes → Result OmpError (Option (Bytes × Bytes))
  read_object none = ok none
  read_object (some raw) = do
    framed ← ok_or (z.inflate raw) OmpError.corrupt
    (t, content) ← parse_framed framed
    ok (some (Object.as_str t, content))

  unfoldable pub get : Files → Hash → Result OmpError (Option (Bytes × Bytes))
  get files hash = read_object (SortedMap.get (object_path hash) files)

  unfoldable pub has : Files → Hash → Bool
  has files hash = is_some (SortedMap.get (object_path hash) files)
