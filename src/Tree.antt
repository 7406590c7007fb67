-- ===== src/Tree.antt =====
-- crates/omp-core/src/tree.rs: tree objects, plain and with sealed names.
pub mod Lines
pub mod RoundTrip
pub mod Sealed
pub mod Newline
use open_memory_protocol.Base.{
  ℕ, [], ◌∷◌, ◌++◌, List, Bool, true, false, not, ◌||◌, if◌then◌else◌, Option, none, some, Result,
  ok, err, ◌>>=◌, ◌>>◌, reject_if, ok_or, map_err, length,
}
use open_memory_protocol.Base.Bytes.{Bytes, codes, beq, contains, split_once, lines}
use open_memory_protocol.Base.Utf8.{is_utf8}
use open_memory_protocol.Base.SortedMap
use open_memory_protocol.Base.SortedMap.{SortedMap}
use open_memory_protocol.Error.{OmpError}
use open_memory_protocol.Hex
use open_memory_protocol.Hash.{Hash, hex, from_str}
use open_memory_protocol.Crypto.{Primitives, seal, open_sealed, derive_nonce}

abbrev pub encrypted_tree_marker : Bytes
encrypted_tree_marker = codes "!encrypted-path v1"

abbrev pub tree_name_aad : Bytes
tree_name_aad = codes "omp-tree-name"

pub data Mode : Type 0 where
  blob manifest tree : Mode

unfoldable pub as_str : Mode → Bytes
as_str blob = codes "blob"
as_str manifest = codes "manifest"
as_str tree = codes "tree"

unfoldable pub parse_mode : Bytes → Result OmpError Mode
parse_mode s =
    if beq s (codes "blob")
    then ok blob
    else if beq s (codes "manifest")
    then ok manifest
    else if beq s (codes "tree")
    then ok tree
    else err OmpError.corrupt

pub record Entry : Type 0 where
  pub mode : Mode
  pub hash : Hash

pub record Tree : Type 0 where
  pub entries : SortedMap Entry

abbrev pub empty : Tree
empty = record { entries = [] }

unfoldable pub is_empty : Tree → Bool
is_empty t = elim t.entries [ [] ↦ true | _ ∷ _ ↦ false ]

unfoldable pub get : Tree → Bytes → Option Entry
get t name = SortedMap.get name t.entries

unfoldable pub validate_name : Bytes → Result OmpError Unit
validate_name name =
    if beq name []
    then err OmpError.invalid_path
    else if contains b'/' name || contains 0 name || beq name (codes ".") || beq name (codes "..")
    then err OmpError.invalid_path
    else ok tt

unfoldable pub insert : Tree → Bytes → Entry → Result OmpError Tree
insert t name entry = do
  validate_name name
  ok (record { entries = SortedMap.insert name entry t.entries })

-- The removed entry, which `remove` returns, is not used by any caller.
unfoldable pub remove : Tree → Bytes → Tree
remove t name = record { entries = SortedMap.remove name t.entries }

-- `<mode> <hash>\t<name>` with the name, or its sealed form, given.
unfoldable pub write_line : Entry → Bytes → Bytes
write_line entry name = (as_str entry.mode ++ b' ' ∷ hex entry.hash) ++ b'\t' ∷ name

-- The loop of `serialize`.
unfoldable pub serialize_entries : SortedMap Entry → Bytes
serialize_entries [] = []
serialize_entries ((name, entry) ∷ m) = write_line entry name ++ b'\n' ∷ serialize_entries m

unfoldable pub serialize : Tree → Bytes
serialize t = serialize_entries t.entries

module _ (p : Primitives) where
  -- The sealed form of a name under the tenant's path key.
  unfoldable pub seal_name : Bytes → Bytes → Result OmpError Bytes
  seal_name key name = do
    nonce ← derive_nonce p key (codes "tree-name") name
    sealed ← map_err (λ _. OmpError.internal) (seal p key nonce tree_name_aad name)
    ok (Hex.encode sealed)

  -- The loop of `serialize_with_path_key`.
  unfoldable pub serialize_sealed : Bytes → SortedMap Entry → Result OmpError Bytes
  serialize_sealed key [] = ok []
  serialize_sealed key ((name, entry) ∷ m) = do
    sealed ← seal_name key name
    rest ← serialize_sealed key m
    ok (write_line entry sealed ++ b'\n' ∷ rest)

  unfoldable pub serialize_with_path_key : Option Bytes → Tree → Result OmpError Bytes
  serialize_with_path_key none t = ok (serialize t)
  serialize_with_path_key (some key) t = do
    body ← serialize_sealed key t.entries
    ok (encrypted_tree_marker ++ b'\n' ∷ body)

  -- The name of a line: as it stands, or unsealed with the key in use.
  unfoldable pub open_name : Option Bytes → Bytes → Result OmpError Bytes
  open_name none name_field = ok name_field
  open_name (some key) name_field = do
    sealed ← Hex.decode name_field
    opened ← map_err (λ _. OmpError.unauthorized) (open_sealed p key tree_name_aad sealed)
    reject_if (not (is_utf8 opened)) OmpError.corrupt
    ok opened

  unfoldable pub parse_line : Option Bytes → Bytes → Result OmpError (Bytes × Entry)
  parse_line key line = do
    (meta, name_field) ← ok_or (split_once b'\t' line) OmpError.corrupt
    (mode_s, hash_s) ← ok_or (split_once b' ' meta) OmpError.corrupt
    mode ← parse_mode mode_s
    hash ← map_err (λ _. OmpError.corrupt) (from_str hash_s)
    name ← open_name key name_field
    validate_name name
    ok (name, record { mode = mode; hash = hash })

  -- The loop of `parse_with_path_key`. An empty line is passed over.
  unfoldable pub parse_entries :
      Option Bytes → SortedMap Entry → List Bytes → Result OmpError (SortedMap Entry)
  parse_entries key out [] = ok out
  parse_entries key out ([] ∷ more) = parse_entries key out more
  parse_entries key out ((c ∷ line) ∷ more) = do
    (name, entry) ← parse_line key (c ∷ line)
    parse_entries key (SortedMap.insert name entry out) more

  -- Whether the first line is the marker, and the lines of the body.
  unfoldable pub peek_marker : List Bytes → Bool × List Bytes
  peek_marker [] = (false, [])
  peek_marker (first ∷ more) =
      if beq first encrypted_tree_marker then (true, more) else (false, first ∷ more)

  -- The key in use: none for a plain tree, whatever the caller holds.
  unfoldable pub key_for : Bool → Option Bytes → Result OmpError (Option Bytes)
  key_for false path_key = ok none
  key_for true none = err OmpError.unauthorized
  key_for true (some key) = ok (some key)

  unfoldable pub parse_with_path_key : Option Bytes → Bytes → Result OmpError Tree
  parse_with_path_key path_key bytes = do
    reject_if (not (is_utf8 bytes)) OmpError.corrupt
    let marked = peek_marker (lines bytes)
    key ← key_for marked.0 path_key
    entries ← parse_entries key [] marked.1
    ok (record { entries = entries })

  unfoldable pub parse : Bytes → Result OmpError Tree
  parse bytes = parse_with_path_key none bytes
