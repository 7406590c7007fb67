-- ===== src/Tests/Puts.antt =====
-- Puts and deletes at paths, in the store in files.
use open_memory_protocol.Tests.Trees.{file}
use open_memory_protocol.Base.{
  ◌*◌, ◌+◌, ◌%◌, ◌/◌, All, ℕ, List, [], ◌∷◌, ◌++◌, Bool, true, false, Option, none, some, Result,
  ok, err, refl, ◌≡◌, arith,
}
use open_memory_protocol.Base.Bytes.{Bytes, codes, strip_cr, Lacks}
use open_memory_protocol.Base.Utf8.{IsText}
use open_memory_protocol.Error.{OmpError}
use open_memory_protocol.Hash.{Hash, IsHash}
use open_memory_protocol.Tree
use open_memory_protocol.Tree.{
  Mode, Entry, Tree, empty, insert, serialize, parse, parse_with_path_key, serialize_with_path_key,
  validate_name,
}
use open_memory_protocol.Tree.RoundTrip.{IsName}
use open_memory_protocol.Paths.{split, get_at_with_key, put_at_with_key, delete_at_with_key}
use open_memory_protocol.Paths.Loading.{HasTrees, Extends}
use open_memory_protocol.Disk.Trees.{get_at-put_at}
use open_memory_protocol.Disk.{Codecs, Files}
use open_memory_protocol.Disk.Objects.{IsCodec}
use open_memory_protocol.Disk.Careful.{disk_store, careful_store}
use open_memory_protocol.Base.SortedMap
use open_memory_protocol.Paths.Splitting.{IsPart, split-IsPart}
use open_memory_protocol.Tests.Fixtures.{
  hash_1, hash_1-IsHash, toy_primitives, toy_primitives-IsSound, zeros, length-zeros, zeros-IsBytes,
}

-- A checksum in place of SHA-256, and no compression.
abbrev checksum : ℕ → Bytes → ℕ
checksum acc [] = acc
checksum acc (c ∷ s) = checksum ((acc * 31 + c + 1) % 65521) s

abbrev sum_of : Bytes → Hash
sum_of b = let x = checksum 7 b in x % 256 ∷ x / 256 % 256 ∷ zeros 30

abbrev sums : Codecs
sums = record { sha256 = λ b. sum_of b; compress = λ b. b; inflate = λ b. some b }

sums-IsCodec : IsCodec sums
sums-IsCodec = record {
  inflates = λ b. refl;
  digests = λ b. (omega (arith, length-zeros 30), (omega arith, (omega arith, zeros-IsBytes 30)));
}

-- The store after `file` was put at `x/y` in the empty store, and its root.
abbrev first_put : Result OmpError (Hash × Files)
first_put = put_at_with_key (disk_store sums) toy_primitives none [] none (codes "x/y") file

abbrev root_of : Result OmpError (Hash × Files) → Hash
root_of (ok (h, s)) = h
root_of (err e) = []

abbrev state_of : Result OmpError (Hash × Files) → Files
state_of (ok (h, s)) = s
state_of (err e) = []

abbrev parts_xy : List Bytes
parts_xy = codes "x" ∷ codes "y" ∷ []

split_xy : split (codes "x/y") ≡ ok parts_xy
unfolding split open_memory_protocol.Base.Bytes.beq open_memory_protocol.Paths.trim_matches
    open_memory_protocol.Paths.check_parts open_memory_protocol.Base.Bytes.split
    open_memory_protocol.Paths.is_bad_part
split_xy = refl

abbrev name_x : Bytes
name_x = codes "x"

name_x-IsName : IsName name_x
unfolding validate_name open_memory_protocol.Base.Bytes.beq open_memory_protocol.Base.Bytes.contains
    strip_cr open_memory_protocol.Base.Utf8.run
name_x-IsName = record {
  valid = refl;
  field = record { lacks = omega arith; ends = refl; is_text = refl };
}

abbrev name_y : Bytes
name_y = codes "y"

name_y-IsName : IsName name_y
unfolding validate_name open_memory_protocol.Base.Bytes.beq open_memory_protocol.Base.Bytes.contains
    strip_cr open_memory_protocol.Base.Utf8.run
name_y-IsName = record {
  valid = refl;
  field = record { lacks = omega arith; ends = refl; is_text = refl };
}

no_trees : HasTrees (disk_store sums) toy_primitives none []
unfolding open_memory_protocol.Paths.load_tree_with_key open_memory_protocol.Disk.get SortedMap.get
no_trees h t e = cc e

first_put_runs : first_put ≡ ok (root_of first_put, state_of first_put)
unfolding open_memory_protocol.Paths.put_at_with_key open_memory_protocol.Paths.put_parts
    open_memory_protocol.Paths.put_inner open_memory_protocol.Paths.open_tree
    open_memory_protocol.Paths.child_of open_memory_protocol.Paths.load_tree_with_key
    open_memory_protocol.Paths.store_tree_with_key open_memory_protocol.Paths.split
    open_memory_protocol.Paths.trim_matches open_memory_protocol.Paths.check_parts
    open_memory_protocol.Paths.is_bad_part open_memory_protocol.Paths.is_tree
    open_memory_protocol.Tree.insert open_memory_protocol.Tree.get
    open_memory_protocol.Tree.validate_name open_memory_protocol.Tree.serialize_with_path_key
    open_memory_protocol.Tree.serialize open_memory_protocol.Tree.serialize_entries
    open_memory_protocol.Tree.write_line open_memory_protocol.Tree.as_str
    open_memory_protocol.Hash.hex open_memory_protocol.Hex.encode open_memory_protocol.Hex.hex_char
    open_memory_protocol.Base.Bytes.beq open_memory_protocol.Base.Bytes.contains
    open_memory_protocol.Base.Bytes.order open_memory_protocol.Base.Bytes.split
    open_memory_protocol.Base.SortedMap.insert open_memory_protocol.Base.SortedMap.get
    open_memory_protocol.Object.as_str open_memory_protocol.Tree.parse_with_path_key
    open_memory_protocol.Tree.peek_marker open_memory_protocol.Tree.key_for
    open_memory_protocol.Tree.parse_entries open_memory_protocol.Tree.parse_line
    open_memory_protocol.Tree.open_name open_memory_protocol.Tree.parse_mode
    open_memory_protocol.Hash.from_str open_memory_protocol.Hash.hex_digit
    open_memory_protocol.Hex.decode_pairs open_memory_protocol.Hex.join
    open_memory_protocol.Base.Utf8.is_utf8 open_memory_protocol.Base.Utf8.run
    open_memory_protocol.Base.Bytes.lines open_memory_protocol.Base.Bytes.strip_cr
    open_memory_protocol.Base.Bytes.split_once open_memory_protocol.Paths.get_at_with_key
    open_memory_protocol.Paths.get_parts open_memory_protocol.Paths.get_from
    open_memory_protocol.Paths.delete_at_with_key open_memory_protocol.Paths.delete_parts
    open_memory_protocol.Paths.delete_inner open_memory_protocol.Paths.replace_child
    open_memory_protocol.Paths.store_or_collapse open_memory_protocol.Tree.remove
    open_memory_protocol.Tree.is_empty open_memory_protocol.Base.SortedMap.remove
    open_memory_protocol.Disk.put open_memory_protocol.Disk.get
    open_memory_protocol.Disk.object_path open_memory_protocol.Disk.Careful.put_careful
    open_memory_protocol.Object.parse open_memory_protocol.Object.frame
    open_memory_protocol.Object.parse_framed open_memory_protocol.Base.Decimal.format_uint
    open_memory_protocol.Base.Decimal.parse_uint open_memory_protocol.Base.Bytes.split_head
first_put_runs = refl

first_put_alike :
    put_at_with_key (careful_store sums) toy_primitives none [] none (codes "x/y") file ≡ first_put
unfolding open_memory_protocol.Paths.put_at_with_key open_memory_protocol.Paths.put_parts
    open_memory_protocol.Paths.put_inner open_memory_protocol.Paths.open_tree
    open_memory_protocol.Paths.child_of open_memory_protocol.Paths.load_tree_with_key
    open_memory_protocol.Paths.store_tree_with_key open_memory_protocol.Paths.split
    open_memory_protocol.Paths.trim_matches open_memory_protocol.Paths.check_parts
    open_memory_protocol.Paths.is_bad_part open_memory_protocol.Paths.is_tree
    open_memory_protocol.Tree.insert open_memory_protocol.Tree.get
    open_memory_protocol.Tree.validate_name open_memory_protocol.Tree.serialize_with_path_key
    open_memory_protocol.Tree.serialize open_memory_protocol.Tree.serialize_entries
    open_memory_protocol.Tree.write_line open_memory_protocol.Tree.as_str
    open_memory_protocol.Hash.hex open_memory_protocol.Hex.encode open_memory_protocol.Hex.hex_char
    open_memory_protocol.Base.Bytes.beq open_memory_protocol.Base.Bytes.contains
    open_memory_protocol.Base.Bytes.order open_memory_protocol.Base.Bytes.split
    open_memory_protocol.Base.SortedMap.insert open_memory_protocol.Base.SortedMap.get
    open_memory_protocol.Object.as_str open_memory_protocol.Tree.parse_with_path_key
    open_memory_protocol.Tree.peek_marker open_memory_protocol.Tree.key_for
    open_memory_protocol.Tree.parse_entries open_memory_protocol.Tree.parse_line
    open_memory_protocol.Tree.open_name open_memory_protocol.Tree.parse_mode
    open_memory_protocol.Hash.from_str open_memory_protocol.Hash.hex_digit
    open_memory_protocol.Hex.decode_pairs open_memory_protocol.Hex.join
    open_memory_protocol.Base.Utf8.is_utf8 open_memory_protocol.Base.Utf8.run
    open_memory_protocol.Base.Bytes.lines open_memory_protocol.Base.Bytes.strip_cr
    open_memory_protocol.Base.Bytes.split_once open_memory_protocol.Paths.get_at_with_key
    open_memory_protocol.Paths.get_parts open_memory_protocol.Paths.get_from
    open_memory_protocol.Paths.delete_at_with_key open_memory_protocol.Paths.delete_parts
    open_memory_protocol.Paths.delete_inner open_memory_protocol.Paths.replace_child
    open_memory_protocol.Paths.store_or_collapse open_memory_protocol.Tree.remove
    open_memory_protocol.Tree.is_empty open_memory_protocol.Base.SortedMap.remove
    open_memory_protocol.Disk.put open_memory_protocol.Disk.get
    open_memory_protocol.Disk.object_path open_memory_protocol.Disk.Careful.put_careful
    open_memory_protocol.Object.parse open_memory_protocol.Object.frame
    open_memory_protocol.Object.parse_framed open_memory_protocol.Base.Decimal.format_uint
    open_memory_protocol.Base.Decimal.parse_uint open_memory_protocol.Base.Bytes.split_head
first_put_alike = refl

-- What the theorem on `put_at` says of a put of `file`.
abbrev AfterPut : Files → Bytes → Result OmpError (Hash × Files) → Type 0
AfterPut s path r =
    (get_at_with_key (disk_store sums) toy_primitives none (state_of r) path (root_of r)
      ≡ ok (some (Mode.blob, hash_1)))
    × IsHash (root_of r)
    × Extends (disk_store sums) toy_primitives none s (state_of r)
    × HasTrees (disk_store sums) toy_primitives none (state_of r)

put_xy : AfterPut [] (codes "x/y") first_put
put_xy =
    get_at-put_at sums sums-IsCodec toy_primitives toy_primitives-IsSound none [] none (codes "x/y")
      parts_xy file (root_of first_put) (state_of first_put) hash_1-IsHash no_trees split_xy
      (name_x-IsName, (name_y-IsName, tt)) first_put_alike first_put_runs

-- The store after `file` was put at `x/z` as well.
abbrev second_put : Result OmpError (Hash × Files)
second_put =
    put_at_with_key (disk_store sums) toy_primitives none (state_of first_put)
      (some (root_of first_put)) (codes "x/z") file

abbrev parts_xz : List Bytes
parts_xz = codes "x" ∷ codes "z" ∷ []

split_xz : split (codes "x/z") ≡ ok parts_xz
unfolding split open_memory_protocol.Base.Bytes.beq open_memory_protocol.Paths.trim_matches
    open_memory_protocol.Paths.check_parts open_memory_protocol.Base.Bytes.split
    open_memory_protocol.Paths.is_bad_part
split_xz = refl

abbrev name_z : Bytes
name_z = codes "z"

name_z-IsName : IsName name_z
unfolding validate_name open_memory_protocol.Base.Bytes.beq open_memory_protocol.Base.Bytes.contains
    strip_cr open_memory_protocol.Base.Utf8.run
name_z-IsName = record {
  valid = refl;
  field = record { lacks = omega arith; ends = refl; is_text = refl };
}

second_put_runs : second_put ≡ ok (root_of second_put, state_of second_put)
unfolding open_memory_protocol.Paths.put_at_with_key open_memory_protocol.Paths.put_parts
    open_memory_protocol.Paths.put_inner open_memory_protocol.Paths.open_tree
    open_memory_protocol.Paths.child_of open_memory_protocol.Paths.load_tree_with_key
    open_memory_protocol.Paths.store_tree_with_key open_memory_protocol.Paths.split
    open_memory_protocol.Paths.trim_matches open_memory_protocol.Paths.check_parts
    open_memory_protocol.Paths.is_bad_part open_memory_protocol.Paths.is_tree
    open_memory_protocol.Tree.insert open_memory_protocol.Tree.get
    open_memory_protocol.Tree.validate_name open_memory_protocol.Tree.serialize_with_path_key
    open_memory_protocol.Tree.serialize open_memory_protocol.Tree.serialize_entries
    open_memory_protocol.Tree.write_line open_memory_protocol.Tree.as_str
    open_memory_protocol.Hash.hex open_memory_protocol.Hex.encode open_memory_protocol.Hex.hex_char
    open_memory_protocol.Base.Bytes.beq open_memory_protocol.Base.Bytes.contains
    open_memory_protocol.Base.Bytes.order open_memory_protocol.Base.Bytes.split
    open_memory_protocol.Base.SortedMap.insert open_memory_protocol.Base.SortedMap.get
    open_memory_protocol.Object.as_str open_memory_protocol.Tree.parse_with_path_key
    open_memory_protocol.Tree.peek_marker open_memory_protocol.Tree.key_for
    open_memory_protocol.Tree.parse_entries open_memory_protocol.Tree.parse_line
    open_memory_protocol.Tree.open_name open_memory_protocol.Tree.parse_mode
    open_memory_protocol.Hash.from_str open_memory_protocol.Hash.hex_digit
    open_memory_protocol.Hex.decode_pairs open_memory_protocol.Hex.join
    open_memory_protocol.Base.Utf8.is_utf8 open_memory_protocol.Base.Utf8.run
    open_memory_protocol.Base.Bytes.lines open_memory_protocol.Base.Bytes.strip_cr
    open_memory_protocol.Base.Bytes.split_once open_memory_protocol.Paths.get_at_with_key
    open_memory_protocol.Paths.get_parts open_memory_protocol.Paths.get_from
    open_memory_protocol.Paths.delete_at_with_key open_memory_protocol.Paths.delete_parts
    open_memory_protocol.Paths.delete_inner open_memory_protocol.Paths.replace_child
    open_memory_protocol.Paths.store_or_collapse open_memory_protocol.Tree.remove
    open_memory_protocol.Tree.is_empty open_memory_protocol.Base.SortedMap.remove
    open_memory_protocol.Disk.put open_memory_protocol.Disk.get
    open_memory_protocol.Disk.object_path open_memory_protocol.Disk.Careful.put_careful
    open_memory_protocol.Object.parse open_memory_protocol.Object.frame
    open_memory_protocol.Object.parse_framed open_memory_protocol.Base.Decimal.format_uint
    open_memory_protocol.Base.Decimal.parse_uint open_memory_protocol.Base.Bytes.split_head
second_put_runs = refl

second_put_alike :
    put_at_with_key
      (careful_store sums)
      toy_primitives
      none
      (state_of first_put)
      (some (root_of first_put))
      (codes "x/z")
      file
    ≡ second_put
unfolding open_memory_protocol.Paths.put_at_with_key open_memory_protocol.Paths.put_parts
    open_memory_protocol.Paths.put_inner open_memory_protocol.Paths.open_tree
    open_memory_protocol.Paths.child_of open_memory_protocol.Paths.load_tree_with_key
    open_memory_protocol.Paths.store_tree_with_key open_memory_protocol.Paths.split
    open_memory_protocol.Paths.trim_matches open_memory_protocol.Paths.check_parts
    open_memory_protocol.Paths.is_bad_part open_memory_protocol.Paths.is_tree
    open_memory_protocol.Tree.insert open_memory_protocol.Tree.get
    open_memory_protocol.Tree.validate_name open_memory_protocol.Tree.serialize_with_path_key
    open_memory_protocol.Tree.serialize open_memory_protocol.Tree.serialize_entries
    open_memory_protocol.Tree.write_line open_memory_protocol.Tree.as_str
    open_memory_protocol.Hash.hex open_memory_protocol.Hex.encode open_memory_protocol.Hex.hex_char
    open_memory_protocol.Base.Bytes.beq open_memory_protocol.Base.Bytes.contains
    open_memory_protocol.Base.Bytes.order open_memory_protocol.Base.Bytes.split
    open_memory_protocol.Base.SortedMap.insert open_memory_protocol.Base.SortedMap.get
    open_memory_protocol.Object.as_str open_memory_protocol.Tree.parse_with_path_key
    open_memory_protocol.Tree.peek_marker open_memory_protocol.Tree.key_for
    open_memory_protocol.Tree.parse_entries open_memory_protocol.Tree.parse_line
    open_memory_protocol.Tree.open_name open_memory_protocol.Tree.parse_mode
    open_memory_protocol.Hash.from_str open_memory_protocol.Hash.hex_digit
    open_memory_protocol.Hex.decode_pairs open_memory_protocol.Hex.join
    open_memory_protocol.Base.Utf8.is_utf8 open_memory_protocol.Base.Utf8.run
    open_memory_protocol.Base.Bytes.lines open_memory_protocol.Base.Bytes.strip_cr
    open_memory_protocol.Base.Bytes.split_once open_memory_protocol.Paths.get_at_with_key
    open_memory_protocol.Paths.get_parts open_memory_protocol.Paths.get_from
    open_memory_protocol.Paths.delete_at_with_key open_memory_protocol.Paths.delete_parts
    open_memory_protocol.Paths.delete_inner open_memory_protocol.Paths.replace_child
    open_memory_protocol.Paths.store_or_collapse open_memory_protocol.Tree.remove
    open_memory_protocol.Tree.is_empty open_memory_protocol.Base.SortedMap.remove
    open_memory_protocol.Disk.put open_memory_protocol.Disk.get
    open_memory_protocol.Disk.object_path open_memory_protocol.Disk.Careful.put_careful
    open_memory_protocol.Object.parse open_memory_protocol.Object.frame
    open_memory_protocol.Object.parse_framed open_memory_protocol.Base.Decimal.format_uint
    open_memory_protocol.Base.Decimal.parse_uint open_memory_protocol.Base.Bytes.split_head
second_put_alike = refl

get_at-put_at_example : AfterPut (state_of first_put) (codes "x/z") second_put
get_at-put_at_example =
    get_at-put_at sums sums-IsCodec toy_primitives toy_primitives-IsSound none (state_of first_put)
      (some (root_of first_put)) (codes "x/z") parts_xz file (root_of second_put)
      (state_of second_put) hash_1-IsHash (put_xy.3) split_xz (name_x-IsName, (name_z-IsName, tt))
      second_put_alike second_put_runs

abbrev first_byte : Bytes → ℕ
first_byte [] = 0
first_byte (c ∷ s) = c

-- The store after `x/z` was deleted again, and its root.
abbrev deleted : Result OmpError (Option Hash × Files)
deleted =
    delete_at_with_key (disk_store sums) toy_primitives none (state_of second_put)
      (root_of second_put) (codes "x/z")

abbrev deleted_root : Result OmpError (Option Hash × Files) → Option Hash
deleted_root (ok (h, s)) = h
deleted_root (err e) = none

abbrev deleted_state : Result OmpError (Option Hash × Files) → Files
deleted_state (ok (h, s)) = s
deleted_state (err e) = []

split-IsPart_example : All IsPart parts_xy
split-IsPart_example = split-IsPart (codes "x/y") parts_xy split_xy
