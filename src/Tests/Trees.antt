-- ===== src/Tests/Trees.antt =====
-- Trees, plain and with sealed names.
use open_memory_protocol.Base.{
  ap, inl, inr, ℕ, List, [], ◌∷◌, ◌++◌, Bool, true, false, Option, none, some, Result, ok, err,
  refl, ◌≡◌, ◌≢◌, arith, All,
}
use open_memory_protocol.Base.Bytes.{Bytes, codes, strip_cr, Lacks}
use open_memory_protocol.Base.Utf8.{IsText}
use open_memory_protocol.Error.{OmpError}
use open_memory_protocol.Crypto.{seal, open_sealed}
use open_memory_protocol.Crypto.Sealing.{open_sealed-seal}
use open_memory_protocol.Tree
use open_memory_protocol.Tree.{
  Mode, Entry, Tree, empty, insert, serialize, parse, parse_with_path_key, serialize_with_path_key,
  validate_name,
}
use open_memory_protocol.Tree.RoundTrip.{IsField, IsName, IsWellFormed, parse-serialize}
use open_memory_protocol.Tree.Newline.{insert-newline_unreadable}
use open_memory_protocol.Tree.Sealed.{parse-serialize_with_path_key}
use open_memory_protocol.Tests.Fixtures.{
  zeros, hash_1, hash_1-IsHash, toy_primitives, toy_primitives-IsSound,
}

open_sealed-seal_example :
    open_sealed toy_primitives [] [] (1 ∷ zeros 12 ++ codes "secret" ++ zeros 16)
    ≡ ok (codes "secret")
unfolding seal
open_sealed-seal_example =
    open_sealed-seal toy_primitives toy_primitives-IsSound [] (zeros 12) [] (codes "secret")
      (1 ∷ zeros 12 ++ codes "secret" ++ zeros 16) refl refl

abbrev pub file : Entry
file = record { mode = Mode.blob; hash = hash_1 }

abbrev pub name_a : Bytes
name_a = codes "a"

abbrev pub name_b : Bytes
name_b = codes "b.md"

name_a-IsField : IsField name_a
unfolding strip_cr open_memory_protocol.Base.Utf8.run
name_a-IsField = record { lacks = omega arith; ends = refl; is_text = refl }

name_b-IsField : IsField name_b
unfolding strip_cr open_memory_protocol.Base.Utf8.run
name_b-IsField = record { lacks = omega arith; ends = refl; is_text = refl }

pub name_a-IsName : IsName name_a
unfolding validate_name open_memory_protocol.Base.Bytes.beq open_memory_protocol.Base.Bytes.contains
name_a-IsName = record { valid = refl; field = name_a-IsField }

pub name_b-IsName : IsName name_b
unfolding validate_name open_memory_protocol.Base.Bytes.beq open_memory_protocol.Base.Bytes.contains
name_b-IsName = record { valid = refl; field = name_b-IsField }

abbrev two_files : Tree
two_files = record { entries = (name_a, file) ∷ (name_b, file) ∷ [] }

two_files-IsWellFormed : IsWellFormed two_files
unfolding open_memory_protocol.Base.Bytes.order
two_files-IsWellFormed = record {
  sorted = ((refl, tt), (tt, tt));
  good = ((name_a-IsName, hash_1-IsHash), ((name_b-IsName, hash_1-IsHash), tt));
}

parse-serialize_example :
    parse_with_path_key toy_primitives none (serialize two_files) ≡ ok two_files
parse-serialize_example = parse-serialize toy_primitives none two_files two_files-IsWellFormed

insert-newline_unreadable_example :
    parse toy_primitives (serialize (record { entries = (name_a ++ 10 ∷ name_b, file) ∷ [] }))
    ≡ err OmpError.corrupt
unfolding insert validate_name open_memory_protocol.Base.Bytes.beq
    open_memory_protocol.Base.Bytes.contains open_memory_protocol.Base.SortedMap.insert
insert-newline_unreadable_example =
    insert-newline_unreadable toy_primitives name_a name_b file
      (record { entries = (name_a ++ 10 ∷ name_b, file) ∷ [] }) hash_1-IsHash name_a-IsName
      name_b-IsName (λ e. cc e) (omega arith) refl

abbrev bytes_of : Result OmpError Bytes → Bytes
bytes_of (ok b) = b
bytes_of (err e) = []

abbrev sealed_bytes : Bytes
sealed_bytes = bytes_of (serialize_with_path_key toy_primitives (some []) two_files)

two_files_seal : serialize_with_path_key toy_primitives (some []) two_files ≡ ok sealed_bytes
unfolding serialize_with_path_key Tree.serialize_sealed Tree.seal_name
    open_memory_protocol.Crypto.derive_nonce seal
two_files_seal = refl

parse-serialize_with_path_key_example :
    (parse_with_path_key toy_primitives (some []) sealed_bytes ≡ ok two_files)
    × (parse_with_path_key toy_primitives none sealed_bytes ≡ err OmpError.unauthorized)
unfolding validate_name open_memory_protocol.Base.Bytes.beq open_memory_protocol.Base.Bytes.contains
    open_memory_protocol.Base.Utf8.run
parse-serialize_with_path_key_example =
    parse-serialize_with_path_key toy_primitives toy_primitives-IsSound [] two_files sealed_bytes
      (two_files-IsWellFormed.sorted)
      (((refl, refl, omega arith), hash_1-IsHash), (((refl, refl, omega arith), hash_1-IsHash), tt))
      two_files_seal
