-- ===== src/Refs.antt =====
-- crates/omp-core/src/refs.rs: HEAD and ref expressions, over the methods of a store that read them.
pub mod Ancestors
pub mod History
pub mod Ancestry
pub mod Log
use open_memory_protocol.Base.{
  ℕ, zero, suc, List, [], ◌∷◌, ◌++◌, Bool, true, false, within, ◌==◌, ◌||◌, ◌&&◌, if◌then◌else◌,
  Option, none, some, Result, ok, err, ◌>>=◌, ok_or, map_err,
}
use open_memory_protocol.Base.Bytes.{Bytes, codes, beq, strip_prefix, split_once}
use open_memory_protocol.Base.Decimal.{parse_uint, u64_limit}
use open_memory_protocol.Base.Trim.{trim}
use open_memory_protocol.Disk
use open_memory_protocol.Disk.{Files}
use open_memory_protocol.Error.{OmpError}
use open_memory_protocol.Hash.{Hash, from_str}

pub data Head : Type 0 where
  branch : Bytes → Head
  detached : Hash → Head

-- The methods `read_head` and `read_ref` of a store as it stands, which can fail.
pub record Refs : Type 0 where
  pub read_head : Result OmpError Bytes
  pub read_ref : Bytes → Result OmpError (Option Hash)

-- Those of the disk store.
unfoldable pub refs_of : Files → Refs
refs_of files = record { read_head = Disk.read_head files; read_ref = Disk.read_ref files }

unfoldable pub parse_head : Bytes → Result OmpError Head
parse_head raw =
    let s = trim raw in
    elim (strip_prefix (codes "ref: ") s) [
      | some name ↦ ok (Head.branch (trim name))
      | none ↦ (do h ← map_err (λ _. OmpError.corrupt) (from_str s); ok (Head.detached h))
    ]

unfoldable pub current_branch : Refs → Result OmpError (Option Bytes)
current_branch r = do
  raw ← r.read_head
  head ← parse_head raw
  ok (elim head [ Head.branch name ↦ some name | Head.detached _ ↦ none ])

unfoldable pub resolve_head : Refs → Result OmpError (Option Hash)
resolve_head r = do
  raw ← r.read_head
  head ← parse_head raw
  elim head [ Head.detached h ↦ ok (some h) | Head.branch name ↦ r.read_ref name ]

abbrev number_or_one : Option ℕ → ℕ
number_or_one none = 1
number_or_one (some n) = n

abbrev pub split_at : Bytes → Option (Bytes × Bytes) → Bytes × ℕ
split_at expr none = (expr, 0)
split_at expr (some (base, tail)) = (base, number_or_one (parse_uint tail))

unfoldable pub split_ancestor : Bytes → Bytes × ℕ
split_ancestor expr = split_at expr (split_once b'~' expr)

abbrev is_prefix : Bytes → Bytes → Bool
is_prefix t s = elim (strip_prefix t s) [ none ↦ false | some _ ↦ true ]

-- The commit hash that the base of a ref expression names.
unfoldable pub start_of : Refs → Bytes → Result OmpError Hash
start_of r base =
    if beq base (codes "HEAD")
    then (do head ← resolve_head r; ok_or head OmpError.not_found)
    else if is_prefix (codes "refs/") base
    then (do found ← r.read_ref base; ok_or found OmpError.not_found)
    else elim (from_str base) [
      | ok h ↦ ok h
      | err _ ↦ (do
        found ← r.read_ref (codes "refs/heads/" ++ base)
        ok_or found OmpError.not_found)
    ]
