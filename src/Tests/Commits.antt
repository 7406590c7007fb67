-- ===== src/Tests/Commits.antt =====
-- A commit, plain and sealed, and a history of one commit in the store in memory.
use open_memory_protocol.Base.{
  ℕ, ◌+◌, ◌<◌, ◌≤◌, List, [], ◌∷◌, ◌++◌, Bool, false, All, length, none, some, Result, ok, err,
  refl, ◌≡◌, ◌≢◌, arith,
}
use open_memory_protocol.Base.Bytes.{Bytes, codes, Lacks, strip_prefix}
use open_memory_protocol.Base.Decimal.{format_uint}
use open_memory_protocol.Base.Trim.{trim_end_matches}
use open_memory_protocol.Base.Utf8.{IsText}
use open_memory_protocol.Error.{OmpError}
use open_memory_protocol.Hash.{hex}
use open_memory_protocol.Hex
use open_memory_protocol.Commit
use open_memory_protocol.Commit.{
  Author, Commit, serialize_headers, serialize_with_commit_key, parse_with_commit_key,
  encrypted_message_prefix,
}
use open_memory_protocol.Commit.Authors.{IsAuthor}
use open_memory_protocol.Commit.Lines.{IsCommit}
use open_memory_protocol.Commit.RoundTrip.{parse-serialize_plain, parse-serialize_with_commit_key}
use open_memory_protocol.Refs.{Refs, refs_of, resolve_head}
use open_memory_protocol.Refs.History.{log, resolve_ref}
use open_memory_protocol.Refs.Log.{log_lem, IsStored, Distinct, StartsAt}
use open_memory_protocol.Refs.Ancestry.{resolve_ref_again}
use open_memory_protocol.Tests.Fixtures.{
  zeros, hash_1, hash_1-IsHash, toy_primitives, toy_primitives-IsSound, toy_store,
}

abbrev pub ada : Author
ada = record { name = codes "Ada B"; email = codes "ada@b"; timestamp = codes "2026" }

pub ada-IsAuthor : IsAuthor ada
unfolding open_memory_protocol.Base.Trim.begins_white open_memory_protocol.Base.Utf8.run
ada-IsAuthor = record {
  named = λ e. cc e;
  starts = refl;
  ends = refl;
  lacks = omega arith;
  timed = λ e. cc e;
  graphic = omega arith;
  name_line = omega arith;
  email_line = omega arith;
  name_text = refl;
  email_text = refl;
}

abbrev pub second : Commit
second = record {
  tree = hash_1;
  parents = hash_1 ∷ [];
  author = ada;
  message = codes "hi" ++ 10 ∷ [];
}

pub second-IsCommit : IsCommit second
second-IsCommit = record {
  tree_hash = hash_1-IsHash;
  parent_hashes = (hash_1-IsHash, tt);
  author_line = ada-IsAuthor;
}

abbrev trimmed : Commit
trimmed = record second { message = codes "hi" }

abbrev plain_bytes : Bytes
plain_bytes = serialize_headers second (codes "hi" ++ 10 ∷ [])

abbrev sealed_bytes : Bytes
sealed_bytes =
    serialize_headers second
      ((encrypted_message_prefix ++ Hex.encode (1 ∷ zeros 12 ++ codes "hi" ++ zeros 16)) ++ 10 ∷ [])

parse-serialize_with_commit_key_example :
    (parse_with_commit_key toy_primitives (some (zeros 32)) sealed_bytes ≡ ok trimmed)
    × (parse_with_commit_key toy_primitives none sealed_bytes ≡ err OmpError.unauthorized)
unfolding open_memory_protocol.Base.Utf8.run trim_end_matches serialize_with_commit_key
    Commit.seal_message open_memory_protocol.Crypto.derive_nonce open_memory_protocol.Crypto.seal
parse-serialize_with_commit_key_example =
    parse-serialize_with_commit_key toy_primitives toy_primitives-IsSound (zeros 32) second
      sealed_bytes second-IsCommit refl (omega arith) refl

-- The store of one commit, under a hash that its tree and its parent have as well.
abbrev one_commit : toy_store.State
one_commit = (hash_1, (codes "commit", plain_bytes)) ∷ []

parse_second : Commit.parse toy_primitives plain_bytes ≡ ok trimmed
unfolding Commit.parse trim_end_matches strip_prefix serialize_with_commit_key
parse_second =
    parse-serialize_plain toy_primitives none second plain_bytes second-IsCommit
      (unfold open_memory_protocol.Base.Utf8.run in refl) refl refl

log_runs : log toy_store toy_primitives one_commit hash_1 5 ≡ ok ((hash_1, trimmed) ∷ [])
unfolding log open_memory_protocol.Refs.History.log_from open_memory_protocol.Base.HashSet.insert
    open_memory_protocol.Base.Bytes.beq open_memory_protocol.Object.as_str
log_runs = rw parse_second refl

log_lem_example :
    (1 ≤ 5)
    × StartsAt hash_1 ((hash_1, trimmed) ∷ [])
    × Distinct ((hash_1, trimmed) ∷ [])
    × All (IsStored toy_store toy_primitives one_commit) ((hash_1, trimmed) ∷ [])
log_lem_example =
    log_lem toy_store toy_primitives one_commit hash_1 5 ((hash_1, trimmed) ∷ []) log_runs

-- HEAD names the branch main, in the files of the disk store.
abbrev main_at_1 : Refs
main_at_1 = refs_of (
    (codes "HEAD", codes "ref: refs/heads/main" ++ 10 ∷ [])
    ∷ (codes "refs/heads/main", hex hash_1 ++ 10 ∷ [])
    ∷ [])

head_at_1 : resolve_head main_at_1 ≡ ok (some hash_1)
unfolding resolve_head refs_of open_memory_protocol.Disk.read_head
    open_memory_protocol.Base.SortedMap.get open_memory_protocol.Base.Bytes.beq
    open_memory_protocol.Base.Utf8.is_utf8 open_memory_protocol.Refs.parse_head
    open_memory_protocol.Base.Bytes.strip_prefix open_memory_protocol.Base.Trim.trim
    open_memory_protocol.Base.Trim.trim_end open_memory_protocol.Base.Trim.skip_white
    open_memory_protocol.Base.Trim.trim_start open_memory_protocol.Disk.read_ref
    open_memory_protocol.Disk.ref_path open_memory_protocol.Disk.is_bad_ref
    open_memory_protocol.Query.Evaluate.contains_text
    open_memory_protocol.Query.Evaluate.starts_with open_memory_protocol.Base.Bytes.split
    open_memory_protocol.Base.Bytes.split_head open_memory_protocol.Base.Utf8.run
    open_memory_protocol.Hash.from_str open_memory_protocol.Hash.hex_digit
    open_memory_protocol.Hex.decode_pairs open_memory_protocol.Hex.join
    open_memory_protocol.Hash.hex open_memory_protocol.Hex.encode open_memory_protocol.Hex.hex_char
head_at_1 = refl

back_one :
    resolve_ref toy_store toy_primitives main_at_1 one_commit (codes "HEAD" ++ b'~' ∷ format_uint 1)
    ≡ ok hash_1
unfolding resolve_ref open_memory_protocol.Refs.start_of open_memory_protocol.Refs.parse_head
    open_memory_protocol.Refs.split_ancestor open_memory_protocol.Refs.History.nth_ancestor
    open_memory_protocol.Refs.History.parent_of open_memory_protocol.Base.Decimal.format_uint
    open_memory_protocol.Base.Decimal.parse_uint open_memory_protocol.Base.Bytes.split_once
    open_memory_protocol.Base.Bytes.strip_prefix open_memory_protocol.Base.Trim.trim
    open_memory_protocol.Base.Trim.trim_start open_memory_protocol.Base.Trim.trim_end
    open_memory_protocol.Base.Trim.skip_white open_memory_protocol.Base.SortedMap.get
    open_memory_protocol.Base.Bytes.beq open_memory_protocol.Object.as_str
back_one = rw (head_at_1, parse_second) refl

resolve_ref_again_example :
    resolve_ref toy_store toy_primitives main_at_1 one_commit (hex hash_1 ++ b'~' ∷ format_uint 2)
    ≡ resolve_ref toy_store toy_primitives main_at_1 one_commit
        (codes "HEAD" ++ b'~' ∷ format_uint 3)
resolve_ref_again_example =
    resolve_ref_again toy_store toy_primitives main_at_1 one_commit (codes "HEAD") 1 2 hash_1
      (omega arith) (omega arith) hash_1-IsHash back_one
