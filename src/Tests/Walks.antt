-- ===== src/Tests/Walks.antt =====
-- A manifest's document, and the walk of a store with a commit, a tree, a manifest and a blob.
use open_memory_protocol.Base.{
  ◌<◌, ℕ, zero, suc, ◌+◌, List, [], ◌∷◌, ◌++◌, Bool, true, false, All, length, Option, none, some,
  Result, ok, err, refl, ◌≡◌, ◌≢◌, arith, inl, inr, Bool-cases, ◌⊎◌,
}
use open_memory_protocol.Base.Bytes.{Bytes, codes, beq, beq_iff}
use open_memory_protocol.Base.HashSet.{In}
use open_memory_protocol.Error.{OmpError}
use open_memory_protocol.Hash.{Hash, IsHash}
use open_memory_protocol.Query.Evaluate.{FieldValue, Items, Fields, Manifest}
use open_memory_protocol.Toml.{Toml, Table}
use open_memory_protocol.Manifest.{document, to_document, from_document, write_fields}
use open_memory_protocol.Manifest.RoundTrip.{IsManifest, from_document-to_document, without_nulls}
use open_memory_protocol.Gc.{
  load_commit, load_tree, read_manifest, parse_commit_headers, Source, WalkError, LiveSet, walk,
}
use open_memory_protocol.Gc.Live.{AreIn}
use open_memory_protocol.Gc.Reachable.{IsClosed, walk-IsClosed}
use open_memory_protocol.Gc.Fuel.{IsUniverse, walk-ends}
use open_memory_protocol.Commit.{serialize_headers}
use open_memory_protocol.Tests.Commits.{second, ada-IsAuthor}
use open_memory_protocol.Tests.Trees.{name_a, name_b, name_a-IsName, name_b-IsName}
use open_memory_protocol.Tree.{Mode, Tree, serialize}
use open_memory_protocol.Tree.RoundTrip.{IsWellFormed, parse-serialize}
use open_memory_protocol.Commit.{Commit}
use open_memory_protocol.Commit.Lines.{IsCommit}
use open_memory_protocol.Commit.RoundTrip.{parse-serialize_plain}
use open_memory_protocol.Tests.Queries.{no_floats}
use open_memory_protocol.Tests.Fixtures.{zeros, hash_1, hash_1-IsHash, toy_primitives, toy_store}

-- Dates are texts as they stand.
abbrev toy_toml : Toml no_floats
toy_toml = record {
  Datetime = Bytes;
  parse_datetime = λ s. some s;
  print_datetime = λ s. s;
  is_finite = λ f. true;
}

abbrev tagged : Manifest no_floats
tagged = record {
  source_hash = hash_1;
  file_type = codes "text";
  schema_hash = hash_1;
  ingested_at = codes "2026";
  ingester_version = codes "1";
  probe_hashes = (codes "size", hash_1) ∷ [];
  fields = Fields.field (codes "a") FieldValue.null (
      Fields.field (codes "b")
        (FieldValue.list (Items.cons (FieldValue.datetime (codes "d")) Items.nil)) Fields.end);
}

tagged-IsManifest : IsManifest no_floats toy_toml tagged
unfolding open_memory_protocol.Manifest.Document.IsOrdered open_memory_protocol.Base.Bytes.order
tagged-IsManifest = record {
  source = hash_1-IsHash;
  schema = hash_1-IsHash;
  probes = (hash_1-IsHash, tt);
  probe_order = (tt, tt);
  field_order = ((refl, tt), tt, (tt, (tt, tt), tt));
}

abbrev or_empty : Result OmpError (Table no_floats toy_toml) → Table no_floats toy_toml
or_empty (ok t) = t
or_empty (err _) = Table.no_entries

abbrev tagged_document : Table no_floats toy_toml
tagged_document = or_empty (to_document no_floats toy_toml tagged)

from_document-to_document_example :
    from_document no_floats toy_toml tagged_document
    ≡ ok (record tagged { fields = without_nulls no_floats toy_toml tagged.fields })
unfolding to_document write_fields open_memory_protocol.Manifest.field_value_to_item
from_document-to_document_example =
    from_document-to_document no_floats toy_toml tagged tagged_document tagged-IsManifest refl

abbrev hash_n : ℕ → Hash
hash_n n = n ∷ zeros 31

abbrev root_tree : Tree
root_tree = record {
  entries =
      (name_a, record { mode = Mode.manifest; hash = hash_n 3 })
      ∷ (name_b, record { mode = Mode.blob; hash = hash_n 4 })
      ∷ [];
}

hash_n-IsHash : (n : ℕ) → n < 256 → IsHash (hash_n n)
hash_n-IsHash n lt = (hash_1-IsHash.0, (lt, hash_1-IsHash.1.1))

root_tree-IsWellFormed : IsWellFormed root_tree
unfolding open_memory_protocol.Base.Bytes.order
root_tree-IsWellFormed = record {
  sorted = ((refl, tt), (tt, tt));
  good = (
    (name_a-IsName, hash_n-IsHash 3 (omega arith)),
    ((name_b-IsName, hash_n-IsHash 4 (omega arith)), tt),
  );
}

abbrev initial : Commit
initial = record second { tree = hash_n 2; parents = [] }

initial-IsCommit : IsCommit initial
initial-IsCommit = record {
  tree_hash = hash_n-IsHash 2 (omega arith);
  parent_hashes = tt;
  author_line = ada-IsAuthor;
}

abbrev commit_bytes : Bytes
commit_bytes = serialize_headers initial (codes "hi" ++ 10 ∷ [])

-- A commit 1 of a tree 2 with a manifest 3, whose document is that of the manifest above, of source 171.
abbrev small : Source
small = record {
  store = toy_store;
  state =
      (hash_n 1, (codes "commit", commit_bytes))
      ∷ (hash_n 2, (codes "tree", serialize root_tree))
      ∷ (hash_n 3, (codes "manifest", []))
      ∷ (hash_1, (codes "blob", []))
      ∷ [];
  primitives = toy_primitives;
  floats = no_floats;
  toml = toy_toml;
  parse_toml = λ s. some tagged_document;
  parse_envelope_toml = λ s. none;
  keys = none;
}

abbrev small_live : LiveSet
small_live = record {
  commits = hash_n 1 ∷ [];
  trees = hash_n 2 ∷ [];
  manifests = hash_n 3 ∷ [];
  chunks_objects = [];
  blobs = hash_n 4 ∷ hash_1 ∷ [];
  shares = hash_n 5 ∷ [];
}

commit_1 : load_commit small (hash_n 1) ≡ ok (record initial { message = codes "hi" })
unfolding load_commit parse_commit_headers open_memory_protocol.Gc.fetch
    open_memory_protocol.Base.Bytes.beq open_memory_protocol.Base.Trim.trim_end_matches
    open_memory_protocol.Base.Utf8.run open_memory_protocol.Base.Bytes.strip_prefix
    open_memory_protocol.Commit.serialize_with_commit_key
commit_1 =
    rw
      (parse-serialize_plain toy_primitives none initial commit_bytes initial-IsCommit refl refl
        refl)
      refl

tree_2 : load_tree small (hash_n 2) ≡ ok root_tree
unfolding load_tree open_memory_protocol.Gc.fetch open_memory_protocol.Base.Bytes.beq
tree_2 = rw (parse-serialize toy_primitives none root_tree root_tree-IsWellFormed) refl

manifest_3 :
    read_manifest small []
    ≡ ok (some (record tagged { fields = without_nulls no_floats toy_toml tagged.fields }))
unfolding read_manifest open_memory_protocol.Manifest.parse to_document write_fields
    open_memory_protocol.Manifest.field_value_to_item open_memory_protocol.Base.Utf8.is_utf8
manifest_3 =
    rw (from_document-to_document no_floats toy_toml tagged tagged_document tagged-IsManifest refl)
      refl

small-walk : walk small 3 2 (hash_n 1 ∷ []) (hash_n 5 ∷ []) ≡ ok small_live
unfolding walk open_memory_protocol.Gc.walk_commits open_memory_protocol.Gc.walk_tree
    open_memory_protocol.Gc.walk_entries open_memory_protocol.Gc.walk_manifest
    open_memory_protocol.Gc.walk_source open_memory_protocol.Base.HashSet.insert
    open_memory_protocol.Gc.fetch open_memory_protocol.Base.Bytes.beq
small-walk = rw (commit_1, tree_2, manifest_3) refl

walk-IsClosed_example :
    IsClosed small small_live
    × AreIn (hash_n 1 ∷ []) small_live.commits
    × AreIn (hash_n 5 ∷ []) small_live.shares
walk-IsClosed_example =
    walk-IsClosed small 3 2 (hash_n 1 ∷ []) (hash_n 5 ∷ []) small_live small-walk

abbrev small_known : List Hash
small_known = hash_n 1 ∷ hash_n 2 ∷ []

small_cases : (h : Hash) → In h small_known → (h ≡ hash_n 1) ⊎ (h ≡ hash_n 2)
small_cases h k = elim (Bool-cases (beq h (hash_n 1))) [
  | inl y ↦ inl ((beq_iff h (hash_n 1)).0 y)
  | inr n ↦ elim (Bool-cases (beq h (hash_n 2))) [
    | inl y ↦ inr ((beq_iff h (hash_n 2)).0 y)
    | inr m ↦ absurd (cc (rw (n, m) at k))
  ]
]

no_tree_1 : load_tree small (hash_n 1) ≡ err OmpError.corrupt
unfolding load_tree open_memory_protocol.Gc.fetch open_memory_protocol.Base.Bytes.beq
no_tree_1 = refl

no_commit_2 : load_commit small (hash_n 2) ≡ err OmpError.corrupt
unfolding load_commit open_memory_protocol.Gc.fetch open_memory_protocol.Base.Bytes.beq
no_commit_2 = refl

small_known-IsUniverse : IsUniverse small small_known
small_known-IsUniverse = record {
  trees_known = λ h tree k e. elim (small_cases h k) [
    | inl one ↦ (let f = rw one at e in absurd (cc (f, no_tree_1)))
    | inr two ↦
        let f = rw two at e in
        let same : root_tree ≡ tree = cc (f, tree_2) in rw (← same) (tt, (tt, tt))
  ];
  commits_known = λ h c k e. elim (small_cases h k) [
    | inr two ↦ (let f = rw two at e in absurd (cc (f, no_commit_2)))
    | inl one ↦
        let f = rw one at e in
        let same : record initial { message = codes "hi" } ≡ c = cc (f, commit_1) in
        rw (← same) (unfold beq in (refl, tt))
  ];
}

walk-ends_example : walk small 3 2 (hash_n 1 ∷ []) [] ≢ err WalkError.out_of_fuel
walk-ends_example =
    walk-ends small small_known small_known-IsUniverse (hash_n 1 ∷ []) [] (unfold beq in refl, tt)
