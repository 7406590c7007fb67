-- ===== src/Gc.antt =====
-- crates/omp-core/src/gc.rs: the walk that collects every object reachable from the roots.
pub mod Live
pub mod Manifests
pub mod Reachable
pub mod Fuel
use open_memory_protocol.Base.{
  ℕ, zero, suc, List, [], ◌∷◌, ◌++◌, Bool, true, false, not, if◌then◌else◌, Option, none, some,
  Result, ok, err, ◌>>=◌, ◌>>◌, ok_or, map_err, reject_if, map,
}
use open_memory_protocol.Base.Bytes.{Bytes, codes, beq, lines, strip_prefix}
use open_memory_protocol.Base.HashSet.{HashSet, has, insert}
use open_memory_protocol.Base.Utf8.{is_utf8}
use open_memory_protocol.Error.{OmpError}
use open_memory_protocol.Hash.{Hash}
use open_memory_protocol.Chunks
use open_memory_protocol.Chunks.{ChunkEntry}
use open_memory_protocol.Crypto.{Primitives}
use open_memory_protocol.Tree.{Mode, Entry, Tree, parse_with_path_key}
use open_memory_protocol.Commit.{
  Commit, parse_with_commit_key, Headers, no_headers, parse_hash, parse_author, is_empty,
}
use open_memory_protocol.Store.{ObjectStore}
use open_memory_protocol.Query.{Floats}
use open_memory_protocol.Query.Evaluate.{Manifest}
use open_memory_protocol.Toml.{Toml, Table}
use open_memory_protocol.Manifest
use open_memory_protocol.EncryptedManifest.{
  EncryptedManifestEnvelope, parse_envelope, open_envelope,
}
use open_memory_protocol.Keys.{TenantKeys}

pub record LiveSet : Type 0 where
  pub commits : HashSet
  pub trees : HashSet
  pub manifests : HashSet
  pub chunks_objects : HashSet
  pub blobs : HashSet
  pub shares : HashSet

abbrev pub nothing_live : LiveSet
nothing_live = record {
  commits = [];
  trees = [];
  manifests = [];
  chunks_objects = [];
  blobs = [];
  shares = [];
}

-- The store that is walked, the keys of the tenant, and the calls of other crates.
pub record Source : Type 1 where
  pub store : ObjectStore
  pub state : store.State
  pub primitives : Primitives
  pub floats : Floats
  pub toml : Toml floats
  pub parse_toml : Bytes → Option (Table floats toml)
  pub parse_envelope_toml : Bytes → Option EncryptedManifestEnvelope
  pub keys : Option TenantKeys

-- An error of the source, or no fuel left.
pub data WalkError : Type 0 where
  failed : OmpError → WalkError
  out_of_fuel : WalkError

abbrev pub path_key_of : Option TenantKeys → Option Bytes
path_key_of none = none
path_key_of (some k) = some k.path_key

-- The line of a header among lines of any other kind.
abbrev pub known_line :
    Headers → Option Bytes → Option Bytes → Option Bytes → Result OmpError Headers
known_line h (some rest) _ _ = do tree ← parse_hash rest; ok (record h { tree = some tree })
known_line h none (some rest) _ = do
  parent ← parse_hash rest
  ok (record h { parents = h.parents ++ parent ∷ [] })
known_line h none none (some rest) = do
  author ← parse_author rest
  ok (record h { author = some author })
known_line h none none none = ok h

unfoldable pub read_known_lines : Headers → List Bytes → Result OmpError Headers
read_known_lines h [] = ok h
read_known_lines h (line ∷ lines) =
    let more = (do
      h' ←
          known_line h (strip_prefix (codes "tree ") line) (strip_prefix (codes "parent ") line)
            (strip_prefix (codes "author ") line)
      read_known_lines h' lines) in
    if is_empty line then ok h else more

-- The headers of a commit whose message is sealed.
unfoldable pub parse_headers_only : Bytes → Result OmpError Commit
parse_headers_only bytes = do
  reject_if (not (is_utf8 bytes)) OmpError.corrupt
  h ← read_known_lines no_headers (lines bytes)
  tree ← ok_or h.tree OmpError.corrupt
  author ← ok_or h.author OmpError.corrupt
  ok (record { tree = tree; parents = h.parents; author = author; message = [] })

abbrev pub or_headers : Bytes → Result OmpError Commit → Result OmpError Commit
or_headers bytes (ok c) = ok c
or_headers bytes (err OmpError.unauthorized) = parse_headers_only bytes
or_headers bytes (err e) = err e

unfoldable pub parse_commit_headers : Primitives → Bytes → Result OmpError Commit
parse_commit_headers p bytes = or_headers bytes (parse_with_commit_key p none bytes)

abbrev pub insert_blobs : List Hash → LiveSet → LiveSet
insert_blobs [] live = live
insert_blobs (h ∷ hashes) live = insert_blobs hashes (record live { blobs = insert h live.blobs })

abbrev pub mark_commit : Hash → LiveSet → LiveSet
mark_commit h live = record live { commits = insert h live.commits }

abbrev pub mark_tree : Hash → LiveSet → LiveSet
mark_tree h live = record live { trees = insert h live.trees }

abbrev pub mark_manifest : Hash → LiveSet → LiveSet
mark_manifest h live = record live { manifests = insert h live.manifests }

abbrev pub mark_chunks : Hash → LiveSet → LiveSet
mark_chunks h live = record live { chunks_objects = insert h live.chunks_objects }

-- `live.shares.insert` for each of the list.
abbrev pub insert_shares : List Hash → LiveSet → LiveSet
insert_shares [] live = live
insert_shares (h ∷ hashes) live =
    insert_shares hashes (record live { shares = insert h live.shares })

-- A queue, its end first, with hashes pushed one after the other.
abbrev pub pushed : List Hash → List Hash → List Hash
pushed [] queue = queue
pushed (h ∷ hashes) queue = pushed hashes (h ∷ queue)

module _ (r : Source) where
  -- The content of an object of the type given.
  unfoldable pub fetch : Bytes → Hash → Result OmpError Bytes
  fetch expected h = do
    found ← r.store.get r.state h
    (type, body) ← ok_or found OmpError.not_found
    reject_if (not (beq type expected)) OmpError.corrupt
    ok body

  unfoldable pub walk_source : Hash → LiveSet → Result OmpError LiveSet
  walk_source h live = do
    found ← r.store.get r.state h
    (type, body) ← ok_or found OmpError.not_found
    if beq type (codes "blob")
        then ok (insert_blobs (h ∷ []) live)
        else if beq type (codes "chunks")
        then (do
          parsed ← Chunks.parse body
          ok (insert_blobs (map (λ (e : ChunkEntry). e.hash) parsed.entries) (mark_chunks h live)))
        else err OmpError.corrupt

  -- The manifest in a body that is no plain manifest, where there are keys.
  abbrev pub open_sealed_manifest :
      Option TenantKeys → Bytes → Result OmpError (Option (Manifest r.floats))
  open_sealed_manifest none body = ok none
  open_sealed_manifest (some k) body = do
    env ← parse_envelope r.parse_envelope_toml body
    (manifest, _) ←
        open_envelope r.primitives r.floats r.toml r.parse_toml env k.manifest_key k.data_key
    ok (some manifest)

  abbrev pub or_sealed :
      Bytes → Result OmpError (Manifest r.floats) → Result OmpError (Option (Manifest r.floats))
  or_sealed body (ok m) = ok (some m)
  or_sealed body (err _) = open_sealed_manifest r.keys body

  -- The manifest in a body, plain or sealed; `none` where it is sealed and there are no keys.
  unfoldable pub read_manifest : Bytes → Result OmpError (Option (Manifest r.floats))
  read_manifest body = or_sealed body (Manifest.parse r.floats r.toml r.parse_toml body)

  abbrev pub walk_contents : Option (Manifest r.floats) → LiveSet → Result OmpError LiveSet
  walk_contents none live = ok live
  walk_contents (some m) live =
      walk_source m.source_hash (insert_blobs (map (λ (e : Bytes × Hash). e.1) m.probe_hashes) live)

  unfoldable pub walk_manifest : Hash → LiveSet → Result OmpError LiveSet
  walk_manifest h live = if has h live.manifests then ok live else (do
    body ← fetch (codes "manifest") h
    found ← read_manifest body
    walk_contents found (mark_manifest h live))

  -- One round of the loop over the entries of a tree, given what walks a tree below it.
  abbrev pub walk_entry :
      (Hash → LiveSet → Result WalkError LiveSet) → Mode → Hash → LiveSet → Result WalkError LiveSet
  walk_entry below Mode.tree h live = below h live
  walk_entry below Mode.manifest h live = map_err WalkError.failed (walk_manifest h live)
  walk_entry below Mode.blob h live = ok (insert_blobs (h ∷ []) live)

  unfoldable pub walk_entries :
      (Hash → LiveSet → Result WalkError LiveSet)
      → List (Bytes × Entry)
      → LiveSet
      → Result WalkError LiveSet
  walk_entries below [] live = ok live
  walk_entries below ((_, e) ∷ entries) live = do
    live' ← walk_entry below e.mode e.hash live
    walk_entries below entries live'

  unfoldable pub load_tree : Hash → Result OmpError Tree
  load_tree h = do
    body ← fetch (codes "tree") h
    parse_with_path_key r.primitives (path_key_of r.keys) body

  unfoldable pub walk_tree : ℕ → Hash → LiveSet → Result WalkError LiveSet
  walk_tree zero h live = err WalkError.out_of_fuel
  walk_tree (suc fuel) h live = elim (has h live.trees) [
    | true ↦ ok live
    | false ↦ (do
      tree ← map_err WalkError.failed (load_tree h)
      walk_entries (walk_tree fuel) tree.entries (mark_tree h live))
  ]

  unfoldable pub load_commit : Hash → Result OmpError Commit
  load_commit h = do body ← fetch (codes "commit") h; parse_commit_headers r.primitives body

  -- The loop over the queue, whose end comes first. The fuel is spent on commits that are new.
  unfoldable pub walk_commits : ℕ → ℕ → List Hash → LiveSet → Result WalkError LiveSet
  walk_commits depth fuel [] live = ok live
  walk_commits depth zero (h ∷ queue) live = elim (has h live.commits) [
    | true ↦ walk_commits depth zero queue live
    | false ↦ err WalkError.out_of_fuel
  ]
  walk_commits depth (suc fuel) (h ∷ queue) live = elim (has h live.commits) [
    | true ↦ walk_commits depth (suc fuel) queue live
    | false ↦ (do
      commit ← map_err WalkError.failed (load_commit h)
      live' ← walk_tree depth commit.tree (mark_commit h live)
      walk_commits depth fuel (pushed commit.parents queue) live')
  ]

  unfoldable pub walk : ℕ → ℕ → List Hash → List Hash → Result WalkError LiveSet
  walk depth fuel roots also_include_shares = do
    live ← walk_commits depth fuel (pushed roots []) nothing_live
    ok (insert_shares also_include_shares live)
