-- ===== src/Lib.antt =====
-- A verification library for the Open Memory Protocol: a content-addressed store of objects (blobs,
-- trees, manifests, commits and chunk lists) for each tenant, with paths through nested trees, schemas
-- that turn files into manifests, and a query language over the manifests.
--
-- How the parts interact: crates/omp-core/src/paths.rs reads, puts and deletes an entry at a path by
-- loading and storing trees through the trait `ObjectStore`; a tree (tree.rs) is lines of text with
-- modes, hashes (hash.rs, hex.rs) and names, and where the tenant has a path key the names are sealed
-- (crates/omp-crypto/src/aead.rs) under nonces that keys.rs derives. Objects are framed by object.rs;
-- large files are chunk lists (chunks.rs) that upload sessions (uploads.rs) put together. Commits
-- (commit.rs) name a root tree and their parents; refs.rs finds them from refs and walks their history.
-- gc.rs walks from commits through trees and manifests (manifest.rs, encrypted_manifest.rs) to blobs and
-- marks what is live. store/disk.rs keeps objects, refs and HEAD in files. query.rs tokenizes, parses and
-- evaluates predicates over manifests.
--
-- The files, each for the source file of that name under crates/omp-core/src unless another is named:
--   Base       names, lists, results, bytes, UTF-8, trims, decimals, 64-bit integers, ordered maps, sets
--   Error      error.rs: variants, codes, statuses
--   Hex, Hash  hex.rs and hash.rs
--   Object     object.rs: types, `frame`, `parse_framed`
--   Chunks     chunks.rs
--   Crypto     aead.rs of crates/omp-crypto/src, and `derive_nonce` of keys.rs
--   Tree       tree.rs; `insert`, `remove`, `get` on entries in name order, the four codec functions
--   Store      the trait of store/mod.rs: `put` and `get`, and what clients of a map rely on
--   Paths      paths.rs over any store: `split`, `get_at`, `put_at`, `delete_at` with a path key or none
--   Query      query.rs: the syntax, with Query.Lexer, Query.Parser and Query.Evaluate
--   Uploads    uploads.rs: sessions, `write_chunk`, `assemble`
--   Commit     commit.rs: authors, `serialize_with_commit_key`, `parse_with_commit_key`
--   Refs       refs.rs: HEAD and ref expressions over the methods that read them; Refs.History has
--              `nth_ancestor`, `resolve_ref` and `log`
--   Toml       the documents of the crate `toml_edit`, which manifest.rs builds and reads
--   Manifest   manifest.rs: a manifest to its document and back
--   EncryptedManifest, Keys  encrypted_manifest.rs: reading envelopes; the record of keys.rs
--   Gc         gc.rs: `walk` and what it calls; Gc.Live says what the walk follows from an object
--   Disk       store/disk.rs: a map from paths to files, with objects, streams, refs and HEAD;
--              Disk.Trees has paths.rs over it. A `put` where a file is leaves that file, so Disk.Trees is
--              about runs that come out the same over Disk.Careful, which refuses another object there
--   Audit      audit.rs over the disk store: `append`, `read_chain`, `read_chain_verified`
--   Walker     walker.rs: the classification of paths and the ignore patterns
--   Schema     schema.rs: field types, slugs, MIME patterns
--   Tenant     tenant.rs
--   Registry   registry.rs: the registry in memory; Registry.Reachable has its operations as steps
--   Tests      the theorems at concrete inputs
--
-- How the code is modelled: a byte string is a list of numbers, fallible functions return `Result` with
-- the source's error variant but not its message, and a map in key order is a list in key order. The
-- store's state is passed on explicitly. The cipher, HKDF, SHA-256 and floating-point arithmetic are
-- parameters, with what their documentation promises as named hypotheses (Crypto.Sealing,
-- Disk.Objects), and so are zlib and the parsers of TOML. Sizes and offsets are natural numbers, with the
-- bounds of 64 bits tested where the code tests them.
--
-- Fuel: the tokenizer's loop has as much as the text has bytes, since each round reads a byte or more;
-- the parser's calls have four for each token and four more, since at most four calls nest before a
-- token is read. The walk of gc.rs has one unit for each commit that it marks, and a depth of nested trees:
-- the number of known hashes is enough for the one, and one more for the other, since every nested call
-- marks a tree. The loop of `read_chain_verified` takes any fuel, as nothing bounds it in the code: the
-- length of a chain that ends is enough. Every other function is recursive on its input; the log of refs.rs
-- is recursive on the entries that it may still list and on its queue.
--
-- Not modelled: file-system failures, and paths that lead to folders or through files, the canonical TOML
-- text, the engine, probes, and the services around the core (gateway, server, builder, marketplace,
-- events, the remote store), which are I/O for the most part.
pub mod Base
pub mod Error
pub mod Hex
pub mod Hash
pub mod Object
pub mod Chunks
pub mod Crypto
pub mod Tree
pub mod Store
pub mod Paths
pub mod Query
pub mod Tests
pub mod Uploads
pub mod Commit
pub mod Refs
pub mod Toml
pub mod Manifest
pub mod EncryptedManifest
pub mod Keys
pub mod Disk
pub mod Audit
pub mod Gc
pub mod Schema
pub mod Tenant
pub mod Walker
pub mod Registry
