-- ===== src/Refs/History.antt =====
-- crates/omp-core/src/refs.rs: `nth_ancestor`, `resolve_ref` and `log`, over an object store.
use open_memory_protocol.Base.{
  ℕ, zero, suc, List, [], ◌∷◌, ◌++◌, not, true, false, if◌then◌else◌, Option, none, some, Result,
  ok, ◌>>=◌, ◌>>◌, ok_or, reject_if,
}
use open_memory_protocol.Base.Bytes.{Bytes, beq}
use open_memory_protocol.Base.HashSet.{HashSet, has, insert}
use open_memory_protocol.Error.{OmpError}
use open_memory_protocol.Hash.{Hash}
use open_memory_protocol.Object
use open_memory_protocol.Object.{ObjectType}
use open_memory_protocol.Crypto.{Primitives}
use open_memory_protocol.Commit
use open_memory_protocol.Commit.{Commit}
use open_memory_protocol.Store.{ObjectStore}
use open_memory_protocol.Refs.{Refs, split_ancestor, start_of}

abbrev pub first : List Hash → Option Hash
first [] = none
first (h ∷ _) = some h

module _ (o : ObjectStore) (p : Primitives) where
  open o use {State}

  -- One round of the loop: the first parent of the commit `cur`.
  unfoldable pub parent_of : State → Hash → Result OmpError Hash
  parent_of s cur = do
    found ← o.get s cur
    (type, content) ← ok_or found OmpError.not_found
    reject_if (not (beq type (Object.as_str ObjectType.commit))) OmpError.corrupt
    commit ← Commit.parse p content
    ok_or (first commit.parents) OmpError.not_found

  unfoldable pub nth_ancestor : State → Hash → ℕ → Result OmpError Hash
  nth_ancestor s cur zero = ok cur
  nth_ancestor s cur (suc n) = do parent ← parent_of s cur; nth_ancestor s parent n

  unfoldable pub resolve_ref : Refs → State → Bytes → Result OmpError Hash
  resolve_ref r s expr = do
    let (base, back) = split_ancestor expr
    start ← start_of r base
    nth_ancestor s start back

  -- What a round of `log` makes of the object found: the walk ends where there is no commit.
  abbrev pub log_commit :
      Option (Bytes × Bytes)
      → (Bytes → Result OmpError (List (Hash × Commit)))
      → Result OmpError (List (Hash × Commit))
  log_commit none next = ok []
  log_commit (some (type, content)) next =
      if beq type (Object.as_str ObjectType.commit) then next content else ok []

  -- The loop of `log`: `room` is what `out` lacks to `max`, and the queue has its end first.
  unfoldable pub log_from : State → ℕ → List Hash → HashSet → Result OmpError (List (Hash × Commit))
  log_from s room [] seen = ok []
  log_from s zero (h ∷ queue) seen = ok []
  log_from s (suc room) (h ∷ queue) seen = elim (has h seen) [
    | true ↦ log_from s (suc room) queue seen
    | false ↦ (do
      found ← o.get s h
      log_commit found (λ content. do
        commit ← Commit.parse p content
        rest ← log_from s room (commit.parents ++ queue) (insert h seen)
        ok ((h, commit) ∷ rest)))
  ]

  unfoldable pub log : State → Hash → ℕ → Result OmpError (List (Hash × Commit))
  log s head max = log_from s max (head ∷ []) []
