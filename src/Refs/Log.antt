-- ===== src/Refs/Log.antt =====
-- What `log` of crates/omp-core/src/refs.rs lists.
use open_memory_protocol.Base.{
  ℕ, zero, suc, ◌≤◌, List, [], ◌∷◌, ◌++◌, false, Option, none, some, Result, ok, ◌>>=◌, >>=-eq-ok,
  All, All-map, length, Bool-cases, ◌≡◌, ◌≢◌, refl, inl, inr, arith,
}
use open_memory_protocol.Base.Bytes.{Bytes, beq, beq_iff}
use open_memory_protocol.Base.HashSet.{HashSet, has, insert, has-insert, has-insert_keeps}
use open_memory_protocol.Error.{OmpError}
use open_memory_protocol.Hash.{Hash}
use open_memory_protocol.Object
use open_memory_protocol.Object.{ObjectType}
use open_memory_protocol.Crypto.{Primitives}
use open_memory_protocol.Commit
use open_memory_protocol.Commit.{Commit}
use open_memory_protocol.Store.{ObjectStore}
use open_memory_protocol.Refs.History.{log_from, log_commit, log}

module _ (o : ObjectStore) (p : Primitives) (s : o.State) where
  -- An entry that stands in the store as a commit under its hash.
  abbrev pub IsStored : Hash × Commit → Type 0
  IsStored (h, c) =
      (content : Bytes) × ((o.get s h ≡ ok (some (Object.as_str ObjectType.commit, content)))
        × (Commit.parse p content ≡ ok c))

abbrev pub Distinct : List (Hash × Commit) → Type 0
Distinct [] = Unit
Distinct (e ∷ out) = All (λ d. d.0 ≢ e.0) out × Distinct out

-- The first entry, where there is one, has the hash given.
abbrev pub StartsAt : Hash → List (Hash × Commit) → Type 0
StartsAt h [] = Unit
StartsAt h (e ∷ _) = e.0 ≡ h

module _ (o : ObjectStore) (p : Primitives) where
  open o use {State}

  -- A piece of the log that has no commit seen before it.
  abbrev IsPiece : State → ℕ → HashSet → List (Hash × Commit) → Type 0
  IsPiece s room seen out =
      (length out ≤ room)
      × All (λ e. has e.0 seen ≡ false) out
      × Distinct out
      × All (IsStored o p s) out

  unseen :
      (h k : Hash) (seen : HashSet) → has k (insert h seen) ≡ false → (has k seen ≡ false) × (k ≢ h)
  unseen h k seen n = elim (Bool-cases (has k seen)) [
    | inl y ↦ absurd (cc (n, has-insert_keeps k h seen y))
    | inr m ↦ (m, λ e. (let q = has-insert h seen in cc (rw e at n, q)))
  ]

  nothing :
      (s : State) (room : ℕ) (seen : HashSet) (out : List (Hash × Commit))
      → out ≡ []
      → IsPiece s room seen out
  nothing s room seen out e = rw e (omega arith, tt, tt, tt)

  module _ (s : State) (room : ℕ) (h : Hash) (queue : List Hash) (seen : HashSet)
      (new : has h seen ≡ false)
      (more : (c : Commit) (rest : List (Hash × Commit))
        → log_from o p s room (c.parents ++ queue) (insert h seen) ≡ ok rest
        → IsPiece s room (insert h seen) rest) where
    log_commit_lem :
        (found : Option (Bytes × Bytes)) (out : List (Hash × Commit))
        → o.get s h ≡ ok found
        → log_commit o p found (λ content. do
          commit ← Commit.parse p content
          rest ← log_from o p s room (commit.parents ++ queue) (insert h seen)
          ok ((h, commit) ∷ rest))
          ≡ ok out
        → IsPiece s (suc room) seen out
    log_commit_lem none out g e = nothing s _ seen out (cc e)
    log_commit_lem (some (type, content)) out g e =
        elim (Bool-cases (beq type (Object.as_str ObjectType.commit))) [
          | inr n ↦ nothing s _ seen out (cc (rw n at e))
          | inl y ↦
              let (c, q, e₁) = >>=-eq-ok (Commit.parse p content) _ (rw y at e) in
              let (rest, r, e₂) =
                >>=-eq-ok (log_from o p s room (c.parents ++ queue) (insert h seen)) _ e₁ in
              let (len, fresh, distinct, stored) = more c rest r in
              let f : (h, c) ∷ rest ≡ out = cc e₂ in
              let t = (beq_iff type (Object.as_str ObjectType.commit)).0 y in
              rw (← f) (
                omega (arith, len),
                (
                  new,
                  All-map (λ e. has e.0 (insert h seen) ≡ false) (λ e. has e.0 seen ≡ false)
                      (λ e n. (unseen h e.0 seen n).0) rest fresh,
                ),
                (
                  All-map (λ e. has e.0 (insert h seen) ≡ false) (λ e. e.0 ≢ h)
                      (λ e n. (unseen h e.0 seen n).1) rest fresh,
                  distinct,
                ),
                ((content, (rw t at g, q)), stored),
              )
        ]

  log_from_lem :
      (s : State) (room : ℕ) (queue : List Hash) (seen : HashSet) (out : List (Hash × Commit))
      → log_from o p s room queue seen ≡ ok out
      → IsPiece s room seen out
  unfolding log_from
  log_from_lem s room [] seen out e = nothing s _ seen out (cc e)
  log_from_lem s zero (h ∷ queue) seen out e = nothing s _ seen out (cc e)
  log_from_lem s (suc room) (h ∷ queue) seen out e = elim (Bool-cases (has h seen)) [
    | inl y ↦ log_from_lem s (suc room) queue seen out (rw (y, log_from) at e)
    | inr n ↦
        let (found, g, k) = >>=-eq-ok (o.get s h) _ (rw (n, log_from) at e) in
        log_commit_lem s room h queue seen n
          (λ c rest. log_from_lem s room (c.parents ++ queue) (insert h seen) rest) found out g k
  ]

  empty_out :
      (out : List (Hash × Commit))
      → (r : Result OmpError (List (Hash × Commit))) → r ≡ ok []
      → r ≡ ok out
      → out ≡ []
  empty_out out r n e = cc (n, e)

  log_commit-StartsAt :
      (s : State) (room : ℕ) (h : Hash) (found : Option (Bytes × Bytes))
      (out : List (Hash × Commit))
      → log_commit o p found (λ content. do
        commit ← Commit.parse p content
        rest ← log_from o p s room (commit.parents ++ []) (insert h [])
        ok ((h, commit) ∷ rest))
        ≡ ok out
      → StartsAt h out
  log_commit-StartsAt s room h none out e = rw (empty_out out _ refl e) tt
  log_commit-StartsAt s room h (some (type, content)) out e =
      elim (Bool-cases (beq type (Object.as_str ObjectType.commit))) [
        | inr n ↦ rw (empty_out out _ refl (rw n at e)) tt
        | inl y ↦
            let (c, q, e₁) = >>=-eq-ok (Commit.parse p content) _ (rw y at e) in
            let (rest, r, e₂) =
              >>=-eq-ok (log_from o p s room (c.parents ++ []) (insert h [])) _ e₁ in
            let f : (h, c) ∷ rest ≡ out = cc e₂ in rw (← f) refl
      ]

  log_from-StartsAt :
      (s : State) (room : ℕ) (h : Hash) (out : List (Hash × Commit))
      → log_from o p s room (h ∷ []) [] ≡ ok out
      → StartsAt h out
  unfolding log_from
  log_from-StartsAt s zero h out e = rw (empty_out out _ refl e) tt
  log_from-StartsAt s (suc room) h out e =
      let (found, _, k) = >>=-eq-ok (o.get s h) _ e in log_commit-StartsAt s room h found out k

  -- What `log` returns: no more than `max` commits, no commit twice, the first of them at the hash
  -- given, and each one parsed from the object of type commit that the store has under its hash.
  pub log_lem :
      (s : State) (head : Hash) (max : ℕ) (out : List (Hash × Commit))
      → log o p s head max ≡ ok out
      → (length out ≤ max) × StartsAt head out × Distinct out × All (IsStored o p s) out
  unfolding log
  log_lem s head max out e =
      let (len, _, distinct, stored) = log_from_lem s max (head ∷ []) [] out e in
      (len, log_from-StartsAt s max head out e, distinct, stored)
