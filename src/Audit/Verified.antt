-- ===== src/Audit/Verified.antt =====
-- What `read_chain_verified` of crates/omp-core/src/audit.rs reports.
use mathlib.Core.Bool.{false≢true}
use mathlib.Core.Logic.{◌↔◌}
use open_memory_protocol.Base.{
  ℕ, zero, suc, ◌≤◌, List, [], ◌∷◌, Bool, true, false, ◌&&◌, Option, none, some, ok, err, All,
  length, ◌≡◌, refl, arith,
}
use open_memory_protocol.Base.Bytes.{Bytes, beq, beq_iff}
use open_memory_protocol.Hash.{Hash}
use open_memory_protocol.Object.{ObjectType, hash_of}
use open_memory_protocol.Disk.{Files, read_ref}
use open_memory_protocol.Audit.{
  AuditEntry, AuditCodecs, ChainError, audit_head_ref, decode, fetch, read_from, read_chain,
  keep_first, less_one, verify_from, read_chain_verified,
}

module _ (z : AuditCodecs) (files : Files) where
  -- The hashes and contents of the audit objects from `next` to the end of the chain.
  abbrev pub Follows : Option Hash → List (Hash × Bytes) → Type 0
  Follows next [] = next ≡ none
  Follows next ((h, content) ∷ links) =
      (next ≡ some h)
      × (fetch z files h ≡ ok content)
      × ((entry : AuditEntry) × ((decode z content ≡ ok entry) × Follows entry.parent links))

  -- The object's content hashes to the link that it was read by.
  abbrev pub IsClean : Hash × Bytes → Type 0
  IsClean (h, content) = hash_of z.disk.sha256 ObjectType.audit content ≡ h

  -- What the loop comes to on a chain.
  abbrev Outcome : ℕ → ℕ → Option Hash → List (Hash × Bytes) → Type 0
  Outcome fuel room next links =
      (out : List AuditEntry) × ((v : Bool) × ((verify_from z fuel files room next ≡ ok (out, v))
          × (read_from z files room next ≡ ok out)
          × ((v ≡ true) ↔ All IsClean links)))

  listed :
      (room : ℕ) (h : Hash) (content : Bytes) (entry : AuditEntry) (rest : List AuditEntry)
      → fetch z files h ≡ ok content
      → decode z content ≡ ok entry
      → read_from z files (less_one room) entry.parent ≡ ok rest
      → read_from z files room (some h) ≡ ok (keep_first room entry rest)
  unfolding read_from
  listed zero h content entry rest f d r = refl
  listed (suc room) h content entry rest f d r = rw (f, d, r) refl

  IsClean-iff :
      (h : Hash) (content : Bytes) (w : Bool) (links : List (Hash × Bytes))
      → (w ≡ true) ↔ All IsClean links
      → ((beq (hash_of z.disk.sha256 ObjectType.audit content) h && w) ≡ true)
        ↔ All IsClean ((h, content) ∷ links)
  IsClean-iff h content true links (f, g) = (
    λ e. ((beq_iff (hash_of z.disk.sha256 ObjectType.audit content) h).0 (ground arith), f refl),
    λ (e, all). ground (arith, (beq_iff (hash_of z.disk.sha256 ObjectType.audit content) h).1 e),
  )
  IsClean-iff h content false links (f, g) =
      (λ e. absurd (ground arith), λ (e, all). absurd (false≢true (g all)))

  verify_from_lem :
      (fuel room : ℕ) (next : Option Hash) (links : List (Hash × Bytes))
      → Follows next links
      → length links ≤ fuel
      → Outcome fuel room next links
  unfolding verify_from read_from
  verify_from_lem fuel room next [] e le = rw e ([], (true, (refl, refl, (λ _. tt, λ _. refl))))
  verify_from_lem zero room next ((h, content) ∷ links) e le = absurd (omega arith)
  verify_from_lem (suc fuel) room next ((h, content) ∷ links) (n, f, (entry, (d, more))) le =
      let (rest, (w, (verified, read, iff))) =
        verify_from_lem fuel (less_one room) entry.parent links more (omega arith) in
      rw n (
        keep_first room entry rest,
        (
          (beq (hash_of z.disk.sha256 ObjectType.audit content) h && w),
          (
            rw (f, d, verified) refl,
            listed room h content entry rest f d read,
            IsClean-iff h content w links iff,
          ),
        ),
      )

  -- Where the chain from the head of the audit log ends after as many links as the fuel given at most,
  -- `read_chain_verified` returns the entries of `read_chain` with the same limit, and reports the chain
  -- as verified exactly when the content of each of its objects, those past the limit included, hashes to
  -- the link that the object was read by.
  pub read_chain_verified_lem :
      (fuel limit : ℕ) (head : Option Hash) (links : List (Hash × Bytes))
      → read_ref files audit_head_ref ≡ ok head
      → Follows head links
      → length links ≤ fuel
      → (out : List AuditEntry) × ((v : Bool) × ((read_chain_verified z fuel files limit
              ≡ ok (out, v))
            × (read_chain z files limit ≡ ok out)
            × ((v ≡ true) ↔ All IsClean links)))
  unfolding read_chain_verified read_chain
  read_chain_verified_lem fuel limit head links found follows le =
      let (out, (v, (verified, read, iff))) = verify_from_lem fuel limit head links follows le in
      (out, (v, (rw (found, verified) refl, rw found read, iff)))

module _ (z : AuditCodecs) (files : Files) (h : Hash) (content : Bytes) (entry : AuditEntry)
    (f : fetch z files h ≡ ok content) (d : decode z content ≡ ok entry)
    (p : entry.parent ≡ some h) where
  verify_from_loops :
      (fuel room : ℕ) → verify_from z fuel files room (some h) ≡ err ChainError.out_of_fuel
  unfolding verify_from
  verify_from_loops zero room = refl
  verify_from_loops (suc fuel) room = rw (f, d, p, verify_from_loops fuel (less_one room)) refl

-- Where the object that the head names decodes to an entry that has that object as its parent, no fuel
-- is enough for `read_chain_verified`.
pub read_chain_verified_loops :
    (z : AuditCodecs) (files : Files) (fuel limit : ℕ) (h : Hash) (content : Bytes)
    (entry : AuditEntry)
    → read_ref files audit_head_ref ≡ ok (some h)
    → fetch z files h ≡ ok content
    → decode z content ≡ ok entry
    → entry.parent ≡ some h
    → read_chain_verified z fuel files limit ≡ err ChainError.out_of_fuel
unfolding read_chain_verified
read_chain_verified_loops z files fuel limit h content entry head f d p =
    rw head (verify_from_loops z files h content entry f d p fuel limit)
