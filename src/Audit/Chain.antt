-- ===== src/Audit/Chain.antt =====
-- What an `append` of crates/omp-core/src/audit.rs does to the chain.
use open_memory_protocol.Base.{
  ℕ, zero, suc, ◌<◌, List, ◌∷◌, true, false, not, Bool-cases, Option, none, some, ok, >>=-eq-ok,
  ok_or, ok_or-eq-ok, reject_if-eq-ok, length, ◌≡◌, ◌⊎◌, inl, inr, refl, ap, sym, ◌∙◌, arith,
}
use open_memory_protocol.Base.Bytes.{Bytes, codes, beq, beq_iff, beq_refl, split, strip_prefix}
use open_memory_protocol.Query.Evaluate.{contains_text, starts_with}
use open_memory_protocol.Base.Decimal.{u64_limit}
use open_memory_protocol.Error.{OmpError}
use open_memory_protocol.Hash.{Hash, IsHash}
use open_memory_protocol.Disk
use open_memory_protocol.Disk.{
  ref_path, is_bad_ref, Codecs, Files, read_ref, write_ref, object_path,
}
use open_memory_protocol.Disk.Objects.{put-IsHash, IsCodec, get-put}
use open_memory_protocol.Disk.RefFiles.{read_ref-IsHash, get-write_ref, read_ref-write_ref}
use open_memory_protocol.Audit.{
  AuditEntry, AuditCodecs, audit_object_type, audit_head_ref, encode, decode, append, fetch,
  read_from, read_chain,
}

abbrev pub IsParent : Option Hash → Type 0
IsParent none = Unit
IsParent (some h) = IsHash h

-- What `ciborium` documents of the derived codec: decoding undoes encoding, and a hash that is decoded
-- has 32 bytes.
pub record IsAuditCodec (z : AuditCodecs) : Type 0 where
  pub disk : IsCodec z.disk
  pub reads : (e : AuditEntry) (b : Bytes) → z.into_writer e ≡ some b → z.from_reader b ≡ some e
  pub hashes : (b : Bytes) (e : AuditEntry) → z.from_reader b ≡ some e → IsParent e.parent

pub head-IsParent :
    (files : Files) (parent : Option Hash)
    → read_ref files audit_head_ref ≡ ok parent
    → IsParent parent
head-IsParent files none e = tt
head-IsParent files (some h) e = read_ref-IsHash files audit_head_ref h e

head_path : ref_path audit_head_ref ≡ ok (audit_head_ref, false)
unfolding ref_path is_bad_ref contains_text starts_with strip_prefix split beq
head_path = refl

module _ (z : AuditCodecs) where
  pub fetch-eq-ok :
      (files : Files) (h : Hash) (content : Bytes)
      → fetch z files h ≡ ok content
      → Disk.get z.disk files h ≡ ok (some (audit_object_type, content))
  unfolding fetch
  fetch-eq-ok files h content e =
      let (found, f, e₁) = >>=-eq-ok (Disk.get z.disk files h) _ e in
      let ((type, content'), o, e₂) = >>=-eq-ok (ok_or found OmpError.not_found) _ e₁ in
      let (good, e₃) =
        reject_if-eq-ok (not (beq type audit_object_type)) OmpError.corrupt (ok content') e₂ in
      let t : beq type audit_object_type ≡ true = ground arith in
      let q : (type, content') ≡ (audit_object_type, content) =
        cc ((beq_iff type audit_object_type).0 t, e₃) in
      f ∙ ap ok (ok_or-eq-ok found _ o) ∙ ap (λ x. ok (some x)) q

  fetch-get :
      (files : Files) (h : Hash) (content : Bytes)
      → Disk.get z.disk files h ≡ ok (some (audit_object_type, content))
      → fetch z files h ≡ ok content
  unfolding fetch beq
  fetch-get files h content e = rw e refl

  pub decode-eq-ok : (b : Bytes) (e : AuditEntry) → decode z b ≡ ok e → z.from_reader b ≡ some e
  unfolding decode
  decode-eq-ok b e d = ok_or-eq-ok (z.from_reader b) OmpError.internal d

  decode-ok : (b : Bytes) (e : AuditEntry) → z.from_reader b ≡ some e → decode z b ≡ ok e
  unfolding decode
  decode-ok b e d = rw d refl

  -- What is read from a store whose audit objects are also in another is read from the other.
  read_from_keeps :
      (codec : IsAuditCodec z) (files files' : Files)
      → ((h : Hash) (content : Bytes)
          → IsHash h
          → Disk.get z.disk files h ≡ ok (some (audit_object_type, content))
          → Disk.get z.disk files' h ≡ ok (some (audit_object_type, content)))
      → (room : ℕ) (next : Option Hash) (out : List AuditEntry) → IsParent next
      → read_from z files room next ≡ ok out
      → read_from z files' room next ≡ ok out
  unfolding read_from
  read_from_keeps codec files files' keeps room none out g e = e
  read_from_keeps codec files files' keeps zero (some h) out g e = e
  read_from_keeps codec files files' keeps (suc room) (some h) out g e =
      let (content, f, e₁) = >>=-eq-ok (fetch z files h) _ e in
      let (entry, d, e₂) = >>=-eq-ok (decode z content) _ e₁ in
      let (rest, r, e₃) = >>=-eq-ok (read_from z files room entry.parent) _ e₂ in
      let f' = fetch-get files' h content (keeps h content g (fetch-eq-ok files h content f)) in
      let parent = codec.hashes content entry (decode-eq-ok content entry d) in
      rw (f', d, read_from_keeps codec files files' keeps room entry.parent rest parent r) e₃

  -- Under the hash of an object put where there was nothing or the same, and elsewhere, what was readable
  -- stays.
  get_keeps :
      (codec : IsCodec z.disk) (files files' : Files) (type content : Bytes) (h : Hash)
      → length content < u64_limit
      → Disk.put z.disk files type content ≡ ok (h, files')
      → (Disk.get z.disk files h ≡ ok none) ⊎ (Disk.get z.disk files h ≡ ok (some (type, content)))
      → (k : Hash) (x : Bytes × Bytes) → IsHash k
      → Disk.get z.disk files k ≡ ok (some x)
      → Disk.get z.disk files' k ≡ ok (some x)
  get_keeps codec files files' type content h lt e old k x g q =
      rw (get-put z.disk codec files files' type content h k lt g e old)
        (elim (Bool-cases (beq h k)) [
          | inr d ↦ rw d q
          | inl y ↦
              let same = (beq_iff h k).0 y in
              rw y (elim old [
                | inl gone ↦ (let q' = rw same at gone in absurd (cc (q', q)))
                | inr there ↦ (let q' = rw same at there in cc (q', q))
              ])
        ])

  module _ (codec : IsAuditCodec z) where
    -- After an entry is appended, under whose hash the store had nothing or that very entry, the chain
    -- read to one entry more is the entry, with the former head as its parent, before what the chain
    -- read to before.
    pub read_chain-append :
        (files files' : Files) (entry : AuditEntry) (parent : Option Hash) (bytes : Bytes)
        (h : Hash) (limit : ℕ) (out : List AuditEntry)
        → read_ref files audit_head_ref ≡ ok parent
        → z.into_writer (record entry { parent = parent }) ≡ some bytes
        → length bytes < u64_limit
        → (Disk.get z.disk files h ≡ ok none)
          ⊎ (Disk.get z.disk files h ≡ ok (some (audit_object_type, bytes)))
        → append z files entry ≡ ok (h, files')
        → read_chain z files limit ≡ ok out
        → read_chain z files' (suc limit) ≡ ok (record entry { parent = parent } ∷ out)
    unfolding read_chain read_from append encode
    read_chain-append files files' entry parent bytes h limit out p w lt old e r =
        let e₁ = rw (p, w) at e in
        let ((hash, files₁), q, e₂) =
          >>=-eq-ok (Disk.put z.disk files audit_object_type bytes) _ e₁ in
        let (files₂, q₂, e₃) = >>=-eq-ok (write_ref files₁ audit_head_ref hash) _ e₂ in
        let same : hash ≡ h = cc e₃ in
        let end : files₂ ≡ files' = cc e₃ in
        let put₁ : Disk.put z.disk files audit_object_type bytes ≡ ok (h, files₁) =
          q ∙ ap (λ k. ok (k, files₁)) same in
        let write₁ : write_ref files₁ audit_head_ref h ≡ ok files' =
          (ap (write_ref files₁ audit_head_ref) (sym same) ∙ q₂ ∙ ap ok end) in
        let ih = put-IsHash z.disk codec.disk files files₁ audit_object_type bytes h put₁ in
        let keeps : (k : Hash) (content : Bytes)
            → IsHash k
            → Disk.get z.disk files k ≡ ok (some (audit_object_type, content))
            → Disk.get z.disk files' k ≡ ok (some (audit_object_type, content)) =
          λ k content g f.
            get-write_ref z.disk files₁ files' k h (codes "audit/HEAD") write₁
            ∙ get_keeps codec.disk files files₁ audit_object_type bytes h lt put₁ old k
                (audit_object_type, content) g f in
        let there : Disk.get z.disk files' h ≡ ok (some (audit_object_type, bytes)) =
          (get-write_ref z.disk files₁ files' h h (codes "audit/HEAD") write₁
            ∙ get-put z.disk codec.disk files files₁ audit_object_type bytes h h lt ih put₁ old
            ∙ (rw (beq_refl h) refl)) in
        let head : read_ref files' audit_head_ref ≡ ok (some h) =
          (read_ref-write_ref files₁ files' audit_head_ref audit_head_ref audit_head_ref
              audit_head_ref false false h ih head_path head_path write₁
            ∙ (rw (beq_refl audit_head_ref) refl)) in
        let rest =
          read_from_keeps codec files files' keeps limit parent out (head-IsParent files parent p)
            (rw p at r) in
        let entry' = record entry { parent = parent } in
        rw
          (
            head,
            fetch-get files' h bytes there,
            decode-ok bytes entry' (codec.reads entry' bytes w),
            rest,
          )
          refl
