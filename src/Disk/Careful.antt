-- ===== src/Disk/Careful.antt =====
-- The disk store of crates/omp-core/src/store/disk.rs as an object store, and the same store with a `put`
-- that refuses an object where another stands under its hash, or of 2^64 bytes or more. Where a run over
-- the second gives what the run over the first gives, no `put` of it met such an object.
use open_memory_protocol.Base.{
  not, leb, Bool, true, false, ◌&&◌, ◌<◌, length, ◌>>=◌, ◌>>◌, reject_if, reject_if-eq-ok,
  >>=-eq-ok, Option, none, some, Result, ok, err, Bool-cases, Option-cases, ◌≡◌, ◌⊎◌, inl, inr,
  refl, ◌∙◌, arith,
}
use open_memory_protocol.Base.Bytes.{Bytes, beq, beq_iff, beq_refl}
use open_memory_protocol.Base.Decimal.{u64_limit}
use open_memory_protocol.Base.SortedMap
use open_memory_protocol.Base.SortedMap.{get-insert}
use open_memory_protocol.Error.{OmpError}
use open_memory_protocol.Hash.{Hash}
use open_memory_protocol.Object
use open_memory_protocol.Object.{ObjectType, frame}
use open_memory_protocol.Store.{ObjectStore, IsContentStore}
use open_memory_protocol.Disk.{Codecs, Files, object_path, place, put, get}
use open_memory_protocol.Disk.Objects.{IsCodec, put-IsHash, read_written, get-put}

abbrev pub is_other : Bytes → Bytes → Result OmpError (Option (Bytes × Bytes)) → Bool
is_other type content (ok none) = false
is_other type content (ok (some (t, c))) = not (beq t type && beq c content)
is_other type content (err _) = true

module _ (z : Codecs) where
  abbrev pub disk_store : ObjectStore
  disk_store = record { State = Files; get = λ s h. get z s h; put = λ s t c. put z s t c }

  -- What stands in the files under the hash that a `put` returns.
  abbrev checked : Files → Bytes → Bytes → Hash × Files → Result OmpError (Hash × Files)
  checked files type content (h, files') = do
    reject_if (is_other type content (get z files h)) OmpError.internal
    ok (h, files')

  unfoldable pub put_careful : Files → Bytes → Bytes → Result OmpError (Hash × Files)
  put_careful files type content = do
    reject_if (leb u64_limit (length content)) OmpError.internal
    done ← put z files type content
    checked files type content done

  abbrev pub careful_store : ObjectStore
  careful_store = record { State = Files; get = λ s h. get z s h; put = λ s t c. put_careful s t c }

is_other-false :
    (type content : Bytes) (r : Result OmpError (Option (Bytes × Bytes)))
    → is_other type content r ≡ false
    → (r ≡ ok none) ⊎ (r ≡ ok (some (type, content)))
is_other-false type content (ok none) e = inl refl
is_other-false type content (ok (some (t, c))) e =
    let p : t ≡ type = (beq_iff t type).0 (ground arith) in
    let q : c ≡ content = (beq_iff c content).0 (ground arith) in inr (rw (p, q) refl)
is_other-false type content (err _) e = absurd (cc e)

module _ (z : Codecs) (codec : IsCodec z) (files files' : Files) (type content : Bytes) (h : Hash)
    (e : put_careful z files type content ≡ ok (h, files')) where
  -- What a `put` that is not refused met.
  careful_lem :
      (length content < u64_limit)
      × (put z files type content ≡ ok (h, files'))
      × ((get z files h ≡ ok none) ⊎ (get z files h ≡ ok (some (type, content))))
  careful_lem =
      unfold put_careful in
      let (short, e₁) = reject_if-eq-ok (leb u64_limit (length content)) OmpError.internal _ e in
      let ((k, files₁), p, e₂) = >>=-eq-ok (put z files type content) _ e₁ in
      let (met, e₃) =
        reject_if-eq-ok (is_other type content (get z files k)) OmpError.internal (ok (k, files₁))
          e₂ in
      let keys : k ≡ h = cc e₃ in
      let after : files₁ ≡ files' = cc e₃ in
      (
        ground arith,
        rw (← keys, ← after) p,
        rw keys at (is_other-false type content (get z files k) met),
      )

module _ (z : Codecs) (codec : IsCodec z) (files files' : Files) (type content : Bytes) (h : Hash)
    (lt : length content < u64_limit) (e : put z files type content ≡ ok (h, files')) where
  -- Either a file was there already and nothing changed, or the object's file is new.
  put_cases :
      (files ≡ files')
      ⊎ ((t : ObjectType) × ((Object.parse type ≡ ok t)
            × (SortedMap.get (object_path h) files ≡ none)
            × (SortedMap.insert (object_path h) (z.compress (frame t content)) files ≡ files')))
  put_cases =
      unfold put in
      let (t, p, e₁) = >>=-eq-ok (Object.parse type) _ e in
      let hash : z.sha256 (frame t content) ≡ h = cc e₁ in
      let placed : place z files (z.sha256 (frame t content)) (frame t content)
            (SortedMap.get (object_path (z.sha256 (frame t content))) files)
          ≡ files' =
        cc e₁ in
      let placed' = rw hash at placed in
      elim (Option-cases (SortedMap.get (object_path h) files)) [
        | inl gone ↦ inr (t, (p, gone, rw gone at placed'))
        | inr (raw, found) ↦ inl (rw found at placed')
      ]

  put_keeps :
      (k : Hash) (x : Bytes × Bytes) → get z files k ≡ ok (some x) → get z files' k ≡ ok (some x)
  unfolding get
  put_keeps k x found = elim put_cases [
    | inl same ↦ rw (← same) found
    | inr (t, (p, gone, made)) ↦
        rw (← made, get-insert (object_path h) (object_path k) (z.compress (frame t content)) files)
          (elim (Bool-cases (beq (object_path h) (object_path k))) [
            | inr d ↦ rw d found
            | inl y ↦
                let same = (beq_iff (object_path h) (object_path k)).0 y in
                let missing = rw same at gone in
                let nothing = rw missing at found in absurd (cc nothing)
          ])
  ]

  put_only :
      (k : Hash) (x : Bytes × Bytes)
      → get z files' k ≡ ok (some x)
      → (x ≡ (type, content)) ⊎ (get z files k ≡ ok (some x))
  unfolding get
  put_only k x found = elim put_cases [
    | inl same ↦ inr (rw same found)
    | inr (t, (p, gone, made)) ↦
        let found' =
          rw
            (
              ← made,
              get-insert (object_path h) (object_path k) (z.compress (frame t content)) files,
            )
            at found in
        elim (Bool-cases (beq (object_path h) (object_path k))) [
          | inr d ↦ inr (rw d at found')
          | inl y ↦
              let read = rw y at found' in inl (cc (read, read_written z codec type content t lt p))
        ]
  ]

-- A `put` that is not refused does what a `put` into a map does.
pub careful_store-IsContentStore : (z : Codecs) → IsCodec z → IsContentStore (careful_store z)
careful_store-IsContentStore z codec = record {
  put_hash = λ s s' type content h e.
      let (_, p, _) = careful_lem z codec s s' type content h e in
      put-IsHash z codec s s' type content h p;
  get-put = λ s s' type content h e.
      let (lt, p, old) = careful_lem z codec s s' type content h e in
      get-put z codec s s' type content h h lt (put-IsHash z codec s s' type content h p) p old
      ∙ (rw (beq_refl h) refl);
  get_keeps = λ s s' type content h k x e found.
      let (lt, p, _) = careful_lem z codec s s' type content h e in
      put_keeps z codec s s' type content h lt p k x found;
  get_only = λ s s' type content h k x e found.
      let (lt, p, _) = careful_lem z codec s s' type content h e in
      put_only z codec s s' type content h lt p k x found;
}
