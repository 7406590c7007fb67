-- ===== src/Disk/Objects.antt =====
-- Objects of crates/omp-core/src/store/disk.rs as a map from hashes to types and contents.
use open_memory_protocol.Base.{
  ==_iff, ◌>>=◌, Result-cases, append_assoc, ok_or, ◌∷◌, [], ◌++◌, ◌<◌, ℕ, ◌==◌, if◌then◌else◌,
  Bool-cases, Option, Option-cases, none, some, ok, err, >>=-eq-ok, take, drop, length, List, ◌≡◌,
  ◌⊎◌, inl, inr, refl, sym, arith,
}
use open_memory_protocol.Base.Bytes.{beq-ne, Bytes, beq, beq_iff, beq_refl}
use open_memory_protocol.Base.Decimal.{format_uint, u64_limit}
use open_memory_protocol.Base.SortedMap
use open_memory_protocol.Base.SortedMap.{SortedMap, get-insert}
use open_memory_protocol.Error.{OmpError}
use open_memory_protocol.Hash.{Hash, IsHash, hex}
use open_memory_protocol.Hash.Text.{hex_inj, hex-length}
use open_memory_protocol.Object
use open_memory_protocol.Object.{ObjectType, frame, parse_framed}
use open_memory_protocol.Object.Framing.{as_str-parse, parse_framed-frame}
use open_memory_protocol.Disk.{
  Codecs, Files, object_path, place, put, put_stream, total_of, read_object, get,
}

-- What the crates document: decompression undoes compression, and a digest has 32 bytes.
pub record IsCodec (z : Codecs) : Type 0 where
  pub inflates : (b : Bytes) → z.inflate (z.compress b) ≡ some b
  pub digests : (b : Bytes) → IsHash (z.sha256 b)

long_parts :
    (x y : Bytes)
    → length x ≡ 64
    → length y ≡ 64
    → take 2 x ++ b'/' ∷ drop 2 x ≡ take 2 y ++ b'/' ∷ drop 2 y
    → x ≡ y
long_parts [] y p q e = absurd (omega arith)
long_parts (a ∷ []) y p q e = absurd (omega arith)
long_parts (a ∷ b ∷ x) [] p q e = absurd (omega arith)
long_parts (a ∷ b ∷ x) (c ∷ []) p q e = absurd (omega arith)
long_parts (a ∷ b ∷ x) (c ∷ d ∷ y) p q e = cc e

object_path_inj : (h k : Hash) → IsHash h → IsHash k → object_path h ≡ object_path k → h ≡ k
unfolding object_path
object_path_inj h k p q e =
    hex_inj h k p q (long_parts (hex h) (hex k) (hex-length h p) (hex-length k q) (cc e))

beq-object_path : (h k : Hash) → IsHash h → IsHash k → beq (object_path h) (object_path k) ≡ beq h k
beq-object_path h k p q = elim (Bool-cases (beq h k)) [
  | inl y ↦ (let same = (beq_iff h k).0 y in rw (y, same) (beq_refl (object_path k)))
  | inr d ↦ rw d (
      beq-ne (object_path h) (object_path k)
        (λ e. cc (rw (object_path_inj h k p q e) at d, beq_refl k)))
]

-- Every object that reads stands under the hash of its frame.
pub record IsIntact (z : Codecs) (files : Files) : Type 0 where
  pub stands :
      (k : Hash) (type content : Bytes)
      → IsHash k
      → get z files k ≡ ok (some (type, content))
      → (t : ObjectType) × ((Object.as_str t ≡ type) × (z.sha256 (frame t content) ≡ k))

module _ (z : Codecs) (codec : IsCodec z) where
  pub read_written :
      (type content : Bytes) (t : ObjectType)
      → length content < u64_limit
      → Object.parse type ≡ ok t
      → read_object z (some (z.compress (frame t content))) ≡ ok (some (type, content))
  read_written type content t lt p =
      rw (codec.inflates (frame t content), parse_framed-frame t content lt, as_str-parse type t p)
        refl

  read_nothing : (raw : Option Bytes) → read_object z raw ≡ ok none → raw ≡ none
  read_nothing none e = refl
  read_nothing (some raw) e =
      let (framed, _, e₁) = >>=-eq-ok (ok_or (z.inflate raw) OmpError.corrupt) _ e in
      let ((t, content), _, e₂) = >>=-eq-ok (parse_framed framed) _ e₁ in absurd (cc e₂)

  -- What stands under `k` after an object is placed under `h`.
  get-place :
      (files : Files) (h k : Hash) (type content : Bytes) (t : ObjectType)
      → length content < u64_limit
      → Object.parse type ≡ ok t
      → IsHash h
      → IsHash k
      → (get z files h ≡ ok none) ⊎ (get z files h ≡ ok (some (type, content)))
      → get z (place z files h (frame t content) (SortedMap.get (object_path h) files)) k
        ≡ (if beq h k then ok (some (type, content)) else get z files k)
  unfolding get
  get-place files h k type content t lt p q q' old =
      elim (Option-cases (SortedMap.get (object_path h) files)) [
        | inl n ↦
            let step =
              get-insert (object_path h) (object_path k) (z.compress (frame t content)) files in
            rw (n, step, beq-object_path h k q q')
              (elim (Bool-cases (beq h k)) [
                | inl y ↦ rw y (read_written type content t lt p)
                | inr d ↦ rw d refl
              ])
        | inr (raw, f) ↦ rw f (elim (Bool-cases (beq h k)) [
          | inr d ↦ rw d refl
          | inl y ↦
              (let same = (beq_iff h k).0 y in
                rw (y, ← same)
                  (elim old [
                    | inr there ↦ there
                    | inl gone ↦
                        absurd (cc (read_nothing (SortedMap.get (object_path h) files) gone, f))
                  ]))
        ])
      ]

  pub put-IsHash :
      (files files' : Files) (type content : Bytes) (h : Hash)
      → put z files type content ≡ ok (h, files')
      → IsHash h
  unfolding put
  put-IsHash files files' type content h e =
      let (t, p, e₁) = >>=-eq-ok (Object.parse type) _ e in
      let hash : z.sha256 (frame t content) ≡ h = cc e₁ in
      rw (← hash) (codec.digests (frame t content))

  -- A `put` of an object shorter than 2^64 bytes of a known type, under whose hash the store has
  -- nothing or the same object, returns the hash of the frame, and makes the store the map of before
  -- with the object under that hash, whatever the hash asked for.
  pub get-put :
      (files files' : Files) (type content : Bytes) (h k : Hash)
      → length content < u64_limit
      → IsHash k
      → put z files type content ≡ ok (h, files')
      → (get z files h ≡ ok none) ⊎ (get z files h ≡ ok (some (type, content)))
      → get z files' k ≡ (if beq h k then ok (some (type, content)) else get z files k)
  unfolding put
  get-put files files' type content h k lt g e old =
      let (t, p, e₁) = >>=-eq-ok (Object.parse type) _ e in
      let hash : z.sha256 (frame t content) ≡ h = cc e₁ in
      let placed : place z files (z.sha256 (frame t content)) (frame t content)
            (SortedMap.get (object_path (z.sha256 (frame t content))) files)
          ≡ files' =
        cc e₁ in
      let ih : IsHash h = rw (← hash) (codec.digests (frame t content)) in
      let after = rw hash at placed in
      rw (← after) (get-place files h k type content t lt p ih g old)

  put_intact_at :
      (files files' : Files) (type content : Bytes) (h : Hash)
      → length content < u64_limit
      → put z files type content ≡ ok (h, files')
      → IsIntact z files
      → (k : Hash) (type' content' : Bytes) → IsHash k
      → get z files' k ≡ ok (some (type', content'))
      → (t : ObjectType) × ((Object.as_str t ≡ type') × (z.sha256 (frame t content') ≡ k))
  unfolding put
  put_intact_at files files' type content h lt e intact k type' content' ik found =
      let (t, p, e₁) = >>=-eq-ok (Object.parse type) _ e in
      let framed = frame t content in
      let place_eq : place z files (z.sha256 framed) framed
            (SortedMap.get (object_path (z.sha256 framed)) files)
          ≡ files' =
        cc e₁ in
      elim (Option-cases (SortedMap.get (object_path (z.sha256 framed)) files)) [
        | inr (raw, f) ↦
            let same : files ≡ files' = rw f at place_eq in
            intact.stands k type' content' ik (rw (← same) at found)
        | inl n ↦
            let nothing : get z files (z.sha256 framed) ≡ ok none = unfold get in rw n refl in
            let after =
              get-place files (z.sha256 framed) k type content t lt p (codec.digests framed) ik
                (inl nothing) in
            let found' = rw (← place_eq, after) at found in
            elim (Bool-cases (beq (z.sha256 framed) k)) [
              | inr d ↦ intact.stands k type' content' ik (rw d at found')
              | inl y ↦
                  let q = rw y at found' in
                  let types : type ≡ type' = cc q in
                  let contents : content ≡ content' = cc q in
                  (
                    t,
                    rw (← types, ← contents)
                        (sym (as_str-parse type t p), (beq_iff (z.sha256 framed) k).0 y),
                  )
            ]
      ]

  -- A `put` of an object shorter than 2^64 bytes keeps the invariant that every readable object stands
  -- under the hash of its frame, whatever stood under its hash before.
  pub put-IsIntact :
      (files files' : Files) (type content : Bytes) (h : Hash)
      → length content < u64_limit
      → put z files type content ≡ ok (h, files')
      → IsIntact z files
      → IsIntact z files'
  put-IsIntact files files' type content h lt e intact = record {
    stands = put_intact_at files files' type content h lt e intact;
  }

  framed_in_pieces :
      (t : ObjectType) (content : Bytes)
      → (Object.as_str t ++ b' ' ∷ format_uint (length content) ++ 0 ∷ []) ++ content
        ≡ frame t content
  unfolding frame
  framed_in_pieces t content = simp append_assoc

  -- Streaming an object in pieces is putting the pieces joined where they have the size declared; where
  -- they have not, an object of a known type is refused as an internal error.
  pub put_stream_lem :
      (files : Files) (type : Bytes) (pieces : List Bytes) (size : ℕ)
      → put_stream z files type pieces size ≡ (
          if length (total_of z pieces) == size
          then put z files type (total_of z pieces)
          else (Object.parse type >>= (λ (t : ObjectType). err OmpError.internal)))
  unfolding put_stream put
  put_stream_lem files type pieces size = elim (Bool-cases (length (total_of z pieces) == size)) [
    | inr n ↦ rw n refl
    | inl y ↦
        let same = (==_iff (length (total_of z pieces)) size).0 y in
        elim (Result-cases (Object.parse type)) [
          | inl (e, q) ↦ rw (y, q) refl
          | inr (t, q) ↦ rw (y, q, ← same, framed_in_pieces t (total_of z pieces)) refl
        ]
  ]
