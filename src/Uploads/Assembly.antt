-- ===== src/Uploads/Assembly.antt =====
-- What `assemble` of crates/omp-core/src/uploads.rs returns.
use mathlib.Core.List.{Permᴰ}
use open_memory_protocol.Base.{
  ◌≤◌, ◌<◌, ◌≢◌, All-map, suc, take-append, drop-append, ==-refl, List, ℕ, ◌+◌, [], ◌∷◌, ◌++◌, take,
  drop, All, length, length-append, append_assoc, append-nil, ok, >>=-eq-ok, ◌≡◌, refl, sym, ◌∙◌,
  ap, arith,
}
use open_memory_protocol.Base.Bytes.{Bytes}
use open_memory_protocol.Uploads.Sorting.{AreApart, sort_by_offset-Perm}
use open_memory_protocol.Uploads.{
  ChunkFiles, Sessions, Session, load_session, insert_chunk, sort_by_offset, splice, assemble,
}

-- The chunk stands in `buf` at its offset.
abbrev pub StandsIn : Bytes → ℕ × Bytes → Type 0
StandsIn buf (offset, bytes) = take (length bytes) (drop offset buf) ≡ bytes

module _ (P : ℕ × Bytes → Type 0) where
  All-insert_chunk :
      (o : ℕ) (b : Bytes) (files : ChunkFiles)
      → All P (insert_chunk o b files)
      → P (o, b) × All P files
  unfolding insert_chunk
  All-insert_chunk o b [] h = h
  All-insert_chunk o b ((o', b') ∷ files) h = let ih = All-insert_chunk o b files in ground arith

  All-sort_by_offset : (files : ChunkFiles) → All P (sort_by_offset files) → All P files
  unfolding sort_by_offset
  All-sort_by_offset [] h = h
  All-sort_by_offset ((o, b) ∷ files) h =
      let (p, rest) = All-insert_chunk o b (sort_by_offset files) h in
      (p, All-sort_by_offset files rest)

StandsIn-append :
    (out buf bytes rest : Bytes) (offset : ℕ)
    → out ≡ buf ++ (bytes ++ rest)
    → length buf ≡ offset
    → StandsIn out (offset, bytes)
StandsIn-append out buf bytes rest offset e n = rw (
  e,
  sym n,
  drop-append buf (bytes ++ rest) (length buf) refl,
  take-append bytes rest (length bytes) refl,
)

splice_step :
    (cursor : ℕ) (buf : Bytes) (offset : ℕ) (bytes : Bytes) (files : ChunkFiles) (end : ℕ)
    (out : Bytes)
    → splice cursor buf ((offset, bytes) ∷ files) ≡ ok (end, out)
    → (offset ≡ cursor) × (splice (cursor + length bytes) (buf ++ bytes) files ≡ ok (end, out))
unfolding splice
splice_step cursor buf offset bytes files end out h = ground (arith, h)

splice_lem :
    (cursor : ℕ) (buf : Bytes) (files : ChunkFiles) (end : ℕ) (out : Bytes)
    → length buf ≡ cursor
    → splice cursor buf files ≡ ok (end, out)
    → (length out ≡ end) × (((rest : Bytes) × (out ≡ buf ++ rest)) × All (StandsIn out) files)
unfolding splice
splice_lem cursor buf [] end out n h =
    let same : buf ≡ out = cc h in (cc, (([], sym same ∙ sym (append-nil buf)), tt))
splice_lem cursor buf ((offset, bytes) ∷ files) end out n h =
    let (e, k) = splice_step cursor buf offset bytes files end out h in
    let longer : length (buf ++ bytes) ≡ cursor + length bytes =
      (omega (arith, length-append buf bytes)) in
    let (len, ((rest, q), all)) =
      splice_lem (cursor + length bytes) (buf ++ bytes) files end out longer k in
    let whole : out ≡ buf ++ (bytes ++ rest) = q ∙ append_assoc buf bytes rest in
    (
      len,
      ((bytes ++ rest, whole), (StandsIn-append out buf bytes rest offset whole (n ∙ sym e), all)),
    )

-- What `assemble` returns has the session's declared size, and each chunk file stands in it at its
-- offset.
pub assemble_sound :
    (sessions : Sessions) (id : Bytes) (session : Session) (buf : Bytes)
    → load_session sessions id ≡ ok session
    → assemble sessions id ≡ ok buf
    → (length buf ≡ session.state.declared_size) × All (StandsIn buf) session.chunks
unfolding assemble
assemble_sound sessions id session buf l h =
    let ((end, out), spliced, checked) =
      >>=-eq-ok (splice 0 [] (sort_by_offset session.chunks)) _ (rw l at h) in
    let (len, (_, all)) = splice_lem 0 [] (sort_by_offset session.chunks) end out refl spliced in
    let (e, q) : (out ≡ buf) × (end ≡ session.state.declared_size) = ground (arith, checked) in
    (rw (sym e, sym q) len, All-sort_by_offset (StandsIn buf) session.chunks (rw (sym e) all))

-- Pieces one after the other from an offset, as chunk files.
abbrev pub layout : ℕ → List Bytes → ChunkFiles
layout offset [] = []
layout offset (piece ∷ pieces) = (offset, piece) ∷ layout (offset + length piece) pieces

abbrev pub joined : List Bytes → Bytes
joined [] = []
joined (piece ∷ pieces) = piece ++ joined pieces

insert_chunk-layout :
    (offset : ℕ) (piece : Bytes) (pieces : List Bytes)
    → insert_chunk offset piece (layout (offset + length piece) pieces)
      ≡ layout offset (piece ∷ pieces)
unfolding insert_chunk
insert_chunk-layout offset piece [] = refl
insert_chunk-layout offset piece (next ∷ pieces) = ground arith

sort_by_offset-layout :
    (offset : ℕ) (pieces : List Bytes)
    → sort_by_offset (layout offset pieces) ≡ layout offset pieces
unfolding sort_by_offset
sort_by_offset-layout offset [] = refl
sort_by_offset-layout offset (piece ∷ pieces) =
    rw (sort_by_offset-layout (offset + length piece) pieces)
      (insert_chunk-layout offset piece pieces)

splice-layout :
    (cursor : ℕ) (buf : Bytes) (pieces : List Bytes)
    → splice cursor buf (layout cursor pieces)
      ≡ ok (cursor + length (joined pieces), buf ++ joined pieces)
unfolding splice
splice-layout cursor buf [] = rw (append-nil buf) (ap (λ n. ok (n, buf)) (omega arith))
splice-layout cursor buf (piece ∷ pieces) =
    rw
      (
        ==-refl cursor,
        splice-layout (cursor + length piece) (buf ++ piece) pieces,
        append_assoc buf piece (joined pieces),
        length-append piece (joined pieces),
      )
      (ap (λ n. ok (n, buf ++ (piece ++ joined pieces))) (omega arith))

AreAfter-layout :
    (least offset : ℕ) (pieces : List Bytes)
    → least ≤ offset
    → All (λ e. least ≤ e.0) (layout offset pieces)
AreAfter-layout least offset [] le = tt
AreAfter-layout least offset (piece ∷ pieces) le =
    (le, AreAfter-layout least (offset + length piece) pieces (omega arith))

AreApart-layout :
    (offset : ℕ) (pieces : List Bytes)
    → All (λ piece. 0 < length piece) pieces
    → AreApart (layout offset pieces)
AreApart-layout offset [] _ = tt
AreApart-layout offset (piece ∷ pieces) (p, ps) = (
  All-map (λ e. suc offset ≤ e.0) (λ e. offset ≢ e.0) (λ e le. omega arith)
      (layout (offset + length piece) pieces)
      (AreAfter-layout (suc offset) (offset + length piece) pieces (omega arith)),
  AreApart-layout (offset + length piece) pieces ps,
)

-- A session whose chunk files, in whatever order, are pieces that are not empty laid one after the
-- other from 0, of the declared size in all, is assembled to the pieces joined.
pub assemble-layout :
    (sessions : Sessions) (id : Bytes) (session : Session) (pieces : List Bytes)
    → load_session sessions id ≡ ok session
    → Permᴰ (layout 0 pieces) session.chunks
    → All (λ piece. 0 < length piece) pieces
    → session.state.declared_size ≡ length (joined pieces)
    → assemble sessions id ≡ ok (joined pieces)
unfolding assemble
assemble-layout sessions id session pieces l c n d =
    let sorted : sort_by_offset session.chunks ≡ layout 0 pieces =
      (sym (sort_by_offset-Perm (layout 0 pieces) session.chunks c (AreApart-layout 0 pieces n))
        ∙ sort_by_offset-layout 0 pieces) in
    rw (l, sorted, splice-layout 0 [] pieces, d) (ground arith)
