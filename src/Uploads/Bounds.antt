-- ===== src/Uploads/Bounds.antt =====
-- The bound on the chunks of `write_chunk` of crates/omp-core/src/uploads.rs.
use mathlib.Core.Path.{subst}
use open_memory_protocol.Base.{
  reject_if-eq-ok, inr, inl, ℕ, ◌+◌, ◌^◌, ◌≤◌, ◌<◌, [], ◌∷◌, All, false, Bool-cases, if◌then◌else◌,
  some, length, ok, >>=-eq-ok, ok_or-eq-ok, ◌≡◌, sym, ◌∙◌, ap, arith,
}
use open_memory_protocol.Base.Bytes.{Bytes, beq}
use open_memory_protocol.Base.SortedMap.{get, insert, get-insert}
use open_memory_protocol.Error.{OmpError}
use open_memory_protocol.Uploads.{
  ChunkFiles, Sessions, Session, load_session, put_file, overflows, write_chunk,
}

-- Every chunk file ends within the declared size.
abbrev pub IsInBounds : Session → Type 0
IsInBounds session =
    All (λ (offset, bytes). offset + length bytes ≤ session.state.declared_size) session.chunks

abbrev pub AreInBounds : Sessions → Type 0
AreInBounds sessions =
    (id : Bytes) (session : Session) → get id sessions ≡ some session → IsInBounds session

All-put_file :
    (P : ℕ × Bytes → Type 0) (offset : ℕ) (bytes : Bytes) (files : ChunkFiles)
    → P (offset, bytes)
    → All P files
    → All P (put_file offset bytes files)
unfolding put_file
All-put_file P offset bytes [] p h = (p, tt)
All-put_file P offset bytes ((o, old) ∷ files) p (q, h) =
    let ih = All-put_file P offset bytes files p h in ground arith

overflows-bound :
    (offset len declared : ℕ)
    → overflows offset len declared ≡ false
    → (offset + len ≤ declared) × (offset + len < 2 ^ 64)
unfolding overflows
overflows-bound offset len declared h = ground arith

-- A write that succeeds, opened up: the session, the test it passed, and the new sessions.
write_chunk_lem :
    (id : Bytes) (offset : ℕ) (bytes : Bytes) (s s' : Sessions)
    → write_chunk id offset bytes s ≡ ok s'
    → (session : Session) × ((get id s ≡ some session)
        × ((overflows offset (length bytes) session.state.declared_size ≡ false)
            × (s'
                ≡ insert id (record session { chunks = put_file offset bytes session.chunks }) s)))
unfolding write_chunk load_session
write_chunk_lem id offset bytes s s' h =
    let (session, loaded, k) = >>=-eq-ok (load_session s id) _ h in
    let found = ok_or-eq-ok (get id s) OmpError.not_found loaded in
    let (f, stored) =
      reject_if-eq-ok (overflows offset (length bytes) session.state.declared_size)
        OmpError.invalid_path _ k in
    (session, (found, (f, cc)))

-- A write that succeeds keeps every session's chunk files within its declared size.
pub write_chunk-AreInBounds :
    (id : Bytes) (offset : ℕ) (bytes : Bytes) (s s' : Sessions)
    → AreInBounds s
    → write_chunk id offset bytes s ≡ ok s'
    → AreInBounds s'
write_chunk-AreInBounds id offset bytes s s' b h j t g =
    let (session, (found, (f, e))) = write_chunk_lem id offset bytes s s' h in
    let (le, lt) = overflows-bound offset (length bytes) session.state.declared_size f in
    let next = record session { chunks = put_file offset bytes session.chunks } in
    let here : IsInBounds next =
      (All-put_file (λ (o, bs). o + length bs ≤ session.state.declared_size) offset bytes
        session.chunks le (b id session found)) in
    let looked : (if beq id j then some next else get j s) ≡ some t =
      (sym (get-insert id j next s) ∙ ap (get j) (sym e) ∙ g) in
    elim (Bool-cases (beq id j)) [
      | inl y ↦ (let q : next ≡ t = cc (rw y at looked) in subst IsInBounds q here)
      | inr n ↦ b j t (rw n at looked)
    ]
