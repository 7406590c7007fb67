-- ===== src/Tests/Sessions.antt =====
-- Upload sessions.
use mathlib.Core.List.{Permᴰ}
use open_memory_protocol.Base.{
  arith, ◌↔◌, ◌≤◌, All, length, sym, ℕ, List, [], ◌∷◌, ◌++◌, none, some, ok, Result, refl, ◌≡◌,
  Bool, Bool-cases, inl, inr,
}
use open_memory_protocol.Base.Bytes.{Bytes, codes, beq}
use open_memory_protocol.Base.SortedMap.{get}
use open_memory_protocol.Uploads.{
  Sessions, Session, SessionState, ChunkFiles, load_session, write_chunk, assemble,
}
use open_memory_protocol.Uploads.Bounds.{AreInBounds, write_chunk-AreInBounds}
use open_memory_protocol.Uploads.Assembly.{assemble-layout, assemble_sound, StandsIn}

abbrev state_5 : SessionState
state_5 = record {
  id = codes "u";
  declared_size = 5;
  path = none;
  created_at = codes "2024-01-01T00:00:00Z";
  chunk_size_bytes = 2;
}

abbrev session_with : ChunkFiles → Session
session_with chunks = record { state = state_5; chunks = chunks }

abbrev half : Sessions
half = (codes "u", session_with ((2, codes "cde") ∷ [])) ∷ []

abbrev full : Sessions
full = (codes "u", session_with ((2, codes "cde") ∷ (0, codes "ab") ∷ [])) ∷ []

half-AreInBounds : AreInBounds half
unfolding get
half-AreInBounds id session e = elim (Bool-cases (beq (codes "u") id)) [
  | inl y ↦
      (let q : session_with ((2, codes "cde") ∷ []) ≡ session = cc (rw y at e) in
        rw (sym q) (omega arith, tt))
  | inr n ↦ (let bad = rw n at e in absurd (cc bad))
]

write_chunk-AreInBounds_example : AreInBounds full
unfolding write_chunk load_session get beq open_memory_protocol.Uploads.overflows
    open_memory_protocol.Base.SortedMap.insert open_memory_protocol.Base.Bytes.order
    open_memory_protocol.Uploads.put_file
write_chunk-AreInBounds_example =
    write_chunk-AreInBounds (codes "u") 0 (codes "ab") half full half-AreInBounds refl

assemble_sound_example :
    (length (codes "abcde") ≡ 5)
    × All (StandsIn (codes "abcde")) ((2, codes "cde") ∷ (0, codes "ab") ∷ [])
unfolding load_session assemble get beq open_memory_protocol.Uploads.splice
    open_memory_protocol.Uploads.sort_by_offset open_memory_protocol.Uploads.insert_chunk
assemble_sound_example =
    assemble_sound full (codes "u") (session_with ((2, codes "cde") ∷ (0, codes "ab") ∷ []))
      (codes "abcde") refl refl

assemble-layout_example :
    assemble ((codes "u", session_with ((2, codes "cde") ∷ (0, codes "ab") ∷ [])) ∷ []) (codes "u")
    ≡ ok (codes "abcde")
unfolding load_session get beq
assemble-layout_example =
    assemble-layout ((codes "u", session_with ((2, codes "cde") ∷ (0, codes "ab") ∷ [])) ∷ [])
      (codes "u") (session_with ((2, codes "cde") ∷ (0, codes "ab") ∷ []))
      (codes "ab" ∷ codes "cde" ∷ []) refl (Permᴰ.swap refl refl) (omega arith, (omega arith, tt))
      refl
