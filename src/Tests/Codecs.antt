-- ===== src/Tests/Codecs.antt =====
-- Hex, hashes, frames, chunk lists, statuses, types, patterns and ref expressions.
use open_memory_protocol.Base.{
  ◌↔◌, ◌≤◌, All, length, ℕ, List, [], ◌∷◌, ◌++◌, Bool, true, false, ok, refl, ◌≡◌, ◌⊎◌, ◌<◌, arith,
  map, some,
}
use open_memory_protocol.Base.Bytes.{Bytes, codes, beq}
use open_memory_protocol.Base.Decimal.{parse_uint}
use open_memory_protocol.Error.{OmpError, http_status, code}
use open_memory_protocol.Error.Statuses.{http_status-code, IsServerFault}
use open_memory_protocol.Hex.RoundTrip.{to_lower}
use open_memory_protocol.Hash.{IsHash, hex, from_str}
use open_memory_protocol.Hash.Text.{from_str-hex, hex-from_str}
use open_memory_protocol.Object
use open_memory_protocol.Object.{ObjectType, frame, parse_framed}
use open_memory_protocol.Object.Framing.{parse_framed-frame, parse_framed_sound}
use open_memory_protocol.Chunks
use open_memory_protocol.Chunks.{ChunksBody, ChunkEntry}
use open_memory_protocol.Chunks.RoundTrip.{parse-serialize_chunks}
use open_memory_protocol.Schema.{reverse_onto, mime_matches, slugify}
use open_memory_protocol.Schema.Glob.{mime_matches_iff, Matches}
use open_memory_protocol.Schema.Slug.{slugify-IsSpaced, IsSpaced, StartsWithLetter}
use open_memory_protocol.Query.Evaluate.{lowercase}
use open_memory_protocol.Tenant.{new, is_tenant_byte}
use open_memory_protocol.Tenant.Ids.{new_iff}
use open_memory_protocol.Tests.Fixtures.{hash_1, hash_1-IsHash}

from_str-hex_example : from_str (hex hash_1) ≡ ok hash_1
from_str-hex_example = from_str-hex hash_1 hash_1-IsHash

hex-from_str_example : IsHash hash_1 × (hex hash_1 ≡ map to_lower (hex hash_1))
hex-from_str_example = hex-from_str (hex hash_1) hash_1 (from_str-hex hash_1 hash_1-IsHash)

http_status-code_example :
    ((http_status (code OmpError.conflict) ≡ 500) ↔ IsServerFault OmpError.conflict)
    × ((400 ≤ http_status (code OmpError.conflict)) × (http_status (code OmpError.conflict) < 500)
        ⊎ IsServerFault OmpError.conflict)
http_status-code_example = http_status-code OmpError.conflict

parse_framed-frame_example :
    parse_framed (frame ObjectType.blob (codes "hi")) ≡ ok (ObjectType.blob, codes "hi")
parse_framed-frame_example = parse_framed-frame ObjectType.blob (codes "hi") (omega arith)

abbrev framed_hi : Bytes
framed_hi = codes "blob 2" ++ 0 ∷ codes "hi"

framed_hi_parses : parse_framed framed_hi ≡ ok (ObjectType.blob, codes "hi")
unfolding parse_framed open_memory_protocol.Base.Bytes.split_once
    open_memory_protocol.Base.Utf8.is_utf8 parse_uint Object.parse beq
framed_hi_parses = refl

parse_framed_sound_example :
    (size : Bytes) × (framed_hi ≡ (Object.as_str ObjectType.blob ++ 32 ∷ size) ++ 0 ∷ codes "hi")
    × (parse_uint size ≡ some (length (codes "hi")))
parse_framed_sound_example =
    parse_framed_sound framed_hi ObjectType.blob (codes "hi") framed_hi_parses

abbrev two_chunks : ChunksBody
two_chunks = record {
  entries = record { hash = hash_1; length = 5 } ∷ record { hash = hash_1; length = 7 } ∷ [];
}

parse-serialize_chunks_example : Chunks.parse (Chunks.serialize two_chunks) ≡ ok two_chunks
parse-serialize_chunks_example =
    parse-serialize_chunks two_chunks
      ((hash_1-IsHash, omega arith), ((hash_1-IsHash, omega arith), tt))

mime_matches_iff_example :
    (mime_matches (codes "Text/*") (codes "text/plain") ≡ true)
    ↔ Matches (lowercase (codes "Text/*")) (lowercase (codes "text/plain"))
mime_matches_iff_example = mime_matches_iff (codes "Text/*") (codes "text/plain")

new_iff_example : (new (codes "team_1") ≡ ok (codes "team_1")) ↔ (
    (codes "team_1" ≡ codes "team_1")
    × (1 ≤ length (codes "team_1"))
    × (length (codes "team_1") ≤ 64)
    × All (λ c. is_tenant_byte c ≡ true) (codes "team_1"))
new_iff_example = new_iff (codes "team_1") (codes "team_1")

slugify-IsSpaced_example :
    (r : List ℕ) × ((slugify (codes "Hello, World!") ≡ reverse_onto r [])
      × (IsSpaced r × StartsWithLetter r))
slugify-IsSpaced_example = slugify-IsSpaced (codes "Hello, World!")
