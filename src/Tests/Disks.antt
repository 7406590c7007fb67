-- ===== src/Tests/Disks.antt =====
-- The store in files, with compression that leaves bytes as they are and a digest of one value.
use open_memory_protocol.Base.{
  ℕ, ◌+◌, ◌<◌, List, [], ◌∷◌, ◌++◌, Bool, true, if◌then◌else◌, none, some, Result, ok, refl, ◌≡◌,
  ◌⊎◌, inl, inr, arith,
}
use open_memory_protocol.Base.Bytes.{Bytes, codes, beq}
use open_memory_protocol.Base.SortedMap
use open_memory_protocol.Hash.{hex}
use open_memory_protocol.Object.{ObjectType, frame}
use open_memory_protocol.Disk.{Codecs, Files, object_path, put, get}
use open_memory_protocol.Disk.Objects.{IsCodec, get-put, IsIntact, put-IsIntact}
use open_memory_protocol.Tests.Fixtures.{hash_1, hash_1-IsHash}

abbrev pub toy_codecs : Codecs
toy_codecs = record { sha256 = λ b. hash_1; compress = λ b. b; inflate = λ b. some b }

pub toy_codecs-IsCodec : IsCodec toy_codecs
toy_codecs-IsCodec = record { inflates = λ b. refl; digests = λ b. hash_1-IsHash }

abbrev with_hi : Files
with_hi = SortedMap.insert (object_path hash_1) (frame ObjectType.blob (codes "hi")) []

put_hi : put toy_codecs [] (codes "blob") (codes "hi") ≡ ok (hash_1, with_hi)
unfolding put open_memory_protocol.Object.parse beq SortedMap.insert SortedMap.get
put_hi = refl

get-put_example :
    get toy_codecs with_hi hash_1
    ≡ (if beq hash_1 hash_1 then ok (some (codes "blob", codes "hi")) else get toy_codecs [] hash_1)
unfolding get SortedMap.get
get-put_example =
    get-put toy_codecs toy_codecs-IsCodec [] with_hi (codes "blob") (codes "hi") hash_1 hash_1
      (omega arith) hash_1-IsHash put_hi (inl refl)

pub nothing-IsIntact : IsIntact toy_codecs []
unfolding get open_memory_protocol.Base.SortedMap.get
nothing-IsIntact = record { stands = λ k type content g e. absurd (cc e) }

put-IsIntact_example : IsIntact toy_codecs with_hi
put-IsIntact_example =
    put-IsIntact toy_codecs toy_codecs-IsCodec [] with_hi (codes "blob") (codes "hi") hash_1
      (omega arith) put_hi nothing-IsIntact

abbrev main_name : Bytes
main_name = codes "refs/heads/main"

abbrev with_main : Files
with_main = SortedMap.insert main_name (hex hash_1 ++ 10 ∷ []) []
