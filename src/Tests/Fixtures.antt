-- ===== src/Tests/Fixtures.antt =====
-- A cipher that adds sixteen zeros, and an object store in memory.
use open_memory_protocol.Base.{
  take-append, ◌≤◌, ℕ, zero, suc, ◌+◌, ◌-◌, ◌*◌, ◌/◌, ◌%◌, List, [], ◌∷◌, ◌++◌, Option, none, some,
  ok, length, take, All-append, length-append, ◌≡◌, refl, arith, if◌then◌else◌,
}
use open_memory_protocol.Base.Bytes.{Bytes, beq}
use open_memory_protocol.Hash.{Hash, IsHash}
use open_memory_protocol.Crypto.{Primitives}
use open_memory_protocol.Crypto.Sealing.{IsSound}
use open_memory_protocol.Hex.RoundTrip.{IsBytes}
use open_memory_protocol.Store.{ObjectStore}

abbrev pub zeros : ℕ → Bytes
zeros zero = []
zeros (suc n) = 0 ∷ zeros n

pub length-zeros : (n : ℕ) → length (zeros n) ≡ n
length-zeros zero = refl
length-zeros (suc n) = omega (arith, length-zeros n)

pub zeros-IsBytes : (n : ℕ) → IsBytes (zeros n)
zeros-IsBytes zero = tt
zeros-IsBytes (suc n) = (omega arith, zeros-IsBytes n)

abbrev pub toy_primitives : Primitives
toy_primitives = record {
  encrypt = λ key nonce aad m. some (m ++ zeros 16);
  decrypt = λ key nonce aad c. some (take (length c - 16) c);
  hkdf = λ key info n. some (zeros n);
}

take-tagged : (m : Bytes) → take (length (m ++ zeros 16) - 16) (m ++ zeros 16) ≡ m
take-tagged m =
    let n : length m ≡ length (m ++ zeros 16) - 16 = omega (arith, length-append m (zeros 16)) in
    take-append m (zeros 16) (length (m ++ zeros 16) - 16) n

pub toy_primitives-IsSound : IsSound toy_primitives
toy_primitives-IsSound = record {
  decrypts = λ key nonce aad m c e. (let q : c ≡ m ++ zeros 16 = cc e in rw (q, take-tagged m));
  tagged = λ key nonce aad m c e.
      (let q : c ≡ m ++ zeros 16 = cc e in rw q (length-append m (zeros 16)));
  bytes = λ key nonce aad m c e b.
      (let q : c ≡ m ++ zeros 16 = cc e in
        rw q (All-append (λ x. suc x ≤ 256) m (zeros 16) b (zeros-IsBytes 16)));
  expands =
      λ key info out n e. (let q : out ≡ zeros n = cc e in rw q (length-zeros n, zeros-IsBytes n));
}

abbrev pub hash_1 : Hash
hash_1 = 171 ∷ zeros 31

pub hash_1-IsHash : IsHash hash_1
hash_1-IsHash = (omega (arith, length-zeros 31), (omega arith, zeros-IsBytes 31))

-- A checksum in place of SHA-256.
abbrev checksum : ℕ → Bytes → ℕ
checksum acc [] = acc
checksum acc (c ∷ s) = checksum ((acc * 31 + c + 1) % 65521) s

abbrev toy_hash : Bytes → Bytes → Hash
toy_hash type content =
    let x = checksum 7 (type ++ 0 ∷ content) in x % 256 ∷ x / 256 % 256 ∷ zeros 30

abbrev Objects : Type 0
Objects = List (Hash × (Bytes × Bytes))

abbrev find : Objects → Hash → Option (Bytes × Bytes)
find [] h = none
find ((k, x) ∷ s) h = if beq k h then some x else find s h

abbrev pub toy_store : ObjectStore
toy_store = record {
  State = Objects;
  get = λ s h. ok (find s h);
  put = λ s type content. ok (toy_hash type content, (toy_hash type content, (type, content)) ∷ s);
}
