-- ===== src/Crypto/Sealing.antt =====
-- Sealing and opening, over what the cipher promises.
use open_memory_protocol.Base.{
  false, ℕ, suc, ◌+◌, ◌≤◌, ◌∷◌, ◌++◌, ltb, some, ok, >>=-eq-ok, ok_or, ok_or-eq-ok, length,
  length-append, take-append, drop-append, ◌≡◌, arith, All-append,
}
use open_memory_protocol.Base.Bytes.{Bytes}
use open_memory_protocol.Hex.RoundTrip.{IsBytes}
use open_memory_protocol.Crypto.{
  Primitives, CryptoError, seal, open_tagged, open_sealed, derive_nonce,
}

-- What the crates document: decryption undoes encryption, a ciphertext is a message's bytes with a
-- tag of 16 bytes, and HKDF fills the output asked for.
pub record IsSound (p : Primitives) : Type 0 where
  pub decrypts :
      (key nonce aad m c : Bytes)
      → p.encrypt key nonce aad m ≡ some c
      → p.decrypt key nonce aad c ≡ some m
  pub tagged :
      (key nonce aad m c : Bytes) → p.encrypt key nonce aad m ≡ some c → length c ≡ length m + 16
  pub bytes :
      (key nonce aad m c : Bytes) → p.encrypt key nonce aad m ≡ some c → IsBytes m → IsBytes c
  pub expands :
      (key info out : Bytes) (n : ℕ) → p.hkdf key info n ≡ some out → (length out ≡ n) × IsBytes out

module _ (p : Primitives) (sound : IsSound p) where
  -- Opening what was sealed with a nonce of 12 bytes, under the same key and associated data, gives
  -- the plaintext back.
  pub open_sealed-seal :
      (key nonce aad plaintext sealed : Bytes)
      → length nonce ≡ 12
      → seal p key nonce aad plaintext ≡ ok sealed
      → open_sealed p key aad sealed ≡ ok plaintext
  unfolding seal open_sealed open_tagged
  open_sealed-seal key nonce aad m sealed n h =
      let (ct, e, k) = >>=-eq-ok (ok_or (p.encrypt key nonce aad m) CryptoError.aead) _ h in
      let enc = ok_or-eq-ok _ _ e in
      let f : sealed ≡ 1 ∷ nonce ++ ct = cc k in
      let long : ltb (length (1 ∷ nonce ++ ct)) 29 ≡ false =
        ground (arith, length-append nonce ct, sound.tagged key nonce aad m ct enc) in
      rw (
        f,
        long,
        take-append nonce ct 12 n,
        drop-append nonce ct 12 n,
        sound.decrypts key nonce aad m ct enc,
      )

  pub seal-IsBytes :
      (key nonce aad plaintext sealed : Bytes)
      → IsBytes nonce
      → IsBytes plaintext
      → seal p key nonce aad plaintext ≡ ok sealed
      → IsBytes sealed
  unfolding seal
  seal-IsBytes key nonce aad m sealed n b h =
      let (ct, e, k) = >>=-eq-ok (ok_or (p.encrypt key nonce aad m) CryptoError.aead) _ h in
      let f : sealed ≡ 1 ∷ nonce ++ ct = cc k in
      rw f (
        omega arith,
        All-append (λ c. suc c ≤ 256) nonce ct n
            (sound.bytes key nonce aad m ct (ok_or-eq-ok _ _ e) b),
      )

  pub derive_nonce-IsNonce :
      (key label input nonce : Bytes)
      → derive_nonce p key label input ≡ ok nonce
      → (length nonce ≡ 12) × IsBytes nonce
  unfolding derive_nonce
  derive_nonce-IsNonce key label input nonce h =
      sound.expands key (label ++ input) nonce 12 (ground arith)
