-- ===== src/Crypto.antt =====
-- crates/omp-crypto/src/aead.rs: the sealed-blob format around ChaCha20-Poly1305, and the nonce
-- derivation of crates/omp-core/src/keys.rs. The cipher and HKDF are third-party code: parameters.
pub mod Sealing
use open_memory_protocol.Base.{
  ℕ, ◌+◌, [], ◌∷◌, ◌++◌, not, ltb, ◌==◌, if◌then◌else◌, Option, Result, ok, err, ◌>>=◌, ◌>>◌,
  reject_if, ok_or, map_err, length, take, drop,
}
use open_memory_protocol.Base.Bytes.{Bytes}
use open_memory_protocol.Error.{OmpError}

-- The calls of the crates `chacha20poly1305` and `hkdf`; `none` is their error.
pub record Primitives : Type 0 where
  -- key, nonce, associated data, message
  pub encrypt : Bytes → Bytes → Bytes → Bytes → Option Bytes
  -- key, nonce, associated data, ciphertext with its tag
  pub decrypt : Bytes → Bytes → Bytes → Bytes → Option Bytes
  -- input key, info, length of the output
  pub hkdf : Bytes → Bytes → ℕ → Option Bytes

pub data CryptoError : Type 0 where
  argon2 hkdf aead wrap invalid : CryptoError

abbrev pub alg_chacha20_poly1305 : ℕ
alg_chacha20_poly1305 = 1

abbrev pub tag_size : ℕ
tag_size = 16

abbrev pub nonce_size : ℕ
nonce_size = 12

module _ (p : Primitives) where
  unfoldable pub seal : Bytes → Bytes → Bytes → Bytes → Result CryptoError Bytes
  seal key nonce aad plaintext = do
    ct ← ok_or (p.encrypt key nonce aad plaintext) CryptoError.aead
    ok (alg_chacha20_poly1305 ∷ nonce ++ ct)

  -- `open` after its length test, which excludes the first clause.
  unfoldable pub open_tagged : Bytes → Bytes → Bytes → Result CryptoError Bytes
  open_tagged key aad [] = err CryptoError.invalid
  open_tagged key aad (alg ∷ rest) = do
    reject_if (not (alg == alg_chacha20_poly1305)) CryptoError.invalid
    ok_or (p.decrypt key (take nonce_size rest) aad (drop nonce_size rest)) CryptoError.aead

  unfoldable pub open_sealed : Bytes → Bytes → Bytes → Result CryptoError Bytes
  open_sealed key aad sealed = do
    reject_if (ltb (length sealed) (1 + nonce_size + tag_size)) CryptoError.invalid
    open_tagged key aad sealed

  unfoldable pub derive_nonce : Bytes → Bytes → Bytes → Result OmpError Bytes
  derive_nonce key label input =
      map_err (λ _. OmpError.internal) (ok_or (p.hkdf key (label ++ input) 12) CryptoError.hkdf)
