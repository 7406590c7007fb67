-- ===== src/EncryptedManifest.antt =====
-- crates/omp-core/src/encrypted_manifest.rs: envelopes around sealed manifests, as they are read. The
-- TOML parsers are parameters.
use open_memory_protocol.Base.{
  Option, Result, ok, ◌>>=◌, ◌>>◌, ok_or, map_err, reject_if, not, ◌==◌, length,
}
use open_memory_protocol.Base.Bytes.{Bytes, codes, beq}
use open_memory_protocol.Base.Utf8.{is_utf8}
use open_memory_protocol.Error.{OmpError}
use open_memory_protocol.Hex
use open_memory_protocol.Crypto.{Primitives, open_sealed}
use open_memory_protocol.Query.{Floats}
use open_memory_protocol.Query.Evaluate.{Manifest}
use open_memory_protocol.Toml.{Toml, Table}
use open_memory_protocol.Manifest

-- `AAD_MANIFEST`, `AAD_CONTENT_KEY_WRAP` and `ALG`
abbrev pub aad_manifest : Bytes
aad_manifest = codes "omp-encrypted-manifest"

abbrev pub aad_content_key_wrap : Bytes
aad_content_key_wrap = codes "omp-content-key-wrap"

abbrev pub alg_name : Bytes
alg_name = codes "chacha20poly1305"

pub record EncryptedManifestEnvelope : Type 0 where
  pub alg : Bytes
  pub wrapped_content_key : Bytes
  pub sealed_body : Bytes

-- `parse_toml` is `toml::from_str` at the type of envelopes.
unfoldable pub parse_envelope :
    (Bytes → Option EncryptedManifestEnvelope) → Bytes → Result OmpError EncryptedManifestEnvelope
parse_envelope parse_toml bytes = do
  reject_if (not (is_utf8 bytes)) OmpError.corrupt
  env ← ok_or (parse_toml bytes) OmpError.corrupt
  reject_if (not (beq env.alg alg_name)) OmpError.corrupt
  ok env

module _ (p : Primitives) (fl : Floats) (toml : Toml fl) where
  -- `open`, with the manifest key and the data key.
  unfoldable pub open_envelope :
      (Bytes → Option (Table fl toml))
      → EncryptedManifestEnvelope
      → Bytes
      → Bytes
      → Result OmpError (Manifest fl × Bytes)
  open_envelope parse_toml env manifest_key data_key = do
    wrapped ← Hex.decode env.wrapped_content_key
    content_key ←
        map_err (λ _. OmpError.unauthorized) (open_sealed p data_key aad_content_key_wrap wrapped)
    reject_if (not (length content_key == 32)) OmpError.corrupt
    sealed ← Hex.decode env.sealed_body
    body ← map_err (λ _. OmpError.unauthorized) (open_sealed p manifest_key aad_manifest sealed)
    manifest ← Manifest.parse fl toml parse_toml body
    ok (manifest, content_key)
