-- ===== src/Keys.antt =====
-- crates/omp-core/src/keys.rs: the keys of a tenant.
use open_memory_protocol.Base.Bytes.{Bytes}

-- The keys without the identity.
pub record TenantKeys : Type 0 where
  pub root : Bytes
  pub data_key : Bytes
  pub manifest_key : Bytes
  pub path_key : Bytes
  pub commit_key : Bytes
  pub share_unwrap_key : Bytes
  pub identity_wrap_key : Bytes
