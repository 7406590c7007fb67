-- ===== src/Tenant.antt =====
-- crates/omp-core/src/tenant.rs: tenant ids.
pub mod Ids
use open_memory_protocol.Base.{
  ℕ, [], ◌∷◌, Bool, true, ltb, within, ◌==◌, ◌||◌, ◌&&◌, not, Result, ok, ◌>>◌, reject_if, length,
}
use open_memory_protocol.Base.Bytes.{Bytes}
use open_memory_protocol.Error.{OmpError}

abbrev pub TenantId : Type 0
TenantId = Bytes

abbrev pub is_tenant_byte : ℕ → Bool
is_tenant_byte c = within b'a' b'z' c || within b'0' b'9' c || c == b'_' || c == b'-'

unfoldable pub check_bytes : Bytes → Bool
check_bytes [] = true
check_bytes (c ∷ s) = is_tenant_byte c && check_bytes s

unfoldable pub new : Bytes → Result OmpError TenantId
new s = do
  reject_if (length s == 0 || ltb 64 (length s)) OmpError.invalid_path
  reject_if (not (check_bytes s)) OmpError.invalid_path
  ok s
