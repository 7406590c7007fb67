-- ===== src/Tenant/Ids.antt =====
-- Which texts are tenant ids.
use open_memory_protocol.Base.{[], ◌∷◌, ◌≤◌, All, ok, length, ◌≡◌, ◌↔◌, refl, arith, true}
use open_memory_protocol.Base.Bytes.{Bytes}
use open_memory_protocol.Tenant.{TenantId, is_tenant_byte, check_bytes, new}

check_bytes-All : (s : Bytes) → (check_bytes s ≡ true) ↔ All (λ c. is_tenant_byte c ≡ true) s
unfolding check_bytes
check_bytes-All [] = (λ _. tt, λ _. refl)
check_bytes-All (c ∷ s) = let ih = check_bytes-All s in ground arith

-- `TenantId::new` succeeds exactly on texts of 1 to 64 bytes that are all lower-case letters, digits,
-- underscores or dashes, and gives the text unchanged.
pub new_iff :
    (s : Bytes) (t : TenantId)
    → (new s ≡ ok t)
      ↔ ((t ≡ s) × (1 ≤ length s) × (length s ≤ 64) × All (λ c. is_tenant_byte c ≡ true) s)
unfolding new
new_iff s t = let h = check_bytes-All s in (λ e. ground arith, λ g. ground arith)
