-- ===== src/Tests/Registries.antt =====
-- A registry of two tenants, after a removal and a change of quotas.
use open_memory_protocol.Base.{ℕ, List, [], ◌∷◌, none, some, Result, ok, refl, ◌≡◌}
use open_memory_protocol.Base.Bytes.{Bytes, codes}
use open_memory_protocol.Registry.{
  Quotas, EncryptionMode, TenantEntry, TenantRegistry, unlimited, hash_token, create_with_mode,
  set_quotas, remove,
}
use open_memory_protocol.Registry.Reachable.{Step, Reachable, AreDistinct, Reachable-AreDistinct}
use open_memory_protocol.Hash.{Hash}
use open_memory_protocol.Tests.Fixtures.{hash_1}

abbrev digest : Bytes → Hash
digest b = hash_1

abbrev tenant : Bytes → Quotas → TenantEntry
tenant id quotas = record {
  id = id;
  token_sha256 = hash_token digest (codes "t");
  quotas = quotas;
  encryption_mode = EncryptionMode.plaintext;
}

abbrev capped : Quotas
capped = record unlimited { bytes = some 9 }

abbrev nobody : TenantRegistry
nobody = record { entries = [] }

abbrev one_tenant : TenantRegistry
one_tenant = record { entries = tenant (codes "ada") unlimited ∷ [] }

abbrev two_tenants : TenantRegistry
two_tenants = record {
  entries = tenant (codes "ada") unlimited ∷ tenant (codes "bob") unlimited ∷ [];
}

abbrev bob_capped : TenantRegistry
bob_capped = record { entries = tenant (codes "ada") unlimited ∷ tenant (codes "bob") capped ∷ [] }

ada_created : Step digest nobody one_tenant
unfolding create_with_mode open_memory_protocol.Registry.by_id open_memory_protocol.Registry.find_id
ada_created = Step.created (codes "ada") unlimited EncryptionMode.plaintext (codes "t") refl

bob_created : Step digest one_tenant two_tenants
unfolding create_with_mode open_memory_protocol.Registry.by_id open_memory_protocol.Registry.find_id
    open_memory_protocol.Base.Bytes.beq
bob_created = Step.created (codes "bob") unlimited EncryptionMode.plaintext (codes "t") refl

bob_limited : Step digest two_tenants bob_capped
unfolding set_quotas open_memory_protocol.Registry.set_first open_memory_protocol.Base.Bytes.beq
bob_limited = Step.quotas_set (codes "bob") capped refl

ada_removed : Step digest bob_capped (record { entries = tenant (codes "bob") capped ∷ [] })
unfolding remove open_memory_protocol.Registry.without_id open_memory_protocol.Base.Bytes.beq
ada_removed = Step.removed (codes "ada") refl

abbrev only_bob : TenantRegistry
only_bob = record { entries = tenant (codes "bob") capped ∷ [] }

Reachable-AreDistinct_example : AreDistinct only_bob.entries
Reachable-AreDistinct_example = Reachable-AreDistinct digest only_bob (
    Reachable.step bob_capped only_bob
      (Reachable.step two_tenants bob_capped
        (Reachable.step one_tenant two_tenants
          (Reachable.step nobody one_tenant Reachable.start ada_created) bob_created)
        bob_limited)
      ada_removed)
