-- ===== src/Registry.antt =====
-- crates/omp-core/src/registry.rs: the tenants of a server in memory. The random generator's token and
-- SHA-256 are parameters; the TOML file is not modelled.
pub mod Reachable
use open_memory_protocol.Base.{
  ℕ, List, [], ◌∷◌, ◌++◌, Bool, true, false, not, ◌==◌, ◌&&◌, if◌then◌else◌, Option, none, some,
  Result, ok, err, ◌>>=◌, ◌>>◌, reject_if, ok_or, length, ltb,
}
use open_memory_protocol.Base.Bytes.{Bytes, beq}
use open_memory_protocol.Error.{OmpError}
use open_memory_protocol.Hex
use open_memory_protocol.Hash.{Hash}
use open_memory_protocol.Tenant.{TenantId}
use open_memory_protocol.Query.Evaluate.{is_some}

pub record Quotas : Type 0 where
  pub bytes : Option ℕ
  pub object_count : Option ℕ
  pub probe_fuel_per_request : Option ℕ
  pub wall_clock_s_per_request : Option ℕ
  pub concurrent_writes : Option ℕ

abbrev pub unlimited : Quotas
unlimited = record {
  bytes = none;
  object_count = none;
  probe_fuel_per_request = none;
  wall_clock_s_per_request = none;
  concurrent_writes = none;
}

abbrev min_of : ℕ → Option ℕ → ℕ
min_of n none = n
min_of n (some cap) = if ltb cap n then cap else n

-- `ProbeLimits` of config.rs.
pub record ProbeLimits : Type 0 where
  pub memory_mb : ℕ
  pub fuel : ℕ
  pub wall_clock_s : ℕ

unfoldable pub clamp_probe : Quotas → ProbeLimits → ProbeLimits
clamp_probe q from_repo = record {
  memory_mb = from_repo.memory_mb;
  fuel = min_of from_repo.fuel q.probe_fuel_per_request;
  wall_clock_s = min_of from_repo.wall_clock_s q.wall_clock_s_per_request;
}

pub data EncryptionMode : Type 0 where
  plaintext : EncryptionMode
  encrypted : Bytes → EncryptionMode

pub record TenantEntry : Type 0 where
  pub id : TenantId
  pub token_sha256 : Bytes
  pub quotas : Quotas
  pub encryption_mode : EncryptionMode

pub record TenantRegistry : Type 0 where
  pub entries : List TenantEntry

-- Whether the bytes, of two texts of one length, are all the same; the source folds their differences.
abbrev all_equal : Bytes → Bytes → Bool
all_equal (a ∷ s) (b ∷ t) = (a == b) && all_equal s t
all_equal _ _ = true

unfoldable pub constant_time_eq : Bytes → Bytes → Bool
constant_time_eq a b = if length a == length b then all_equal a b else false

unfoldable pub find_id : List TenantEntry → TenantId → Option TenantEntry
find_id [] id = none
find_id (e ∷ entries) id = let rest = find_id entries id in if beq e.id id then some e else rest

unfoldable pub by_id : TenantRegistry → TenantId → Option TenantEntry
by_id r id = find_id r.entries id

unfoldable pub find_token : List TenantEntry → Bytes → Option TenantEntry
find_token [] hash = none
find_token (e ∷ entries) hash =
    let rest = find_token entries hash in
    if constant_time_eq e.token_sha256 hash then some e else rest

-- The loop of `retain`.
unfoldable pub without_id : List TenantEntry → TenantId → List TenantEntry
without_id [] id = []
without_id (e ∷ entries) id =
    let rest = without_id entries id in if beq e.id id then rest else e ∷ rest

unfoldable pub remove : TenantRegistry → TenantId → Result OmpError TenantRegistry
remove r id = do
  let entries = without_id r.entries id
  reject_if (length entries == length r.entries) OmpError.not_found
  ok (record { entries = entries })

-- The entries with the quotas of the first of that id set, where there is one.
unfoldable pub set_first : List TenantEntry → TenantId → Quotas → Option (List TenantEntry)
set_first [] id quotas = none
set_first (e ∷ entries) id quotas =
    if beq e.id id
    then some (record e { quotas = quotas } ∷ entries)
    else elim (set_first entries id quotas) [ none ↦ none | some rest ↦ some (e ∷ rest) ]

unfoldable pub set_quotas : TenantRegistry → TenantId → Quotas → Result OmpError TenantRegistry
set_quotas r id quotas = do
  entries ← ok_or (set_first r.entries id quotas) OmpError.not_found
  ok (record { entries = entries })

module _ (sha256 : Bytes → Hash) where
  unfoldable pub hash_token : Bytes → Bytes
  hash_token token = Hex.encode (sha256 token)

  unfoldable pub by_token : TenantRegistry → Bytes → Option TenantEntry
  by_token r token = find_token r.entries (hash_token token)

  -- `token` is what `generate_token` returned.
  unfoldable pub create_with_mode :
      TenantRegistry → TenantId → Quotas → EncryptionMode → Bytes → Result OmpError TenantRegistry
  create_with_mode r id quotas mode token = do
    reject_if (is_some (by_id r id)) OmpError.conflict
    ok (record {
      entries =
          r.entries
          ++ (record {
            id = id;
            token_sha256 = hash_token token;
            quotas = quotas;
            encryption_mode = mode;
          })
            ∷ [];
    })
