-- ===== src/Audit.antt =====
-- crates/omp-core/src/audit.rs: the chain of audit entries, over the disk store. The CBOR codec of the
-- crate `ciborium` is a parameter.
pub mod Chain
pub mod Verified
use open_memory_protocol.Base.{
  ℕ, zero, suc, List, [], ◌∷◌, Bool, true, false, not, ◌&&◌, if◌then◌else◌, Option, none, some,
  Result, ok, err, ◌>>=◌, ◌>>◌, ok_or, map_err, reject_if,
}
use open_memory_protocol.Base.Bytes.{Bytes, codes, beq}
use open_memory_protocol.Base.Int.{ℤ}
use open_memory_protocol.Error.{OmpError}
use open_memory_protocol.Hash.{Hash}
use open_memory_protocol.Object.{ObjectType, hash_of}
use open_memory_protocol.Disk
use open_memory_protocol.Disk.{Codecs, Files, read_ref, write_ref}

-- `AUDIT_OBJECT_TYPE` and `AUDIT_HEAD_REF`
abbrev pub audit_object_type : Bytes
audit_object_type = codes "audit"

abbrev pub audit_head_ref : Bytes
audit_head_ref = codes "refs/audit/HEAD"

mutual
  pub data AuditValue : Type 0 where
    null : AuditValue
    string : Bytes → AuditValue
    int : ℤ → AuditValue
    bool : Bool → AuditValue
    list : AuditValues → AuditValue

  pub data AuditValues : Type 0 where
    nil : AuditValues
    cons : AuditValue → AuditValues → AuditValues

pub record AuditEntry : Type 0 where
  pub version : ℕ
  pub parent : Option Hash
  pub at : Bytes
  pub tenant : Bytes
  pub event : Bytes
  pub actor : Bytes
  pub details : List (Bytes × AuditValue)

-- The calls of `ciborium`, and the codecs of the store.
pub record AuditCodecs : Type 0 where
  pub disk : Codecs
  pub into_writer : AuditEntry → Option Bytes
  pub from_reader : Bytes → Option AuditEntry

-- An error of the source, or no fuel left.
pub data ChainError : Type 0 where
  failed : OmpError → ChainError
  out_of_fuel : ChainError

-- What `out` is with an entry pushed where there is room, and the room after it.
abbrev pub keep_first : ℕ → AuditEntry → List AuditEntry → List AuditEntry
keep_first zero entry out = []
keep_first (suc room) entry out = entry ∷ out

abbrev pub less_one : ℕ → ℕ
less_one zero = zero
less_one (suc room) = room

module _ (z : AuditCodecs) where
  unfoldable pub encode : AuditEntry → Result OmpError Bytes
  encode entry = ok_or (z.into_writer entry) OmpError.internal

  unfoldable pub decode : Bytes → Result OmpError AuditEntry
  decode bytes = ok_or (z.from_reader bytes) OmpError.internal

  unfoldable pub append : Files → AuditEntry → Result OmpError (Hash × Files)
  append files entry = do
    parent ← read_ref files audit_head_ref
    bytes ← encode (record entry { parent = parent })
    (hash, files') ← Disk.put z.disk files audit_object_type bytes
    files'' ← write_ref files' audit_head_ref hash
    ok (hash, files'')

  -- The content of the audit object `h`.
  unfoldable pub fetch : Files → Hash → Result OmpError Bytes
  fetch files h = do
    found ← Disk.get z.disk files h
    (type, content) ← ok_or found OmpError.not_found
    reject_if (not (beq type audit_object_type)) OmpError.corrupt
    ok content

  -- The loop of `read_chain`, with what `out` lacks to `limit`.
  unfoldable pub read_from : Files → ℕ → Option Hash → Result OmpError (List AuditEntry)
  read_from files room none = ok []
  read_from files zero (some h) = ok []
  read_from files (suc room) (some h) = do
    content ← fetch files h
    entry ← decode content
    rest ← read_from files room entry.parent
    ok (entry ∷ rest)

  unfoldable pub read_chain : Files → ℕ → Result OmpError (List AuditEntry)
  read_chain files limit = do head ← read_ref files audit_head_ref; read_from files limit head

  -- The loop of `read_chain_verified`, which goes to the end of the chain whatever the limit.
  unfoldable pub verify_from :
      ℕ → Files → ℕ → Option Hash → Result ChainError (List AuditEntry × Bool)
  verify_from fuel files room none = ok ([], true)
  verify_from zero files room (some h) = err ChainError.out_of_fuel
  verify_from (suc fuel) files room (some h) = do
    content ← map_err ChainError.failed (fetch files h)
    let clean = beq (hash_of z.disk.sha256 ObjectType.audit content) h
    entry ← map_err ChainError.failed (decode content)
    (rest, verified) ← verify_from fuel files (less_one room) entry.parent
    ok (keep_first room entry rest, clean && verified)

  unfoldable pub read_chain_verified : ℕ → Files → ℕ → Result ChainError (List AuditEntry × Bool)
  read_chain_verified fuel files limit = do
    head ← map_err ChainError.failed (read_ref files audit_head_ref)
    verify_from fuel files limit head
