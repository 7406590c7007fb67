-- ===== src/Tests/Audits.antt =====
-- An audit chain of one entry in the store in files.
use mathlib.Core.Logic.{◌↔◌}
use open_memory_protocol.Base.{
  All, ℕ, zero, suc, ◌<◌, List, [], ◌∷◌, ◌++◌, Bool, true, none, some, Option, Result, ok, err,
  refl, ◌≡◌, inl, arith,
}
use open_memory_protocol.Base.Bytes.{Bytes, codes}
use open_memory_protocol.Hash.{Hash}
use open_memory_protocol.Base.SortedMap
use open_memory_protocol.Hash.{hex}
use open_memory_protocol.Object.{ObjectType, frame}
use open_memory_protocol.Disk.{read_ref, Codecs, Files, object_path}
use open_memory_protocol.Disk.Objects.{IsIntact, put-IsIntact}
use open_memory_protocol.Disk.RefFiles.{write_ref-IsIntact}
use open_memory_protocol.Audit.{
  AuditValue, AuditEntry, AuditCodecs, ChainError, append, read_chain, read_chain_verified,
  audit_head_ref, decode, fetch,
}
use open_memory_protocol.Audit.Chain.{IsAuditCodec, read_chain-append}
use open_memory_protocol.Audit.Verified.{
  IsClean, read_chain_verified_lem, read_chain_verified_loops,
}
use open_memory_protocol.Tests.Fixtures.{hash_1}
use open_memory_protocol.Tests.Disks.{toy_codecs, toy_codecs-IsCodec, nothing-IsIntact}

-- Entries are written as their events; what is read has no other field.
abbrev event_of : Bytes → AuditEntry
event_of b = record {
  version = 0;
  parent = none;
  at = [];
  tenant = [];
  event = b;
  actor = [];
  details = [];
}

abbrev started : AuditEntry
started = event_of (codes "start")

abbrev write :
    ℕ → Option Hash → Bytes → Bytes → Bytes → Bytes → List (Bytes × AuditValue) → Option Bytes
write zero none [] [] event [] [] = some event
write _ _ _ _ event _ _ = none

-- The codec refuses what it does not write.
abbrev toy_audit : AuditCodecs
toy_audit = record {
  disk = toy_codecs;
  into_writer = λ e. write e.version e.parent e.at e.tenant e.event e.actor e.details;
  from_reader = λ b. some (event_of b);
}

write_lem :
    (v : ℕ) (p : Option Hash) (a t e c : Bytes) (d : List (Bytes × AuditValue)) (b : Bytes)
    → write v p a t e c d ≡ some b
    → some (event_of b)
      ≡ some (record {
        version = v;
        parent = p;
        at = a;
        tenant = t;
        event = e;
        actor = c;
        details = d;
      })
write_lem zero none [] [] e [] [] b h = cc h
write_lem (suc v) p a t e c d b h = absurd (cc h)
write_lem zero (some p) a t e c d b h = absurd (cc h)
write_lem zero none (_ ∷ _) t e c d b h = absurd (cc h)
write_lem zero none [] (_ ∷ _) e c d b h = absurd (cc h)
write_lem zero none [] [] e (_ ∷ _) d b h = absurd (cc h)
write_lem zero none [] [] e [] (_ ∷ _) b h = absurd (cc h)

toy_audit-IsAuditCodec : IsAuditCodec toy_audit
toy_audit-IsAuditCodec = record {
  disk = toy_codecs-IsCodec;
  reads = λ e b h. write_lem e.version e.parent e.at e.tenant e.event e.actor e.details b h;
  hashes = λ b e h. (let q : event_of b ≡ e = cc h in rw (← q) tt);
}

abbrev with_start : Files
with_start =
    SortedMap.insert audit_head_ref (hex hash_1 ++ 10 ∷ [])
      (SortedMap.insert (object_path hash_1) (frame ObjectType.audit (codes "start")) [])

start_appended : append toy_audit [] started ≡ ok (hash_1, with_start)
unfolding append open_memory_protocol.Disk.read_ref open_memory_protocol.Disk.ref_path
    open_memory_protocol.Disk.is_bad_ref open_memory_protocol.Base.Bytes.split
    open_memory_protocol.Base.Bytes.split_head open_memory_protocol.Query.Evaluate.contains_text
    open_memory_protocol.Query.Evaluate.starts_with open_memory_protocol.Base.Bytes.strip_prefix
    open_memory_protocol.Base.Bytes.beq SortedMap.get open_memory_protocol.Audit.encode
    open_memory_protocol.Disk.put open_memory_protocol.Object.parse
    open_memory_protocol.Disk.write_ref
start_appended = refl

read_chain-append_example : read_chain toy_audit with_start 1 ≡ ok (started ∷ [])
unfolding open_memory_protocol.Disk.read_ref open_memory_protocol.Disk.ref_path
    open_memory_protocol.Disk.is_bad_ref open_memory_protocol.Base.Bytes.split
    open_memory_protocol.Base.Bytes.split_head open_memory_protocol.Query.Evaluate.contains_text
    open_memory_protocol.Query.Evaluate.starts_with open_memory_protocol.Base.Bytes.strip_prefix
    open_memory_protocol.Base.Bytes.beq SortedMap.get open_memory_protocol.Disk.get read_chain
    open_memory_protocol.Audit.read_from
read_chain-append_example =
    read_chain-append toy_audit toy_audit-IsAuditCodec [] with_start started none (codes "start")
      hash_1 0 [] refl refl (omega arith) (inl refl) start_appended refl

start_verified : read_chain_verified toy_audit 3 with_start 5 ≡ ok (started ∷ [], true)
unfolding read_chain_verified open_memory_protocol.Audit.verify_from fetch decode
    open_memory_protocol.Disk.get open_memory_protocol.Disk.read_ref
    open_memory_protocol.Disk.ref_path open_memory_protocol.Disk.is_bad_ref
    open_memory_protocol.Base.Bytes.split open_memory_protocol.Base.Bytes.split_head
    open_memory_protocol.Disk.object_path open_memory_protocol.Object.parse_framed
    open_memory_protocol.Object.frame open_memory_protocol.Object.parse
    open_memory_protocol.Object.as_str open_memory_protocol.Object.hash_of
    open_memory_protocol.Base.SortedMap.get open_memory_protocol.Base.SortedMap.insert
    open_memory_protocol.Base.Bytes.beq open_memory_protocol.Base.Bytes.order
    open_memory_protocol.Base.Bytes.split_once open_memory_protocol.Base.Utf8.is_utf8
    open_memory_protocol.Base.Utf8.run open_memory_protocol.Base.Decimal.parse_uint
    open_memory_protocol.Base.Decimal.format_uint open_memory_protocol.Hash.hex
    open_memory_protocol.Hash.from_str open_memory_protocol.Hex.encode
    open_memory_protocol.Base.Trim.trim open_memory_protocol.Base.Trim.trim_start
    open_memory_protocol.Base.Trim.trim_end open_memory_protocol.Base.Trim.skip_white
    open_memory_protocol.Query.Evaluate.contains_text
    open_memory_protocol.Query.Evaluate.starts_with open_memory_protocol.Base.Bytes.strip_prefix
    open_memory_protocol.Hex.hex_char open_memory_protocol.Hex.decode_pairs
    open_memory_protocol.Hash.hex_digit open_memory_protocol.Hex.join
start_verified = refl

abbrev only_start : Files
only_start = SortedMap.insert (object_path hash_1) (frame ObjectType.audit (codes "start")) []

with_start-IsIntact : IsIntact toy_codecs with_start
unfolding open_memory_protocol.Disk.write_ref open_memory_protocol.Disk.ref_path
    open_memory_protocol.Disk.is_bad_ref open_memory_protocol.Base.Bytes.split
    open_memory_protocol.Base.Bytes.split_head open_memory_protocol.Query.Evaluate.contains_text
    open_memory_protocol.Query.Evaluate.starts_with open_memory_protocol.Base.Bytes.strip_prefix
    open_memory_protocol.Base.Bytes.beq open_memory_protocol.Disk.put
    open_memory_protocol.Object.parse SortedMap.insert SortedMap.get
with_start-IsIntact =
    write_ref-IsIntact toy_codecs only_start with_start hash_1 (codes "audit/HEAD") refl (
      put-IsIntact toy_codecs toy_codecs-IsCodec [] only_start (codes "audit") (codes "start")
        hash_1 (omega arith) refl nothing-IsIntact)

-- A codec that reads every entry as one whose parent is the object of the store.
abbrev looping : AuditCodecs
looping = record {
  disk = toy_codecs;
  into_writer = λ e. none;
  from_reader = λ b. some (record (event_of b) { parent = some hash_1 });
}

head_read : read_ref with_start audit_head_ref ≡ ok (some hash_1)
unfolding open_memory_protocol.Audit.verify_from fetch decode open_memory_protocol.Disk.get
    open_memory_protocol.Disk.read_ref open_memory_protocol.Disk.ref_path
    open_memory_protocol.Disk.is_bad_ref open_memory_protocol.Base.Bytes.split
    open_memory_protocol.Base.Bytes.split_head open_memory_protocol.Disk.object_path
    open_memory_protocol.Object.parse_framed open_memory_protocol.Object.frame
    open_memory_protocol.Object.parse open_memory_protocol.Object.as_str
    open_memory_protocol.Object.hash_of open_memory_protocol.Base.SortedMap.get
    open_memory_protocol.Base.SortedMap.insert open_memory_protocol.Base.Bytes.beq
    open_memory_protocol.Base.Bytes.order open_memory_protocol.Base.Bytes.split_once
    open_memory_protocol.Base.Utf8.is_utf8 open_memory_protocol.Base.Utf8.run
    open_memory_protocol.Base.Decimal.parse_uint open_memory_protocol.Base.Decimal.format_uint
    open_memory_protocol.Hash.hex open_memory_protocol.Hash.from_str open_memory_protocol.Hex.encode
    open_memory_protocol.Base.Trim.trim open_memory_protocol.Base.Trim.trim_start
    open_memory_protocol.Base.Trim.trim_end open_memory_protocol.Base.Trim.skip_white
    open_memory_protocol.Query.Evaluate.contains_text
    open_memory_protocol.Query.Evaluate.starts_with open_memory_protocol.Base.Bytes.strip_prefix
    open_memory_protocol.Hex.hex_char open_memory_protocol.Hex.decode_pairs
    open_memory_protocol.Hash.hex_digit open_memory_protocol.Hex.join
head_read = refl

first_fetched : fetch toy_audit with_start hash_1 ≡ ok (codes "start")
unfolding open_memory_protocol.Audit.verify_from fetch decode open_memory_protocol.Disk.get
    open_memory_protocol.Disk.read_ref open_memory_protocol.Disk.ref_path
    open_memory_protocol.Disk.is_bad_ref open_memory_protocol.Base.Bytes.split
    open_memory_protocol.Base.Bytes.split_head open_memory_protocol.Disk.object_path
    open_memory_protocol.Object.parse_framed open_memory_protocol.Object.frame
    open_memory_protocol.Object.parse open_memory_protocol.Object.as_str
    open_memory_protocol.Object.hash_of open_memory_protocol.Base.SortedMap.get
    open_memory_protocol.Base.SortedMap.insert open_memory_protocol.Base.Bytes.beq
    open_memory_protocol.Base.Bytes.order open_memory_protocol.Base.Bytes.split_once
    open_memory_protocol.Base.Utf8.is_utf8 open_memory_protocol.Base.Utf8.run
    open_memory_protocol.Base.Decimal.parse_uint open_memory_protocol.Base.Decimal.format_uint
    open_memory_protocol.Hash.hex open_memory_protocol.Hash.from_str open_memory_protocol.Hex.encode
    open_memory_protocol.Base.Trim.trim open_memory_protocol.Base.Trim.trim_start
    open_memory_protocol.Base.Trim.trim_end open_memory_protocol.Base.Trim.skip_white
    open_memory_protocol.Query.Evaluate.contains_text
    open_memory_protocol.Query.Evaluate.starts_with open_memory_protocol.Base.Bytes.strip_prefix
    open_memory_protocol.Hex.hex_char open_memory_protocol.Hex.decode_pairs
    open_memory_protocol.Hash.hex_digit open_memory_protocol.Hex.join
first_fetched = refl

first_decoded : decode toy_audit (codes "start") ≡ ok started
unfolding decode
first_decoded = refl

abbrev links : List (Hash × Bytes)
links = (hash_1, codes "start") ∷ []

read_chain_verified_lem_example :
    (out : List AuditEntry) × ((v : Bool) × ((read_chain_verified toy_audit 1 with_start 5
          ≡ ok (out, v))
        × (read_chain toy_audit with_start 5 ≡ ok out)
        × ((v ≡ true) ↔ All (IsClean toy_audit with_start) links)))
read_chain_verified_lem_example =
    read_chain_verified_lem toy_audit with_start 1 5 (some hash_1) links head_read
      (refl, first_fetched, (started, (first_decoded, refl))) (omega arith)

start_fetched : fetch looping with_start hash_1 ≡ ok (codes "start")
unfolding open_memory_protocol.Audit.verify_from fetch decode open_memory_protocol.Disk.get
    open_memory_protocol.Disk.read_ref open_memory_protocol.Disk.ref_path
    open_memory_protocol.Disk.is_bad_ref open_memory_protocol.Base.Bytes.split
    open_memory_protocol.Base.Bytes.split_head open_memory_protocol.Disk.object_path
    open_memory_protocol.Object.parse_framed open_memory_protocol.Object.frame
    open_memory_protocol.Object.parse open_memory_protocol.Object.as_str
    open_memory_protocol.Object.hash_of open_memory_protocol.Base.SortedMap.get
    open_memory_protocol.Base.SortedMap.insert open_memory_protocol.Base.Bytes.beq
    open_memory_protocol.Base.Bytes.order open_memory_protocol.Base.Bytes.split_once
    open_memory_protocol.Base.Utf8.is_utf8 open_memory_protocol.Base.Utf8.run
    open_memory_protocol.Base.Decimal.parse_uint open_memory_protocol.Base.Decimal.format_uint
    open_memory_protocol.Hash.hex open_memory_protocol.Hash.from_str open_memory_protocol.Hex.encode
    open_memory_protocol.Base.Trim.trim open_memory_protocol.Base.Trim.trim_start
    open_memory_protocol.Base.Trim.trim_end open_memory_protocol.Base.Trim.skip_white
    open_memory_protocol.Query.Evaluate.contains_text
    open_memory_protocol.Query.Evaluate.starts_with open_memory_protocol.Base.Bytes.strip_prefix
    open_memory_protocol.Hex.hex_char open_memory_protocol.Hex.decode_pairs
    open_memory_protocol.Hash.hex_digit open_memory_protocol.Hex.join
start_fetched = refl

start_decoded :
    decode looping (codes "start") ≡ ok (record (event_of (codes "start")) { parent = some hash_1 })
unfolding decode
start_decoded = refl

read_chain_verified_loops_example :
    read_chain_verified looping 9 with_start 5 ≡ err ChainError.out_of_fuel
read_chain_verified_loops_example =
    read_chain_verified_loops looping with_start 9 5 hash_1 (codes "start")
      (record (event_of (codes "start")) { parent = some hash_1 }) head_read start_fetched
      start_decoded refl
