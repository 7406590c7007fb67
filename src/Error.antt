-- ===== src/Error.antt =====
-- crates/omp-core/src/error.rs: the error variants, their codes and HTTP statuses. The variants'
-- message texts are not modelled.
pub mod Statuses
use open_memory_protocol.Base.{ℕ, String}

pub data ErrorCode : Type 0 where
  not_found schema_validation_failed ingest_validation_failed probe_failed conflict : ErrorCode
  invalid_path unauthorized quota_exceeded encryption_mode_mismatch internal : ErrorCode

pub data OmpError : Type 0 where
  not_found schema_validation ingest_validation probe_failed conflict invalid_path : OmpError
  unauthorized quota_exceeded encryption_mode_mismatch io corrupt internal : OmpError

unfoldable pub as_str : ErrorCode → String
as_str not_found = "not_found"
as_str schema_validation_failed = "schema_validation_failed"
as_str ingest_validation_failed = "ingest_validation_failed"
as_str probe_failed = "probe_failed"
as_str conflict = "conflict"
as_str invalid_path = "invalid_path"
as_str unauthorized = "unauthorized"
as_str quota_exceeded = "quota_exceeded"
as_str encryption_mode_mismatch = "encryption_mode_mismatch"
as_str internal = "internal"

unfoldable pub http_status : ErrorCode → ℕ
http_status not_found = 404
http_status schema_validation_failed = 400
http_status ingest_validation_failed = 400
http_status probe_failed = 400
http_status conflict = 409
http_status invalid_path = 400
http_status unauthorized = 401
http_status quota_exceeded = 429
http_status encryption_mode_mismatch = 409
http_status internal = 500

unfoldable pub code : OmpError → ErrorCode
code not_found = not_found
code schema_validation = schema_validation_failed
code ingest_validation = ingest_validation_failed
code probe_failed = probe_failed
code conflict = conflict
code invalid_path = invalid_path
code unauthorized = unauthorized
code quota_exceeded = quota_exceeded
code encryption_mode_mismatch = encryption_mode_mismatch
code io = internal
code corrupt = internal
code internal = internal
