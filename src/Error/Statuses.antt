-- ===== src/Error/Statuses.antt =====
-- What a client may conclude from an error's code and status.
use open_memory_protocol.Base.{◌≡◌, ◌↔◌, ◌⊎◌, arith, ◌≤◌, ◌<◌}
use open_memory_protocol.Error.{OmpError, http_status, code}

abbrev pub IsServerFault : OmpError → Type 0
IsServerFault e = (e ≡ OmpError.io) ⊎ (e ≡ OmpError.corrupt) ⊎ (e ≡ OmpError.internal)

-- The status of an error is 500 exactly for I/O faults, corrupt objects and internal errors; every
-- other error has a status of the 4xx class.
pub http_status-code :
    (e : OmpError)
    → ((http_status (code e) ≡ 500) ↔ IsServerFault e)
      × ((400 ≤ http_status (code e)) × (http_status (code e) < 500) ⊎ IsServerFault e)
unfolding http_status code
http_status-code e = ground arith
