-- ===== src/Refs/Ancestors.antt =====
-- Ref expressions `<base>~<n>` of crates/omp-core/src/refs.rs.
use open_memory_protocol.Base.{ℕ, ◌∷◌, ◌++◌, ◌<◌, ◌≡◌}
use open_memory_protocol.Base.Bytes.{Bytes, Lacks, split_once-append}
use open_memory_protocol.Base.Decimal.{format_uint, parse_uint-format_uint, u64_limit}
use open_memory_protocol.Refs.{split_ancestor}

-- `<base>~<n>` is taken apart into the base and the number, for a base without `~` and a number of
-- 64 bits.
pub split_ancestor-format_uint :
    (base : Bytes) (n : ℕ)
    → Lacks b'~' base
    → n < u64_limit
    → split_ancestor (base ++ b'~' ∷ format_uint n) ≡ (base, n)
unfolding split_ancestor
split_ancestor-format_uint base n h lt =
    rw (split_once-append b'~' base (format_uint n) h, parse_uint-format_uint n lt)
