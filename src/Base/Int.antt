-- ===== src/Base/Int.antt =====
-- Rust's `i64` as an integer, and `parse::<i64>`.
use Prim.Native.Nat.{ℕ, ◌-◌, ◌^◌}
use mathlib.Core.Bool.{Bool, true, false}
use mathlib.Core.Option.{Option, none, some}
use mathlib.Core.List.{[], ◌∷◌}
use open_memory_protocol.Base.Tests.{leb, ltb, ◌==◌, if◌then◌else◌}
use open_memory_protocol.Base.Bytes.{Bytes}
use open_memory_protocol.Base.Decimal.{parse_uint}

-- `negsuc n` is -(n + 1).
pub data ℤ : Type 0 where
  pos : ℕ → ℤ
  negsuc : ℕ → ℤ

unfoldable pub int_beq : ℤ → ℤ → Bool
int_beq (pos a) (pos b) = a == b
int_beq (negsuc a) (negsuc b) = a == b
int_beq _ _ = false

-- -n, for the magnitude n.
abbrev pub negate : ℕ → ℤ
negate n = if n == 0 then pos 0 else negsuc (n - 1)

abbrev pub in_range : Bool → ℕ → Option ℤ
in_range true n = if leb n (2 ^ 63) then some (negate n) else none
in_range false n = if ltb n (2 ^ 63) then some (pos n) else none

abbrev pub parse_magnitude : Bool → Option ℕ → Option ℤ
parse_magnitude negative none = none
parse_magnitude negative (some n) = in_range negative n

-- The magnitude is read as a `u64`, which holds every magnitude that is in range. A second sign is
-- refused.
unfoldable pub parse_int : Bytes → Option ℤ
parse_int [] = none
parse_int (c ∷ []) = parse_magnitude false (parse_uint (c ∷ []))
parse_int (c ∷ d ∷ s) =
    if c == b'-'
    then (if d == b'+' then none else parse_magnitude true (parse_uint (d ∷ s)))
    else parse_magnitude false (parse_uint (c ∷ d ∷ s))
