-- ===== src/Hex.antt =====
-- crates/omp-core/src/hex.rs.
pub mod RoundTrip
use Prim.Native.Nat.{bit_or}
use open_memory_protocol.Base.{
  ℕ, ◌+◌, ◌-◌, ◌*◌, ◌/◌, ◌%◌, [], ◌∷◌, Bool, true, false, not, ltb, within, ◌==◌, if◌then◌else◌,
  Result, ok, err, ◌>>=◌, ◌>>◌, reject_if, length,
}
use open_memory_protocol.Base.Bytes.{Bytes}
use open_memory_protocol.Error.{OmpError}

-- One digit of `{:02x}`.
unfoldable pub hex_char : ℕ → ℕ
hex_char n = if ltb n 10 then b'0' + n else b'a' + (n - 10)

unfoldable pub encode : Bytes → Bytes
encode [] = []
encode (b ∷ bytes) = hex_char (b / 16) ∷ hex_char (b % 16) ∷ encode bytes

-- `(hi << 4) | lo` on `u8`.
unfoldable pub join : ℕ → ℕ → ℕ
join hi lo = bit_or (hi * 16 % 256) lo

unfoldable pub nibble : ℕ → Result OmpError ℕ
nibble c =
    if within b'0' b'9' c
    then ok (c - b'0')
    else if within b'a' b'f' c
    then ok (c - b'a' + 10)
    else if within b'A' b'F' c
    then ok (c - b'A' + 10)
    else err OmpError.corrupt

-- The loop over `chunks(2)`, for either digit function. Both callers have tested that the length is
-- even, so the clause for a single byte, where the code would index out of bounds, is not reached.
unfoldable pub decode_pairs : {E : Type 0} → (ℕ → Result E ℕ) → E → Bytes → Result E Bytes
decode_pairs digit odd [] = ok []
decode_pairs digit odd (_ ∷ []) = err odd
decode_pairs digit odd (h ∷ l ∷ s) = do
  hi ← digit h
  lo ← digit l
  out ← decode_pairs digit odd s
  ok (join hi lo ∷ out)

unfoldable pub decode : Bytes → Result OmpError Bytes
decode s = do
  reject_if (not (length s % 2 == 0)) OmpError.corrupt
  decode_pairs nibble OmpError.corrupt s
