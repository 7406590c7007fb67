-- ===== src/Hash.antt =====
-- crates/omp-core/src/hash.rs: object hashes and their hex form. SHA-256 itself is a parameter of
-- what computes hashes.
pub mod Text
use open_memory_protocol.Base.{
  ℕ, ◌+◌, ◌-◌, not, within, ◌==◌, if◌then◌else◌, Result, ok, err, ◌>>=◌, ◌>>◌, reject_if, length,
  take, ◌≡◌,
}
use open_memory_protocol.Base.Bytes.{Bytes}
use open_memory_protocol.Hex.{encode, decode_pairs}
use open_memory_protocol.Hex.RoundTrip.{IsBytes}

-- `[u8; 32]`, without its length and range, which `IsHash` states.
abbrev pub Hash : Type 0
Hash = Bytes

abbrev pub IsHash : Hash → Type 0
IsHash h = (length h ≡ 32) × IsBytes h

pub data HashParseError : Type 0 where
  wrong_length invalid_char : ℕ → HashParseError

unfoldable pub hex : Hash → Bytes
hex h = encode h

unfoldable pub short : Hash → Bytes
short h = take 12 (hex h)

unfoldable pub hex_digit : ℕ → Result HashParseError ℕ
hex_digit c =
    if within b'0' b'9' c
    then ok (c - b'0')
    else if within b'a' b'f' c
    then ok (c - b'a' + 10)
    else if within b'A' b'F' c
    then ok (c - b'A' + 10)
    else err (HashParseError.invalid_char c)

unfoldable pub from_str : Bytes → Result HashParseError Hash
from_str s = do
  reject_if (not (length s == 64)) (HashParseError.wrong_length (length s))
  decode_pairs hex_digit (HashParseError.wrong_length (length s)) s
