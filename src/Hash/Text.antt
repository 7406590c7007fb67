-- ===== src/Hash/Text.antt =====
-- The textual form of a hash.
use open_memory_protocol.Base.{
  All, ℕ, ◌<◌, not, ◌==◌, ok, >>=-eq-ok, reject_if, length, ◌≡◌, ap, arith, map, length-map,
}
use open_memory_protocol.Base.Bytes.{Bytes, Lacks}
use open_memory_protocol.Base.Utf8.{IsAscii}
use open_memory_protocol.Base.{All-map}
use open_memory_protocol.Hex.{hex_char, encode}
use open_memory_protocol.Hex.RoundTrip.{
  decode_pairs-encode, length-encode, encode-decode_pairs, to_lower, encode-Lacks, encode-IsHexChar,
  IsHexChar,
}
use open_memory_protocol.Hash.{Hash, IsHash, HashParseError, hex, hex_digit, from_str}

hex_digit-hex_char : (n : ℕ) → n < 16 → hex_digit (hex_char n) ≡ ok n
unfolding hex_digit hex_char
hex_digit-hex_char n h = ground arith

hex_char-hex_digit : (c n : ℕ) → hex_digit c ≡ ok n → (n < 16) × (hex_char n ≡ to_lower c)
unfolding hex_digit hex_char
hex_char-hex_digit c n h = ground arith

-- Parsing the hex form of a hash gives the hash back.
pub from_str-hex : (h : Hash) → IsHash h → from_str (hex h) ≡ ok h
unfolding from_str hex
from_str-hex h (len, bytes) =
    let e : length (encode h) ≡ 64 = omega (arith, length-encode h) in
    rw e (decode_pairs-encode hex_digit _ hex_digit-hex_char h bytes)

-- What parses is a text of 64 characters whose hash has that text, in lower case, as its hex form.
pub hex-from_str : (s : Bytes) (h : Hash) → from_str s ≡ ok h → IsHash h × (hex h ≡ map to_lower s)
unfolding from_str hex
hex-from_str s h e =
    let (_, len, k) =
      >>=-eq-ok (reject_if (not (length s == 64)) (HashParseError.wrong_length (length s))) _ e in
    let (bytes, low) = encode-decode_pairs hex_digit _ hex_char-hex_digit s h k in
    let n : length s ≡ 64 = ground arith in
    ((omega (arith, length-encode h, ap (length {A = ℕ}) low, length-map s to_lower), bytes), low)

pub hex-Lacks : (d : ℕ) (h : Hash) → d < 48 → IsHash h → Lacks d (hex h)
unfolding hex
hex-Lacks d h lt (_, b) = encode-Lacks d h lt b

pub hex-IsAscii : (h : Hash) → IsHash h → IsAscii (hex h)
unfolding hex
hex-IsAscii h (_, b) =
    All-map IsHexChar (λ c. c < 128) (λ c p. omega arith) (encode h) (encode-IsHexChar h b)

pub hex-length : (h : Hash) → IsHash h → length (hex h) ≡ 64
unfolding hex
hex-length h (len, _) = omega (arith, length-encode h)

pub hex_inj : (h k : Hash) → IsHash h → IsHash k → hex h ≡ hex k → h ≡ k
hex_inj h k p q e = cc (from_str-hex h p, ap from_str e, from_str-hex k q)

pub hex-IsHexChar : (h : Hash) → IsHash h → All IsHexChar (hex h)
unfolding hex
hex-IsHexChar h (_, b) = encode-IsHexChar h b
