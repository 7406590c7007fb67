-- ===== src/Hex/RoundTrip.antt =====
-- Encoding and decoding hex texts.
use open_memory_protocol.Base.{
  false, ℕ, zero, suc, ◌+◌, ◌*◌, ◌/◌, ◌%◌, ◌<◌, [], ◌∷◌, Bool, true, not, within, ◌==◌, ==_iff,
  if◌then◌else◌, Result, ok, >>=-eq-ok, reject_if, length, All, All-map, ◌≡◌, ◌≢◌, refl, sym, ap,
  ◌∙◌, arith, map,
}
use open_memory_protocol.Base.Bytes.{Bytes, Lacks}
use open_memory_protocol.Error.{OmpError}
use open_memory_protocol.Hex.{hex_char, encode, join, nibble, decode_pairs, decode}

abbrev pub IsBytes : Bytes → Type 0
IsBytes = All (λ b. b < 256)

-- Whether the bytes from `count - 1` down are put together from their halves.
halves_join : ℕ → Bool
halves_join zero = true
halves_join (suc b) = if join (b / 16) (b % 16) == b then halves_join b else false

halves_join_lem :
    (b count : ℕ) → b < count → halves_join count ≡ true → (join (b / 16) (b % 16) == b) ≡ true
unfolding halves_join
halves_join_lem b zero lt e = absurd (omega arith)
halves_join_lem b (suc count) lt e =
    let rest =
      λ (below : b < count) (k : halves_join count ≡ true). halves_join_lem b count below k in
    ground arith

all_bytes_join : halves_join 256 ≡ true
unfolding halves_join join
all_bytes_join = refl

pub join_halves : (b : ℕ) → b < 256 → join (b / 16) (b % 16) ≡ b
join_halves b h = (==_iff _ b).0 (halves_join_lem b 256 h all_bytes_join)

pub join-eq-add : (hi lo : ℕ) → hi < 16 → lo < 16 → join hi lo ≡ hi * 16 + lo
join-eq-add hi lo h k =
    let e : (hi * 16 + lo) / 16 ≡ hi = omega arith in
    let r : (hi * 16 + lo) % 16 ≡ lo = omega arith in
    sym (ap (λ x. join x lo) e)
    ∙ sym (ap (λ y. join ((hi * 16 + lo) / 16) y) r)
    ∙ join_halves (hi * 16 + lo) (omega arith)

pub nibble-hex_char : (n : ℕ) → n < 16 → nibble (hex_char n) ≡ ok n
unfolding nibble hex_char
nibble-hex_char n h = ground arith

pub decode_pairs-encode :
    {E : Type 0} (digit : ℕ → Result E ℕ) (odd : E)
    → ((n : ℕ) → n < 16 → digit (hex_char n) ≡ ok n)
    → (bytes : Bytes) → IsBytes bytes
    → decode_pairs digit odd (encode bytes) ≡ ok bytes
unfolding decode_pairs encode
decode_pairs-encode digit odd f [] _ = refl
decode_pairs-encode digit odd f (b ∷ bytes) (p, h) = rw (
  f (b / 16) (omega arith),
  f (b % 16) (omega arith),
  decode_pairs-encode digit odd f bytes h,
  join_halves b p,
)

pub length-encode : (bytes : Bytes) → length (encode bytes) ≡ 2 * length bytes
unfolding encode
length-encode [] = refl
length-encode (b ∷ bytes) = omega (arith, length-encode bytes)

-- Decoding the hex of any byte sequence gives the sequence back.
pub decode-encode : (bytes : Bytes) → IsBytes bytes → decode (encode bytes) ≡ ok bytes
unfolding decode
decode-encode bytes h =
    let e : length (encode bytes) % 2 ≡ 0 = omega (arith, length-encode bytes) in
    rw e (decode_pairs-encode nibble OmpError.corrupt nibble-hex_char bytes h)

abbrev pub IsHexChar : ℕ → Type 0
IsHexChar c = (47 < c) × (c < 103)

pub encode-IsHexChar : (bytes : Bytes) → IsBytes bytes → All IsHexChar (encode bytes)
unfolding encode hex_char
encode-IsHexChar [] _ = tt
encode-IsHexChar (b ∷ bytes) (p, h) = (ground arith, (ground arith, encode-IsHexChar bytes h))

pub encode-Lacks : (d : ℕ) (bytes : Bytes) → d < 48 → IsBytes bytes → Lacks d (encode bytes)
encode-Lacks d bytes lt h =
    All-map IsHexChar (λ c. c ≢ d) (λ c p. omega arith) (encode bytes) (encode-IsHexChar bytes h)

-- `u8::to_ascii_lowercase`
abbrev pub to_lower : ℕ → ℕ
to_lower c = if within b'A' b'Z' c then c + 32 else c

hex_char-nibble : (c n : ℕ) → nibble c ≡ ok n → (n < 16) × (hex_char n ≡ to_lower c)
unfolding nibble hex_char
hex_char-nibble c n h = ground arith

-- A digit function that reads each hex character, in either case, as its value.
abbrev pub ReadsHex : {E : Type 0} → (ℕ → Result E ℕ) → Type 0
ReadsHex digit = (c n : ℕ) → digit c ≡ ok n → (n < 16) × (hex_char n ≡ to_lower c)

module _ {E : Type 0} (digit : ℕ → Result E ℕ) (odd : E) (reads : ReadsHex digit) where
  hex_char_of_join :
      (c d hi lo : ℕ)
      → digit c ≡ ok hi
      → digit d ≡ ok lo
      → (join hi lo < 256)
        × (hex_char (join hi lo / 16) ≡ to_lower c)
        × (hex_char (join hi lo % 16) ≡ to_lower d)
  hex_char_of_join c d hi lo h k =
      let (hlt, he) = reads c hi h in
      let (klt, ke) = reads d lo k in
      let q : (hi * 16 + lo) / 16 ≡ hi = omega arith in
      let r : (hi * 16 + lo) % 16 ≡ lo = omega arith in
      rw (join-eq-add hi lo hlt klt) (omega arith, ap hex_char q ∙ he, ap hex_char r ∙ ke)

  pub encode-decode_pairs :
      (s bytes : Bytes)
      → decode_pairs digit odd s ≡ ok bytes
      → IsBytes bytes × (encode bytes ≡ map to_lower s)
  unfolding decode_pairs encode
  encode-decode_pairs [] [] h = (tt, refl)
  encode-decode_pairs [] (_ ∷ _) h = cc
  encode-decode_pairs (_ ∷ []) bytes h = cc
  encode-decode_pairs (c ∷ d ∷ s) bytes h =
      let (hi, p, h₁) = >>=-eq-ok (digit c) _ h in
      let (lo, q, h₂) = >>=-eq-ok (digit d) _ h₁ in
      let (out, r, e) = >>=-eq-ok (decode_pairs digit odd s) _ h₂ in
      let (lt, eh, el) = hex_char_of_join c d hi lo p q in
      let (ih, ie) = encode-decode_pairs s out r in
      let f : bytes ≡ join hi lo ∷ out = cc in rw f ((lt, ih), cc)

-- A decoded text is a byte sequence whose encoding is the text in lower case.
pub encode_of_decode :
    (s bytes : Bytes) → decode s ≡ ok bytes → IsBytes bytes × (encode bytes ≡ map to_lower s)
unfolding decode
encode_of_decode s bytes h =
    let (_, _, e) = >>=-eq-ok (reject_if (not (length s % 2 == 0)) OmpError.corrupt) _ h in
    encode-decode_pairs nibble OmpError.corrupt hex_char-nibble s bytes e
