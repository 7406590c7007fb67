-- ===== src/Object/Framing.antt =====
-- Framing and unframing objects.
use open_memory_protocol.Base.{
  ok_or-eq-ok, ◌==◌, not, reject_if, ok_or, >>=-eq-ok, some, ℕ, ◌<◌, ◌∷◌, ◌++◌, ==-refl, ok, length,
  All, All-map, All-append, ◌≡◌, ◌≢◌, refl, arith,
}
use open_memory_protocol.Base.Bytes.{
  split_once_sound, split_once, Bytes, Lacks, codes, beq, beq_iff, split_once-append,
}
use open_memory_protocol.Base.Utf8.{is_utf8, IsAscii, IsAscii-IsText, IsText-is_utf8}
use open_memory_protocol.Base.Decimal.{
  format_uint, parse_uint, parse_uint-format_uint, format_uint-IsDigit, format_uint-Lacks, IsDigit,
  u64_limit,
}
use open_memory_protocol.Error.{OmpError}
use open_memory_protocol.Object.{ObjectType, as_str, parse, frame, parse_framed}

-- Parsing the name of an object type gives the type back.
pub parse-as_str : (t : ObjectType) → parse (as_str t) ≡ ok t
unfolding parse as_str beq
parse-as_str ObjectType.blob = refl
parse-as_str _ = refl

pub as_str-parse : (s : Bytes) (t : ObjectType) → parse s ≡ ok t → s ≡ as_str t
unfolding parse as_str
as_str-parse s t h = ground (
  arith,
  beq_iff s (codes "blob"),
  beq_iff s (codes "tree"),
  beq_iff s (codes "manifest"),
  beq_iff s (codes "commit"),
  beq_iff s (codes "chunks"),
  beq_iff s (codes "share"),
  beq_iff s (codes "audit"),
)

-- The names are lower-case ASCII.
abbrev IsLower : ℕ → Type 0
IsLower c = (96 < c) × (c < 123)

as_str-IsLower : (t : ObjectType) → All IsLower (as_str t)
unfolding as_str
as_str-IsLower ObjectType.blob = omega arith
as_str-IsLower _ = omega arith

header-Lacks : (d n : ℕ) (t : ObjectType) → d < 32 → Lacks d (as_str t ++ 32 ∷ format_uint n)
header-Lacks d n t h =
    All-append (λ c. c ≢ d) (as_str t) _
      (All-map IsLower (λ c. c ≢ d) (λ c p. omega arith) (as_str t) (as_str-IsLower t))
      (omega arith, format_uint-Lacks d n (omega arith))

header-IsAscii : (n : ℕ) (t : ObjectType) → IsAscii (as_str t ++ 32 ∷ format_uint n)
header-IsAscii n t =
    All-append (λ c. c < 128) (as_str t) _
      (All-map IsLower (λ c. c < 128) (λ c p. omega arith) (as_str t) (as_str-IsLower t))
      (omega arith, All-map IsDigit (λ c. c < 128) (λ c p. omega arith) _ (format_uint-IsDigit n))

-- An object framed and parsed again has its type and its content, if its length is a `usize`.
pub parse_framed-frame :
    (t : ObjectType) (content : Bytes)
    → length content < u64_limit
    → parse_framed (frame t content) ≡ ok (t, content)
unfolding parse_framed frame
parse_framed-frame t content h =
    let n = length content in
    rw (
      split_once-append 0 (as_str t ++ 32 ∷ format_uint n) content
          (header-Lacks 0 n t (omega arith)),
      IsText-is_utf8 _ (IsAscii-IsText _ (header-IsAscii n t)),
      split_once-append 32 (as_str t) (format_uint n)
          (All-map IsLower (λ c. c ≢ 32) (λ c p. omega arith) (as_str t) (as_str-IsLower t)),
      parse_uint-format_uint n h,
      parse-as_str t,
      ==-refl n,
    )

-- A framed object that parses is the name of its type, a space, digits or a sign and digits that
-- read as the length of its content, a NUL, and the content.
pub parse_framed_sound :
    (framed : Bytes) (t : ObjectType) (content : Bytes)
    → parse_framed framed ≡ ok (t, content)
    → (size : Bytes) × (framed ≡ (as_str t ++ 32 ∷ size) ++ 0 ∷ content)
      × (parse_uint size ≡ some (length content))
unfolding parse_framed
parse_framed_sound framed t content h =
    let ((header, rest), p, h₁) = >>=-eq-ok (ok_or (split_once 0 framed) OmpError.corrupt) _ h in
    let (_, _, h₂) = >>=-eq-ok (reject_if (not (is_utf8 header)) OmpError.corrupt) _ h₁ in
    let ((type_str, size), q, h₃) =
      >>=-eq-ok (ok_or (split_once 32 header) OmpError.corrupt) _ h₂ in
    let (declared, r, h₄) = >>=-eq-ok (ok_or (parse_uint size) OmpError.corrupt) _ h₃ in
    let (t', u, h₅) = >>=-eq-ok (parse type_str) _ h₄ in
    let (_, v, h₆) = >>=-eq-ok (reject_if (not (length rest == declared)) OmpError.corrupt) _ h₅ in
    let e₁ : framed ≡ header ++ 0 ∷ rest =
      (split_once_sound 0 framed header rest (ok_or-eq-ok _ _ p)).0 in
    let e₂ : header ≡ type_str ++ 32 ∷ size =
      (split_once_sound 32 header type_str size (ok_or-eq-ok _ _ q)).0 in
    let e₃ : type_str ≡ as_str t' = as_str-parse type_str t' u in
    let e₄ : t' ≡ t = cc h₆ in
    let e₅ : rest ≡ content = cc h₆ in
    let e₆ : length rest ≡ declared = ground arith in
    let e₇ : parse_uint size ≡ some declared = ok_or-eq-ok _ _ r in (size, cc, cc)
