-- ===== src/Chunks/RoundTrip.antt =====
-- Serializing and parsing the body of a `chunks` object.
use open_memory_protocol.Base.{
  ℕ, ◌<◌, List, [], ◌∷◌, ◌++◌, ok, All, All-append, All-map, ◌≡◌, ◌≢◌, refl, arith,
}
use open_memory_protocol.Base.Bytes.{Bytes, Lacks, split, split-append, split_once-append}
use open_memory_protocol.Base.Utf8.{IsAscii, IsText, IsAscii-IsText, IsText-append, IsText-is_utf8}
use open_memory_protocol.Base.Decimal.{
  format_uint, parse_uint-format_uint, format_uint-IsDigit, format_uint-Lacks, IsDigit, u64_limit,
}
use open_memory_protocol.Hash.{IsHash, hex}
use open_memory_protocol.Hash.Text.{from_str-hex, hex-Lacks, hex-IsAscii}
use open_memory_protocol.Chunks.{
  ChunkEntry, ChunksBody, serialize_entries, serialize, parse_line, parse_lines, parse,
}

-- A hash of 32 bytes, and a length that fits in a `u64`.
abbrev pub IsEntry : ChunkEntry → Type 0
IsEntry e = IsHash e.hash × (e.length < u64_limit)

abbrev line_of : ChunkEntry → Bytes
line_of e = hex e.hash ++ 32 ∷ format_uint e.length

line_of-Lacks : (e : ChunkEntry) → IsEntry e → Lacks 10 (line_of e)
line_of-Lacks e (h, _) =
    All-append (λ c. c ≢ 10) (hex e.hash) _ (hex-Lacks 10 e.hash (omega arith) h)
      (omega arith, format_uint-Lacks 10 e.length (omega arith))

line_of-IsAscii : (e : ChunkEntry) → IsEntry e → IsAscii (line_of e)
line_of-IsAscii e (h, _) =
    All-append (λ c. c < 128) (hex e.hash) _ (hex-IsAscii e.hash h)
      (
        omega arith,
        All-map IsDigit (λ c. c < 128) (λ c p. omega arith) _ (format_uint-IsDigit e.length),
      )

parse_line-line_of : (e : ChunkEntry) → IsEntry e → parse_line (line_of e) ≡ ok e
unfolding parse_line
parse_line-line_of e (h, lt) = rw (
  split_once-append 32 (hex e.hash) (format_uint e.length) (hex-Lacks 32 e.hash (omega arith) h),
  from_str-hex e.hash h,
  parse_uint-format_uint e.length lt,
)

parse_lines-cons :
    (line : Bytes) (lines : List Bytes) (e : ChunkEntry) (es : List ChunkEntry)
    → line ≢ []
    → parse_line line ≡ ok e
    → parse_lines lines ≡ ok es
    → parse_lines (line ∷ lines) ≡ ok (e ∷ es)
unfolding parse_lines
parse_lines-cons [] lines e es ne p q = absurd (ne refl)
parse_lines-cons (c ∷ line) lines e es ne p q = rw (p, q)

append-cons_ne : (s t : Bytes) (c : ℕ) → s ++ c ∷ t ≢ []
append-cons_ne [] t c h = cc
append-cons_ne (_ ∷ _) t c h = cc

parse_lines-serialize :
    (es : List ChunkEntry) → All IsEntry es → parse_lines (split 10 (serialize_entries es)) ≡ ok es
unfolding serialize_entries
parse_lines-serialize [] _ = unfold split parse_lines in refl
parse_lines-serialize (e ∷ es) (p, h) =
    rw (split-append 10 (line_of e) (serialize_entries es) (line_of-Lacks e p)) (
      parse_lines-cons (line_of e) _ e es (append-cons_ne (hex e.hash) _ 32)
        (parse_line-line_of e p) (parse_lines-serialize es h))

serialize-IsText : (es : List ChunkEntry) → All IsEntry es → IsText (serialize_entries es)
unfolding serialize_entries
serialize-IsText [] _ = IsAscii-IsText [] tt
serialize-IsText (e ∷ es) (p, h) =
    IsText-append (line_of e) (10 ∷ serialize_entries es)
      (IsAscii-IsText (line_of e) (line_of-IsAscii e p))
      (IsText-append (10 ∷ []) (serialize_entries es) (IsAscii-IsText (10 ∷ []) (omega arith))
        (serialize-IsText es h))

-- A chunk list of well-formed entries, in file order, is what parsing its serialization gives.
pub parse-serialize_chunks :
    (body : ChunksBody) → All IsEntry body.entries → parse (serialize body) ≡ ok body
unfolding parse serialize
parse-serialize_chunks body h =
    rw (IsText-is_utf8 _ (serialize-IsText body.entries h), parse_lines-serialize body.entries h)
