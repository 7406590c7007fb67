-- ===== src/Query/Lexer.antt =====
-- The tokenizer of crates/omp-core/src/query.rs.
pub mod Laws
pub mod Strings
use open_memory_protocol.Base.{
  ℕ, zero, suc, ◌+◌, ◌-◌, ◌*◌, ◌/◌, ◌%◌, List, [], ◌∷◌, ◌++◌, Bool, true, false, ◌||◌, ◌&&◌, ltb,
  within, ◌==◌, if◌then◌else◌, Option, none, some, Result, ok, err, ◌>>=◌, ok_or, length, map,
}
use open_memory_protocol.Base.Bytes.{Bytes, codes, beq}
use open_memory_protocol.Base.Int.{ℤ, parse_int}
use open_memory_protocol.Hex.RoundTrip.{to_lower}
use open_memory_protocol.Query.{Floats, Op, Tok, Token, Failure}

abbrev pub is_digit : ℕ → Bool
is_digit c = within b'0' b'9' c

unfoldable pub is_ident_start : ℕ → Bool
is_ident_start c = within b'a' b'z' c || within b'A' b'Z' c || c == b'_'

unfoldable pub is_ident_cont : ℕ → Bool
is_ident_cont c = within b'a' b'z' c || within b'A' b'Z' c || is_digit c || c == b'_'

-- `is_ascii_whitespace`
unfoldable pub is_whitespace : ℕ → Bool
is_whitespace c = c == b' ' || c == 9 || c == 10 || c == 12 || c == 13

-- `buf.push(byte as char)`: the character U+0000 to U+00FF of that number, in UTF-8.
unfoldable pub push_char : ℕ → Bytes → Bytes
push_char b buf = if ltb b 128 then b ∷ buf else (0xc0 + b / 64) ∷ (0x80 + b % 64) ∷ buf

abbrev pub push_first : ℕ → Option (Bytes × Bytes) → Option (Bytes × Bytes)
push_first b none = none
push_first b (some (buf, rest)) = some (push_char b buf, rest)

-- The loop of a quoted string up to its closing quote: the text, and what follows. `none` is an
-- unterminated string.
unfoldable pub scan_string : ℕ → Bytes → Option (Bytes × Bytes)
scan_string quote [] = none
scan_string quote (c ∷ []) = if c == quote then some ([], []) else none
scan_string quote (c ∷ d ∷ s) =
    let escaped = push_first d (scan_string quote s) in
    let plain = push_first c (scan_string quote (d ∷ s)) in
    if c == quote then some ([], d ∷ s) else if c == b'\\' then escaped else plain

-- The digits of a number and its dots, each before a digit; whether there was a dot; what follows.
unfoldable pub scan_number : Bytes → Bytes × Bool × Bytes
scan_number [] = ([], false, [])
scan_number (c ∷ []) = if is_digit c then (c ∷ [], false, []) else ([], false, c ∷ [])
scan_number (c ∷ d ∷ s) =
    let (text, saw_dot, rest) = scan_number (d ∷ s) in
    if is_digit c
    then (c ∷ text, saw_dot, rest)
    else if c == b'.' && is_digit d
    then (c ∷ text, true, rest)
    else ([], false, c ∷ d ∷ s)

unfoldable pub scan_ident : Bytes → Bytes × Bytes
scan_ident [] = ([], [])
scan_ident (c ∷ s) =
    let (word, rest) = scan_ident s in if is_ident_cont c then (c ∷ word, rest) else ([], c ∷ s)

module _ (fl : Floats) where
  -- The token of a word: a keyword in any case, or an identifier.
  unfoldable pub keyword : Bytes → Tok fl
  keyword word =
      let lower = map to_lower word in
      if beq lower (codes "and")
      then Tok.and
      else if beq lower (codes "or")
      then Tok.or
      else if beq lower (codes "not")
      then Tok.not
      else if beq lower (codes "exists")
      then Tok.exists
      else if beq lower (codes "true")
      then Tok.bool true
      else if beq lower (codes "false")
      then Tok.bool false
      else if beq lower (codes "null")
      then Tok.null
      else if beq lower (codes "contains")
      then Tok.op Op.contains
      else if beq lower (codes "starts_with")
      then Tok.op Op.starts_with
      else Tok.ident word

  -- A token, if the round makes one, and the bytes after it.
  abbrev pub Round : Type 0
  Round = Option (Tok fl) × Bytes

  -- `<` and `>`, with or without `=`.
  unfoldable pub lex_order : Op → Op → Bytes → Round
  lex_order strict weak [] = (some (Tok.op strict), [])
  lex_order strict weak (d ∷ s) =
      if d == b'=' then (some (Tok.op weak), s) else (some (Tok.op strict), d ∷ s)

  unfoldable pub lex_bang : ℕ → Bytes → Result Failure Round
  lex_bang pos [] = err (Failure.parse pos)
  lex_bang pos (d ∷ s) = if d == b'=' then ok (some (Tok.op Op.ne), s) else err (Failure.parse pos)

  unfoldable pub lex_string : ℕ → ℕ → Bytes → Result Failure Round
  lex_string pos quote s = do
    (buf, rest) ← ok_or (scan_string quote s) (Failure.parse (pos + 1))
    ok (some (Tok.str buf), rest)

  unfoldable pub lex_number : ℕ → ℕ → Bytes → Result Failure Round
  lex_number pos c s =
      let scanned = if c == b'-' then scan_number s else scan_number (c ∷ s) in
      let num = if c == b'-' then c ∷ scanned.0 else scanned.0 in
      if scanned.1
      then (do f ← ok_or (fl.parse num) (Failure.parse pos); ok (some (Tok.float f), scanned.2))
      else (do n ← ok_or (parse_int num) (Failure.parse pos); ok (some (Tok.int n), scanned.2))

  unfoldable pub lex_word : ℕ → Bytes → Round
  lex_word c s = let (word, rest) = scan_ident s in (some (keyword (c ∷ word)), rest)

  -- One round of the loop at the byte `c`.
  unfoldable pub lex_one : ℕ → ℕ → Bytes → Result Failure Round
  lex_one pos c s =
      if is_whitespace c
      then ok (none, s)
      else if c == b'('
      then ok (some Tok.lparen, s)
      else if c == b')'
      then ok (some Tok.rparen, s)
      else if c == b'.'
      then ok (some Tok.dot, s)
      else if c == b','
      then ok (some Tok.comma, s)
      else if c == b'='
      then ok (some (Tok.op Op.eq), s)
      else if c == b'!'
      then lex_bang pos s
      else if c == b'<'
      then ok (lex_order Op.lt Op.le s)
      else if c == b'>'
      then ok (lex_order Op.gt Op.ge s)
      else if c == b'"' || c == 39
      then lex_string pos c s
      else if is_digit c || c == b'-'
      then lex_number pos c s
      else if is_ident_start c
      then ok (lex_word c s)
      else err (Failure.parse pos)

  abbrev pub emit : Option (Tok fl) → ℕ → List (Token fl) → List (Token fl)
  emit none pos out = out
  emit (some kind) pos out = record { kind = kind; byte_pos = pos } ∷ out

  -- The loop: fuel, the position in bytes, and the bytes left.
  unfoldable pub lex : ℕ → ℕ → Bytes → Result Failure (List (Token fl))
  lex fuel pos [] = ok []
  lex zero pos (c ∷ s) = err Failure.out_of_fuel
  lex (suc fuel) pos (c ∷ s) = do
    (kind, rest) ← lex_one pos c s
    out ← lex fuel (pos + (length (c ∷ s) - length rest)) rest
    ok (emit kind pos out)

  unfoldable pub tokenize : Bytes → Result Failure (List (Token fl))
  tokenize input = lex (length input) 0 input
