-- ===== src/Query/Lexer/Strings.antt =====
-- String literals of crates/omp-core/src/query.rs: what the tokenizer reads of a quoted text.
use open_memory_protocol.Base.{
  suc, inr, inl, ℕ, ◌*◌, ◌<◌, ◌≤◌, [], ◌∷◌, ◌++◌, false, ◌==◌, ◌||◌, if◌then◌else◌, some, length,
  All, ◌≡◌, refl, arith, Bool-cases,
}
use open_memory_protocol.Base.Bytes.{Bytes}
use open_memory_protocol.Base.Utf8.{IsAscii}
use open_memory_protocol.Query.Lexer.{push_char, push_first, scan_string}

-- A text as it is written between quotes: a backslash before each quote and each backslash.
abbrev pub escape : ℕ → Bytes → Bytes
escape quote [] = []
escape quote (c ∷ s) =
    let rest = escape quote s in if c == quote || c == b'\\' then b'\\' ∷ c ∷ rest else c ∷ rest

push_char_ascii : (c : ℕ) (buf : Bytes) → c < 128 → push_char c buf ≡ c ∷ buf
unfolding push_char
push_char_ascii c buf h = ground arith

push_char_wide :
    (c : ℕ) (buf : Bytes) (n : ℕ)
    → 128 ≤ c
    → length buf ≡ n * 2
    → length (push_char c buf) ≡ suc n * 2
unfolding push_char
push_char_wide c buf n h e = ground arith

scan_string-close : (quote : ℕ) (rest : Bytes) → scan_string quote (quote ∷ rest) ≡ some ([], rest)
unfolding scan_string
scan_string-close quote [] = ground arith
scan_string-close quote (d ∷ s) = ground arith

-- A byte that the loop takes as it is.
scan_string-plain :
    (quote c : ℕ) (s : Bytes) (r : Bytes × Bytes)
    → (c == quote || c == b'\\') ≡ false
    → scan_string quote s ≡ some r
    → scan_string quote (c ∷ s) ≡ push_first c (some r)
unfolding scan_string
scan_string-plain quote c [] r h e = cc
scan_string-plain quote c (d ∷ s) r h e = rw e (ground arith)

scan_string-escaped :
    (quote c : ℕ) (s : Bytes)
    → (b'\\' == quote) ≡ false
    → scan_string quote (b'\\' ∷ c ∷ s) ≡ push_first c (scan_string quote s)
unfolding scan_string
scan_string-escaped quote c s h = rw h

-- Written between quotes, with a backslash before each quote and each backslash, an ASCII text is
-- read back by the tokenizer's loop, which stops right after the closing quote.
pub scan_string-escape :
    (quote : ℕ) (s rest : Bytes)
    → (b'\\' == quote) ≡ false
    → IsAscii s
    → scan_string quote (escape quote s ++ quote ∷ rest) ≡ some (s, rest)
scan_string-escape quote [] rest q _ = scan_string-close quote rest
scan_string-escape quote (c ∷ s) rest q (lt, h) =
    let ih = scan_string-escape quote s rest q h in
    elim (Bool-cases (c == quote || c == b'\\')) [
      | inl t ↦ rw (
        t,
        scan_string-escaped quote c (escape quote s ++ quote ∷ rest) q,
        ih,
        push_char_ascii c s lt,
      )
      | inr f ↦ rw (
        f,
        scan_string-plain quote c (escape quote s ++ quote ∷ rest) (s, rest) f ih,
        push_char_ascii c s lt,
      )
    ]

-- A text all of whose bytes are outside ASCII is read as another text, of twice the length, whatever
-- quote it stands between.
pub scan_string_wide :
    (quote : ℕ) (s rest : Bytes)
    → quote < 128
    → All (λ c. 128 ≤ c) s
    → (t : Bytes) × ((scan_string quote (s ++ quote ∷ rest) ≡ some (t, rest))
        × (length t ≡ length s * 2))
scan_string_wide quote [] rest q _ = ([], (scan_string-close quote rest, refl))
scan_string_wide quote (c ∷ s) rest q (le, h) =
    let (t, (e, n)) = scan_string_wide quote s rest q h in
    (
      push_char c t,
      (
        scan_string-plain quote c (s ++ quote ∷ rest) (t, rest) (ground arith) e,
        push_char_wide c t (length s) le n,
      ),
    )
