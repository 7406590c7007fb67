-- ===== src/Query/Lexer/Laws.antt =====
-- How much of the text a round of the tokenizer of crates/omp-core/src/query.rs leaves.
use open_memory_protocol.Base.{
  inr, inl, Bool-cases, true, ◌≡◌, ◌||◌, ◌==◌, ℕ, zero, suc, ◌+◌, ◌-◌, ◌≤◌, [], ◌∷◌, Option, none,
  some, length, arith,
}
use open_memory_protocol.Base.Bytes.{Bytes}
use open_memory_protocol.Query.{Floats, Op, Tok}
use open_memory_protocol.Query.Lexer.{
  is_digit, push_first, scan_string, scan_number, scan_ident, lex_order, lex_bang, lex_string,
  lex_number, lex_word, lex_one, lex, tokenize,
}
use open_memory_protocol.Query.Parser.Fuel.{Ends, Ends-bind}

-- The bytes left after a string that ended.
abbrev Rests : ℕ → Option (Bytes × Bytes) → Type 0
Rests n none = Unit
Rests n (some (buf, rest)) = length rest ≤ n

push_first-Rests :
    (b n k : ℕ) (o : Option (Bytes × Bytes)) → n ≤ k → Rests n o → Rests k (push_first b o)
push_first-Rests b n k none le h = tt
push_first-Rests b n k (some (buf, rest)) le h = omega arith

scan_string-Rests : (quote : ℕ) (s : Bytes) → Rests (length s) (scan_string quote s)
unfolding scan_string
scan_string-Rests quote [] = tt
scan_string-Rests quote (c ∷ []) = ground arith
scan_string-Rests quote (c ∷ d ∷ s) =
    let escaped =
      push_first-Rests d (length s) (length (c ∷ d ∷ s)) (scan_string quote s) (omega arith)
        (scan_string-Rests quote s) in
    let plain =
      push_first-Rests c (length (d ∷ s)) (length (c ∷ d ∷ s)) (scan_string quote (d ∷ s))
        (omega arith) (scan_string-Rests quote (d ∷ s)) in
    ground arith

scan_number-le : (s : Bytes) → length ((scan_number s).2) ≤ length s
unfolding scan_number
scan_number-le [] = omega arith
scan_number-le (c ∷ []) = ground arith
scan_number-le (c ∷ d ∷ s) = let ih = scan_number-le (d ∷ s) in ground arith

-- A number reads at least its first digit.
scan_number_lt :
    (c : ℕ) (s : Bytes) → is_digit c ≡ true → length ((scan_number (c ∷ s)).2) ≤ length s
unfolding scan_number
scan_number_lt c [] h = ground arith
scan_number_lt c (d ∷ s) h = let ih = scan_number-le (d ∷ s) in ground arith

scan_ident-le : (s : Bytes) → length ((scan_ident s).1) ≤ length s
unfolding scan_ident
scan_ident-le [] = omega arith
scan_ident-le (c ∷ s) = let ih = scan_ident-le s in ground arith

-- The bytes left after a round.
module _ (fl : Floats) where
  abbrev rest_of : Option (Tok fl) × Bytes → ℕ
  rest_of (kind, rest) = length rest

  lex_bang-Ends : (pos : ℕ) (s : Bytes) → Ends rest_of (length s) (lex_bang fl pos s)
  unfolding lex_bang
  lex_bang-Ends pos [] = tt
  lex_bang-Ends pos (d ∷ s) = ground arith

  lex_order-le : (o w : Op) (s : Bytes) → length ((lex_order fl o w s).1) ≤ length s
  unfolding lex_order
  lex_order-le o w [] = omega arith
  lex_order-le o w (d ∷ s) = ground arith

  lex_string-Ends :
      (pos quote : ℕ) (s : Bytes) → Ends rest_of (length s) (lex_string fl pos quote s)
  unfolding lex_string
  lex_string-Ends pos quote s = let r = scan_string-Rests quote s in ground arith

  lex_number-Ends :
      (pos c : ℕ) (s : Bytes)
      → (is_digit c || c == b'-') ≡ true
      → Ends rest_of (length s) (lex_number fl pos c s)
  unfolding lex_number
  lex_number-Ends pos c s h = elim (Bool-cases (c == b'-')) [
    | inl t ↦ (let le = scan_number-le s in ground arith)
    | inr f ↦ (let le = scan_number_lt c s (ground arith) in ground arith)
  ]

  lex_word-le : (c : ℕ) (s : Bytes) → length ((lex_word fl c s).1) ≤ length s
  unfolding lex_word
  lex_word-le c s = scan_ident-le s

  lex_one-Ends : (pos c : ℕ) (s : Bytes) → Ends rest_of (length s) (lex_one fl pos c s)
  unfolding lex_one
  lex_one-Ends pos c s =
      let bang = lex_bang-Ends pos s in
      let lt = lex_order-le Op.lt Op.le s in
      let gt = lex_order-le Op.gt Op.ge s in
      let str = lex_string-Ends pos c s in
      let num = lex_number-Ends pos c s in let word = lex_word-le c s in ground arith

  -- With as much fuel as bytes, the loop ends.
  lex-Ends : (fuel pos : ℕ) (s : Bytes) → length s ≤ fuel → Ends (λ out. 0) 0 (lex fl fuel pos s)
  unfolding lex
  lex-Ends fuel pos [] h = omega arith
  lex-Ends zero pos (c ∷ s) h = absurd (omega arith)
  lex-Ends (suc fuel) pos (c ∷ s) h =
      Ends-bind rest_of (λ out. 0) (length s) 0 (lex_one fl pos c s) _ (lex_one-Ends pos c s)
        (λ (kind, rest) le.
          Ends-bind (λ out. 0) (λ out. 0) 0 0
            (lex fl fuel (pos + (length (c ∷ s) - length rest)) rest) _
            (lex-Ends fuel (pos + (length (c ∷ s) - length rest)) rest (omega arith))
            (λ out le₂. omega arith))

  pub tokenize-Ends : (s : Bytes) → Ends (λ out. 0) 0 (tokenize fl s)
  unfolding tokenize
  tokenize-Ends s = lex-Ends (length s) 0 s (omega arith)
