-- ===== src/Query/Parser.antt =====
-- The recursive-descent parser of crates/omp-core/src/query.rs. The parser's `pos` is the list of the
-- tokens that are left; fuel bounds the depth of calls.
pub mod Fuel
use open_memory_protocol.Base.{
  ℕ, zero, suc, ◌+◌, ◌*◌, List, [], ◌∷◌, Bool, Option, none, some, Result, ok, err, ◌>>=◌, ◌>>◌,
  length,
}
use open_memory_protocol.Base.Bytes.{Bytes}
use open_memory_protocol.Query.{Floats, Op, FieldPath, Literal, Atom, Expr, Tok, Token, Failure}
use open_memory_protocol.Query.Lexer.{tokenize}

module _ (fl : Floats) where
  abbrev pub Tokens : Type 0
  Tokens = List (Token fl)

  -- A result of the parser with the tokens left.
  abbrev pub Parsed : Type 0 → Type 0
  Parsed A = Result Failure (A × Tokens)

  -- The refusal of a token that is not the one expected: at its byte, or at 0 at the end of input.
  abbrev pub refuse : {A : Type 0} → Tokens → Result Failure A
  refuse [] = err (Failure.parse 0)
  refuse (t ∷ ts) = err (Failure.parse t.byte_pos)

  abbrev take_rparen : Tok fl → Token fl → Tokens → Result Failure Tokens
  take_rparen Tok.rparen t ts = ok ts
  take_rparen _ t ts = refuse (t ∷ ts)

  -- `expect(Tok::RParen)`
  unfoldable pub expect_rparen : Tokens → Result Failure Tokens
  expect_rparen [] = refuse []
  expect_rparen (t ∷ ts) = take_rparen t.kind t ts

  abbrev take_lparen : Tok fl → Token fl → Tokens → Result Failure Tokens
  take_lparen Tok.lparen t ts = ok ts
  take_lparen _ t ts = refuse (t ∷ ts)

  -- `expect(Tok::LParen)`
  unfoldable pub expect_lparen : Tokens → Result Failure Tokens
  expect_lparen [] = refuse []
  expect_lparen (t ∷ ts) = take_lparen t.kind t ts

  abbrev take_ident : Tok fl → Token fl → Tokens → Parsed Bytes
  take_ident (Tok.ident s) t ts = ok (s, ts)
  take_ident _ t ts = refuse (t ∷ ts)

  unfoldable pub expect_ident : Tokens → Parsed Bytes
  expect_ident [] = refuse []
  expect_ident (t ∷ ts) = take_ident t.kind t ts

  abbrev is_dot : Tok fl → Bool
  is_dot Tok.dot = Bool.true
  is_dot _ = Bool.false

  abbrev pub push_segment : Bytes → Parsed FieldPath → Parsed FieldPath
  push_segment s (ok (path, ts)) = ok (s ∷ path, ts)
  push_segment s (err e) = err e

  -- The loop over `.` and an identifier.
  abbrev path_step : Tok fl → Tokens → Parsed FieldPath → Parsed FieldPath
  path_step Tok.dot ts after = after
  path_step _ ts after = ok ([], ts)

  abbrev path_segment : Tok fl → Token fl → Parsed FieldPath → Tokens → Parsed FieldPath
  path_segment (Tok.ident s) t rest ts = push_segment s rest
  path_segment _ t rest ts = refuse (t ∷ ts)

  unfoldable pub parse_path_rest : Tokens → Parsed FieldPath
  parse_path_rest [] = ok ([], [])
  parse_path_rest (t ∷ []) = path_step t.kind (t ∷ []) (refuse [])
  parse_path_rest (t ∷ u ∷ ts) =
      let rest = parse_path_rest ts in path_step t.kind (t ∷ u ∷ ts) (path_segment u.kind u rest ts)

  unfoldable pub parse_field_path : Tokens → Parsed FieldPath
  parse_field_path ts = do (first, ts₁) ← expect_ident ts; push_segment first (parse_path_rest ts₁)

  abbrev take_op : Tok fl → Token fl → Tokens → Parsed Op
  take_op (Tok.op o) t ts = ok (o, ts)
  take_op _ t ts = refuse (t ∷ ts)

  unfoldable pub expect_op : Tokens → Parsed Op
  expect_op [] = refuse []
  expect_op (t ∷ ts) = take_op t.kind t ts

  abbrev take_literal : Tok fl → Token fl → Tokens → Parsed (Literal fl)
  take_literal (Tok.str s) t ts = ok (Literal.string s, ts)
  take_literal (Tok.int n) t ts = ok (Literal.int n, ts)
  take_literal (Tok.float f) t ts = ok (Literal.float f, ts)
  take_literal (Tok.bool b) t ts = ok (Literal.bool b, ts)
  take_literal Tok.null t ts = ok (Literal.null, ts)
  take_literal _ t ts = refuse (t ∷ ts)

  unfoldable pub parse_literal : Tokens → Parsed (Literal fl)
  parse_literal [] = refuse []
  parse_literal (t ∷ ts) = take_literal t.kind t ts

  -- `exists` has been read.
  unfoldable pub parse_exists : Tokens → Parsed (Expr fl)
  parse_exists ts = do
    ts₁ ← expect_lparen ts
    (path, ts₂) ← parse_field_path ts₁
    ts₃ ← expect_rparen ts₂
    ok (Expr.atom (Atom.exists path), ts₃)

  unfoldable pub parse_compare : Tokens → Parsed (Expr fl)
  parse_compare ts = do
    (path, ts₁) ← parse_field_path ts
    (o, ts₂) ← expect_op ts₁
    (value, ts₃) ← parse_literal ts₂
    ok (Expr.atom (Atom.compare path o value), ts₃)

  -- What stands first among the tokens, as far as the calls below tell tokens apart.
  pub data Peek : Type 0 where
    or and not lparen exists other : Peek

  abbrev peek_kind : Tok fl → Peek
  peek_kind Tok.or = Peek.or
  peek_kind Tok.and = Peek.and
  peek_kind Tok.not = Peek.not
  peek_kind Tok.lparen = Peek.lparen
  peek_kind Tok.exists = Peek.exists
  peek_kind _ = Peek.other

  unfoldable pub peek : Tokens → Peek
  peek [] = Peek.other
  peek (t ∷ ts) = peek_kind t.kind

  -- The tokens after the first.
  unfoldable pub advance : Tokens → Tokens
  advance [] = []
  advance (t ∷ ts) = ts

  unfoldable mutual
    pub parse_or : ℕ → Tokens → Parsed (Expr fl)
    parse_or zero ts = err Failure.out_of_fuel
    parse_or (suc f) ts = do (left, ts₁) ← parse_and f ts; or_loop f left ts₁

    pub or_loop : ℕ → Expr fl → Tokens → Parsed (Expr fl)
    or_loop zero left ts = err Failure.out_of_fuel
    or_loop (suc f) left ts = elim (peek ts) [
      | Peek.or ↦ (do (right, ts₁) ← parse_and f (advance ts); or_loop f (Expr.or left right) ts₁)
      | _ ↦ ok (left, ts)
    ]

    pub parse_and : ℕ → Tokens → Parsed (Expr fl)
    parse_and zero ts = err Failure.out_of_fuel
    parse_and (suc f) ts = do (left, ts₁) ← parse_not f ts; and_loop f left ts₁

    pub and_loop : ℕ → Expr fl → Tokens → Parsed (Expr fl)
    and_loop zero left ts = err Failure.out_of_fuel
    and_loop (suc f) left ts = elim (peek ts) [
      | Peek.and ↦ (do
        (right, ts₁) ← parse_not f (advance ts)
        and_loop f (Expr.and left right) ts₁)
      | _ ↦ ok (left, ts)
    ]

    pub parse_not : ℕ → Tokens → Parsed (Expr fl)
    parse_not zero ts = err Failure.out_of_fuel
    parse_not (suc f) ts = elim (peek ts) [
      | Peek.not ↦ (do (inner, ts₁) ← parse_not f (advance ts); ok (Expr.not inner, ts₁))
      | _ ↦ parse_primary f ts
    ]

    pub parse_primary : ℕ → Tokens → Parsed (Expr fl)
    parse_primary zero ts = err Failure.out_of_fuel
    parse_primary (suc f) ts = elim (peek ts) [
      | Peek.lparen ↦ (do (e, ts₁) ← parse_or f (advance ts); ts₂ ← expect_rparen ts₁; ok (e, ts₂))
      | Peek.exists ↦ parse_exists (advance ts)
      | _ ↦ parse_compare ts
    ]

  -- All tokens must be used up.
  abbrev pub finish : Expr fl × Tokens → Result Failure (Expr fl)
  finish (e, []) = ok e
  finish (e, t ∷ ts) = refuse (t ∷ ts)

  unfoldable pub parse_tokens : Tokens → Result Failure (Expr fl)
  parse_tokens tokens = parse_or (length tokens * 4 + 4) tokens >>= finish

  unfoldable pub parse : Bytes → Result Failure (Expr fl)
  parse input = tokenize fl input >>= parse_tokens
