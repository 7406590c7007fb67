-- ===== src/Query.antt =====
-- crates/omp-core/src/query.rs: the predicate language over manifests. This file has its data; the
-- tokenizer, the parser and the evaluator are the modules below. Floats are a parameter.
pub mod Lexer
pub mod Parser
pub mod Evaluate
pub mod Termination
use open_memory_protocol.Base.{ℕ, List, Bool, Option}
use open_memory_protocol.Base.Bytes.{Bytes}
use open_memory_protocol.Base.Int.{ℤ}

-- `f64` with what the program asks of it.
pub record Floats : Type 1 where
  pub Float : Type 0
  pub parse : Bytes → Option Float
  pub of_int : ℤ → Float
  pub sub : Float → Float → Float
  pub abs : Float → Float
  pub lt : Float → Float → Bool
  pub le : Float → Float → Bool
  pub epsilon : Float

pub data Op : Type 0 where
  eq ne lt le gt ge contains starts_with : Op

abbrev pub FieldPath : Type 0
FieldPath = List Bytes

module _ (fl : Floats) where
  pub data Literal : Type 0 where
    string : Bytes → Literal
    int : ℤ → Literal
    float : fl.Float → Literal
    bool : Bool → Literal
    null : Literal

  pub data Atom : Type 0 where
    compare : FieldPath → Op → Literal → Atom
    exists : FieldPath → Atom

  pub data Expr : Type 0 where
    and or : Expr → Expr → Expr
    not : Expr → Expr
    atom : Atom → Expr

  pub data Tok : Type 0 where
    ident str : Bytes → Tok
    int : ℤ → Tok
    float : fl.Float → Tok
    bool : Bool → Tok
    null and or not exists lparen rparen dot comma : Tok
    op : Op → Tok

  pub record Token : Type 0 where
    pub kind : Tok
    pub byte_pos : ℕ

-- `QueryError::Parse` with its position. `out_of_fuel` belongs to the model: it is never the result
-- of `parse`.
pub data Failure : Type 0 where
  parse : ℕ → Failure
  out_of_fuel : Failure
