-- ===== src/Query/Termination.antt =====
-- The fuel of the tokenizer and the parser of crates/omp-core/src/query.rs.
use open_memory_protocol.Base.{err, ◌≢◌}
use open_memory_protocol.Base.Bytes.{Bytes}
use open_memory_protocol.Query.{Floats, Failure}
use open_memory_protocol.Query.Lexer.{tokenize}
use open_memory_protocol.Query.Lexer.Laws.{tokenize-Ends}
use open_memory_protocol.Query.Parser.{parse_tokens, parse}
use open_memory_protocol.Query.Parser.Fuel.{Ends-bind, Ends-ne, parse_tokens-Ends}

-- For every text, parsing it returns an expression or a parse error at a position: neither the
-- tokenizer's loop nor the parser's calls ever run out of the fuel that they start with.
pub parse-ends : (fl : Floats) (input : Bytes) → parse fl input ≢ err Failure.out_of_fuel
unfolding parse
parse-ends fl input =
    Ends-ne (λ e. 0) 0 (parse fl input)
      (Ends-bind (λ out. 0) (λ e. 0) 0 0 (tokenize fl input) (parse_tokens fl)
        (tokenize-Ends fl input) (λ ts le. parse_tokens-Ends fl ts))
