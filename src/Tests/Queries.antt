-- ===== src/Tests/Queries.antt =====
-- Queries.
use open_memory_protocol.Base.{
  true, ◌↔◌, length, ℕ, [], ◌∷◌, ◌++◌, false, some, err, refl, ◌≡◌, ◌≢◌, arith, none, map, ◌*◌,
}
use open_memory_protocol.Base.Bytes.{Bytes, codes}
use open_memory_protocol.Query.{Floats, Failure}
use open_memory_protocol.Query.Lexer.{scan_string}
use open_memory_protocol.Query.Lexer.Strings.{escape, scan_string-escape, scan_string_wide}
use open_memory_protocol.Query.Parser.{parse}
use open_memory_protocol.Query.Termination.{parse-ends}
use open_memory_protocol.Query.Evaluate.{lowercase, Fields, Manifest, resolve_path}
use open_memory_protocol.Query.Evaluate.Paths.{resolve_path-lowercase}
use open_memory_protocol.Query.Evaluate.{compare_text}
use open_memory_protocol.Query.{Op}
use open_memory_protocol.Query.Evaluate.Texts.{compare_text_iff}
use open_memory_protocol.Tests.Fixtures.{hash_1}

-- Floats as integers, for queries without floats.
abbrev pub no_floats : Floats
no_floats = record {
  Float = ℕ;
  parse = λ s. none;
  of_int = λ n. 0;
  sub = λ a b. 0;
  abs = λ a. a;
  lt = λ a b. false;
  le = λ a b. false;
  epsilon = 0;
}

parse-ends_example : parse no_floats (codes "not (a.b = 3 or exists(c))") ≢ err Failure.out_of_fuel
parse-ends_example = parse-ends no_floats (codes "not (a.b = 3 or exists(c))")

scan_string-escape_example :
    scan_string b'"' (escape b'"' (codes "a\\b") ++ b'"' ∷ codes " x")
    ≡ some (codes "a\\b", codes " x")
scan_string-escape_example = scan_string-escape b'"' (codes "a\\b") (codes " x") refl (omega arith)

scan_string_wide_example :
    (t : Bytes) × ((scan_string b'"' ((0xc3 ∷ 0xa9 ∷ []) ++ b'"' ∷ []) ≡ some (t, []))
      × (length t ≡ length {A = ℕ} (0xc3 ∷ 0xa9 ∷ []) * 2))
scan_string_wide_example = scan_string_wide b'"' (0xc3 ∷ 0xa9 ∷ []) [] (omega arith) (omega arith)

abbrev note : Manifest no_floats
note = record {
  source_hash = hash_1;
  file_type = codes "text";
  schema_hash = hash_1;
  ingested_at = codes "2024-01-01T00:00:00Z";
  ingester_version = codes "1";
  probe_hashes = [];
  fields = Fields.end;
}

resolve_path-lowercase_example :
    resolve_path no_floats note (map lowercase (codes "File_Type" ∷ []))
    ≡ resolve_path no_floats note (codes "File_Type" ∷ [])
resolve_path-lowercase_example = resolve_path-lowercase no_floats note (codes "File_Type" ∷ [])

compare_text_iff_example :
    ((compare_text (codes "note") Op.contains (codes "ot") ≡ true)
      ↔ ((l : Bytes) × ((r : Bytes) × (codes "note" ≡ l ++ (codes "ot" ++ r)))))
    × ((compare_text (codes "note") Op.starts_with (codes "ot") ≡ true)
        ↔ ((r : Bytes) × (codes "note" ≡ codes "ot" ++ r)))
compare_text_iff_example = compare_text_iff (codes "note") (codes "ot")
