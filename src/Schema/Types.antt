-- ===== src/Schema/Types.antt =====
-- The names of the field types of crates/omp-core/src/schema.rs.
use open_memory_protocol.Base.{Bool, true, false, ok, ◌++◌, ◌≡◌, refl, if◌then◌else◌}
use open_memory_protocol.Base.Bytes.{codes}
use open_memory_protocol.Schema.{FieldType, as_str, parse, strip_question, parse_nullable}

-- A type's name is read back, as nullable when a question mark follows it and as not nullable when
-- nothing does.
parse_nullable-as_str :
    (t : FieldType) (nullable : Bool)
    → parse_nullable (as_str t ++ (if nullable then codes "?" else codes "")) ≡ ok (t, nullable)
unfolding parse_nullable as_str parse strip_question open_memory_protocol.Base.Bytes.beq
parse_nullable-as_str FieldType.string true = refl
parse_nullable-as_str FieldType.string false = refl
parse_nullable-as_str _ true = refl
parse_nullable-as_str _ false = refl
