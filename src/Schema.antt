-- ===== src/Schema.antt =====
-- crates/omp-core/src/schema.rs: the field types, what values they accept, slugs and the MIME
-- patterns. A text of characters is the list of their code points.
pub mod Types
pub mod Glob
pub mod Slug
use open_memory_protocol.Base.{
  not, ℕ, List, [], ◌∷◌, ◌++◌, Bool, true, false, within, ◌==◌, ◌||◌, ◌&&◌, if◌then◌else◌, Result,
  ok, err, ◌>>=◌, map, Option, none, some,
}
use open_memory_protocol.Base.Bytes.{Bytes, codes, beq}
use open_memory_protocol.Error.{OmpError}
use open_memory_protocol.Hex.RoundTrip.{to_lower}
use open_memory_protocol.Query.{Floats}
use open_memory_protocol.Query.Evaluate.{FieldValue, Items, lowercase}

pub data FieldType : Type 0 where
  string int float bool datetime list_string list_int list_float list_bool : FieldType
  list_datetime object : FieldType

unfoldable pub parse : Bytes → Result OmpError FieldType
parse s =
    if beq s (codes "string")
    then ok FieldType.string
    else if beq s (codes "int")
    then ok FieldType.int
    else if beq s (codes "float")
    then ok FieldType.float
    else if beq s (codes "bool")
    then ok FieldType.bool
    else if beq s (codes "datetime")
    then ok FieldType.datetime
    else if beq s (codes "list[string]")
    then ok FieldType.list_string
    else if beq s (codes "list[int]")
    then ok FieldType.list_int
    else if beq s (codes "list[float]")
    then ok FieldType.list_float
    else if beq s (codes "list[bool]")
    then ok FieldType.list_bool
    else if beq s (codes "list[datetime]")
    then ok FieldType.list_datetime
    else if beq s (codes "object")
    then ok FieldType.object
    else err OmpError.schema_validation

unfoldable pub as_str : FieldType → Bytes
as_str FieldType.string = codes "string"
as_str FieldType.int = codes "int"
as_str FieldType.float = codes "float"
as_str FieldType.bool = codes "bool"
as_str FieldType.datetime = codes "datetime"
as_str FieldType.list_string = codes "list[string]"
as_str FieldType.list_int = codes "list[int]"
as_str FieldType.list_float = codes "list[float]"
as_str FieldType.list_bool = codes "list[bool]"
as_str FieldType.list_datetime = codes "list[datetime]"
as_str FieldType.object = codes "object"

-- `strip_suffix('?')`
unfoldable pub strip_question : Bytes → Option Bytes
strip_question [] = none
strip_question (c ∷ []) = if c == b'?' then some [] else none
strip_question (c ∷ d ∷ s) = elim (strip_question (d ∷ s)) [
  | none ↦ none
  | some inner ↦ some (c ∷ inner)
]

unfoldable pub parse_nullable : Bytes → Result OmpError (FieldType × Bool)
parse_nullable s = elim (strip_question s) [
  | some inner ↦ (do ty ← parse inner; ok (ty, true))
  | none ↦ (do ty ← parse s; ok (ty, false))
]

module _ (fl : Floats) where
  unfoldable pub all_items : (FieldValue fl → Bool) → Items fl → Bool
  all_items test Items.nil = true
  all_items test (Items.cons v items) = test v && all_items test items

  abbrev is_string : FieldValue fl → Bool
  is_string (FieldValue.string _) = true
  is_string _ = false

  abbrev is_int : FieldValue fl → Bool
  is_int (FieldValue.int _) = true
  is_int _ = false

  abbrev is_number : FieldValue fl → Bool
  is_number (FieldValue.float _) = true
  is_number (FieldValue.int _) = true
  is_number _ = false

  abbrev is_bool : FieldValue fl → Bool
  is_bool (FieldValue.bool _) = true
  is_bool _ = false

  abbrev is_date : FieldValue fl → Bool
  is_date (FieldValue.string _) = true
  is_date (FieldValue.datetime _) = true
  is_date _ = false

  unfoldable pub accepts : FieldType → FieldValue fl → Bool
  accepts _ FieldValue.null = true
  accepts FieldType.string (FieldValue.string _) = true
  accepts FieldType.int (FieldValue.int _) = true
  accepts FieldType.float (FieldValue.float _) = true
  accepts FieldType.float (FieldValue.int _) = true
  accepts FieldType.bool (FieldValue.bool _) = true
  accepts FieldType.datetime (FieldValue.string _) = true
  accepts FieldType.datetime (FieldValue.datetime _) = true
  accepts FieldType.object (FieldValue.object _) = true
  accepts FieldType.list_string (FieldValue.list items) = all_items is_string items
  accepts FieldType.list_int (FieldValue.list items) = all_items is_int items
  accepts FieldType.list_float (FieldValue.list items) = all_items is_number items
  accepts FieldType.list_bool (FieldValue.list items) = all_items is_bool items
  accepts FieldType.list_datetime (FieldValue.list items) = all_items is_date items
  accepts _ _ = false

abbrev pub is_alphanumeric : ℕ → Bool
is_alphanumeric c = within b'a' b'z' c || within b'A' b'Z' c || within b'0' b'9' c

abbrev pub is_empty : List ℕ → Bool
is_empty [] = true
is_empty (_ ∷ _) = false

abbrev pub reverse_onto : List ℕ → List ℕ → List ℕ
reverse_onto [] out = out
reverse_onto (c ∷ s) out = reverse_onto s (c ∷ out)

-- The loop of `slugify` over the characters, with `last_dash`, and `out` with its end first.
unfoldable pub slug_loop : Bool → List ℕ → List ℕ → List ℕ
slug_loop last_dash out [] = out
slug_loop last_dash out (c ∷ s) =
    let letter = slug_loop false (to_lower c ∷ out) s in
    let dashed = slug_loop true (b'-' ∷ out) s in
    let skipped = slug_loop last_dash out s in
    if is_alphanumeric c
    then letter
    else if not last_dash && not (is_empty out)
    then dashed
    else skipped

-- The `pop` of a dash at the end.
unfoldable pub pop_dash : List ℕ → List ℕ
pop_dash [] = []
pop_dash (c ∷ out) = if c == b'-' then out else c ∷ out

unfoldable pub slugify : List ℕ → List ℕ
slugify s = reverse_onto (pop_dash (slug_loop false [] s)) []

-- The tails of a text, at each of which a `*` tries the rest of the pattern.
unfoldable pub star : (List ℕ → Bool) → List ℕ → Bool
star rest [] = rest []
star rest (c ∷ t) = rest (c ∷ t) || star rest t

unfoldable pub one : (ℕ → Bool) → (List ℕ → Bool) → List ℕ → Bool
one test rest [] = false
one test rest (c ∷ t) = test c && rest t

unfoldable pub glob_inner : List ℕ → List ℕ → Bool
glob_inner [] t = is_empty t
glob_inner (p ∷ ps) t =
    let rest = glob_inner ps in
    if p == b'*'
    then star rest t
    else if p == b'?'
    then one (λ _. true) rest t
    else one (λ c. c == p) rest t

unfoldable pub mime_matches : List ℕ → List ℕ → Bool
mime_matches pattern mime = glob_inner (lowercase pattern) (lowercase mime)
