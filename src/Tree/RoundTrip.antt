-- ===== src/Tree/RoundTrip.antt =====
-- Serializing and parsing trees, plain and with sealed names.
use open_memory_protocol.Base.{
  [], ◌∷◌, ◌++◌, List, false, Option, none, ok, All, ◌≡◌, ◌≢◌, refl, ◌∙◌, arith,
}
use open_memory_protocol.Base.Bytes.{Bytes, Lacks, lines, lines-append, strip_cr}
use open_memory_protocol.Base.Utf8.{IsText, IsAscii-IsText, IsText-append, IsText-is_utf8}
use open_memory_protocol.Base.SortedMap
use open_memory_protocol.Base.SortedMap.{SortedMap, IsSorted, insert_all, insert_all_of_IsSorted}
use open_memory_protocol.Hash.{IsHash}
use open_memory_protocol.Crypto.{Primitives}
use open_memory_protocol.Tree.{
  Entry, Tree, validate_name, write_line, serialize_entries, serialize, open_name, parse_line,
  parse_entries, peek_marker, key_for, parse_with_path_key,
}
use open_memory_protocol.Tree.Lines.{
  parse_line-write_line, write_line-Lacks, write_line-IsText, strip_cr-write_line,
  write_line_ne_nil, write_line_ne_marker,
}

-- A name field that stands on one line.
pub record IsField (field : Bytes) : Type 0 where
  pub lacks : Lacks 10 field
  pub ends : strip_cr field ≡ field
  pub is_text : IsText field

-- A name that a plain tree can hold: valid, UTF-8, on one line, and with no CR at its end.
pub record IsName (name : Bytes) : Type 0 where
  pub valid : validate_name name ≡ ok tt
  pub field : IsField name

abbrev pub HasGoodEntries : SortedMap Entry → Type 0
HasGoodEntries = All (λ e. IsName e.0 × IsHash e.1.hash)

-- A tree in the form that `parse_with_path_key` gives back.
pub record IsWellFormed (t : Tree) : Type 0 where
  pub sorted : IsSorted t.entries
  pub good : HasGoodEntries t.entries

module _ (p : Primitives) (key : Option Bytes) where
  -- The lines of a body, one for each entry, whose fields open to the names.
  abbrev pub Written : SortedMap Entry → Bytes → Type 0
  Written [] body = body ≡ []
  Written ((name, e) ∷ m) body =
      (field : Bytes) × (rest : Bytes) × (body ≡ write_line e field ++ 10 ∷ rest)
      × IsField field
      × IsHash e.hash
      × (open_name p key field ≡ ok name)
      × (validate_name name ≡ ok tt)
      × Written m rest

  pub parse_entries-cons :
      (out : SortedMap Entry) (line : Bytes) (more : List Bytes) (name : Bytes) (e : Entry)
      → line ≢ []
      → parse_line p key line ≡ ok (name, e)
      → parse_entries p key out (line ∷ more)
        ≡ parse_entries p key (SortedMap.insert name e out) more
  unfolding parse_entries
  parse_entries-cons out [] more name e ne h = absurd (ne refl)
  parse_entries-cons out (c ∷ line) more name e ne h = rw h

  pub parse_entries-Written :
      (m out : SortedMap Entry) (body : Bytes)
      → Written m body
      → parse_entries p key out (lines body) ≡ ok (insert_all out m)
  unfolding insert_all
  parse_entries-Written [] out body e = rw e (unfold lines parse_entries in refl)
  parse_entries-Written ((name, e) ∷ m) out body (field, rest, eq, good, h, o, v, w) =
      rw
        (
          eq,
          lines-append (write_line e field) rest (write_line-Lacks e field h good.lacks),
          strip_cr-write_line e field good.ends,
        )
        (parse_entries-cons out (write_line e field) (lines rest) name e (write_line_ne_nil e field)
            (parse_line-write_line p key e field name h o v)
          ∙ parse_entries-Written m (SortedMap.insert name e out) rest w)

  pub Written-IsText : (m : SortedMap Entry) (body : Bytes) → Written m body → IsText body
  Written-IsText [] body e = rw e (IsAscii-IsText [] tt)
  Written-IsText ((name, e) ∷ m) body (field, rest, eq, good, h, o, v, w) = rw eq (
      IsText-append (write_line e field) (10 ∷ rest) (write_line-IsText e field h good.is_text) (
        IsText-append (10 ∷ []) rest (IsAscii-IsText (10 ∷ []) (omega arith))
          (Written-IsText m rest w)))

  pub peek_marker-Written :
      (m : SortedMap Entry) (body : Bytes)
      → Written m body
      → peek_marker p (lines body) ≡ (false, lines body)
  unfolding peek_marker
  peek_marker-Written [] body e = rw e (unfold lines in refl)
  peek_marker-Written ((name, e) ∷ m) body (field, rest, eq, good, h, o, v, w) = rw (
    eq,
    lines-append (write_line e field) rest (write_line-Lacks e field h good.lacks),
    strip_cr-write_line e field good.ends,
    write_line_ne_marker e field,
  )

module _ (p : Primitives) where
  serialize-Written :
      (m : SortedMap Entry) → HasGoodEntries m → Written p none m (serialize_entries m)
  unfolding serialize_entries open_name
  serialize-Written [] _ = refl
  serialize-Written ((name, e) ∷ m) ((n, h), g) =
      (name, serialize_entries m, refl, n.field, h, refl, n.valid, serialize-Written m g)

  -- A well-formed tree, serialized with plain names, parses to itself, whether the reader holds a
  -- path key or not.
  pub parse-serialize :
      (path_key : Option Bytes) (t : Tree)
      → IsWellFormed t
      → parse_with_path_key p path_key (serialize t) ≡ ok t
  unfolding parse_with_path_key serialize key_for
  parse-serialize path_key t good =
      let w = serialize-Written t.entries good.good in
      rw (
        IsText-is_utf8 _ (Written-IsText p none t.entries _ w),
        peek_marker-Written p none t.entries _ w,
        parse_entries-Written p none t.entries [] _ w,
        insert_all_of_IsSorted t.entries good.sorted,
      )
