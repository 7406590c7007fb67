-- ===== src/Tree/Newline.antt =====
-- Names with a line feed in crates/omp-core/src/tree.rs, in plain trees.
use open_memory_protocol.Base.{
  [], ◌∷◌, ◌++◌, none, ok, err, >>=-eq-ok, ◌≡◌, ◌≢◌, refl, arith, append_assoc, List,
}
use open_memory_protocol.Base.Bytes.{Bytes, Lacks, lines, lines-append, split_once_of_Lacks}
use open_memory_protocol.Base.Utf8.{IsText, IsAscii-IsText, IsText-append, IsText-is_utf8}
use open_memory_protocol.Base.SortedMap
use open_memory_protocol.Base.SortedMap.{SortedMap}
use open_memory_protocol.Error.{OmpError}
use open_memory_protocol.Hash.{IsHash}
use open_memory_protocol.Crypto.{Primitives}
use open_memory_protocol.Tree.{
  Entry, Tree, empty, insert, serialize, serialize_entries, parse, parse_with_path_key,
  parse_entries, parse_line, peek_marker, key_for, validate_name, write_line, open_name,
}
use open_memory_protocol.Tree.Lines.{
  parse_line-write_line, write_line-Lacks, write_line-IsText, strip_cr-write_line,
  write_line_ne_nil, write_line_ne_marker,
}
use open_memory_protocol.Tree.RoundTrip.{IsField, IsName, parse_entries-cons}

write_line-append :
    (e : Entry) (l r : Bytes)
    → write_line e (l ++ 10 ∷ r) ++ 10 ∷ [] ≡ write_line e l ++ 10 ∷ (r ++ 10 ∷ [])
unfolding write_line
write_line-append e l r = simp append_assoc

parse_entries_no_tab :
    (p : Primitives) (out : SortedMap Entry) (r : Bytes) (more : List Bytes)
    → r ≢ []
    → Lacks 9 r
    → parse_entries p none out (r ∷ more) ≡ err OmpError.corrupt
unfolding parse_entries parse_line
parse_entries_no_tab p out [] more ne h = absurd (ne refl)
parse_entries_no_tab p out (c ∷ r) more ne h = rw (split_once_of_Lacks 9 (c ∷ r) h)

split_name-IsText :
    (e : Entry) (l r : Bytes)
    → IsHash e.hash
    → IsField l
    → IsField r
    → IsText (write_line e l ++ 10 ∷ (r ++ 10 ∷ []))
split_name-IsText e l r h fl fr =
    IsText-append (write_line e l) _ (write_line-IsText e l h fl.is_text) (
      IsText-append (10 ∷ []) _ (IsAscii-IsText (10 ∷ []) (omega arith))
        (IsText-append r (10 ∷ []) fr.is_text (IsAscii-IsText (10 ∷ []) (omega arith))))

split_name_lines :
    (e : Entry) (l r : Bytes)
    → IsHash e.hash
    → IsField l
    → IsField r
    → lines (write_line e l ++ 10 ∷ (r ++ 10 ∷ [])) ≡ write_line e l ∷ r ∷ []
split_name_lines e l r h fl fr =
    rw
      (
        lines-append (write_line e l) (r ++ 10 ∷ []) (write_line-Lacks e l h fl.lacks),
        strip_cr-write_line e l fl.ends,
        lines-append r [] fr.lacks,
        fr.ends,
      )
      (unfold lines in refl)

-- If `insert` accepts a name made of two names with a line feed between them, the second without a
-- tab, then the tree that it gives serializes to a body that `parse` rejects as corrupt.
pub insert-newline_unreadable :
    (p : Primitives) (l r : Bytes) (e : Entry) (t : Tree)
    → IsHash e.hash
    → IsName l
    → IsName r
    → r ≢ []
    → Lacks 9 r
    → insert empty (l ++ 10 ∷ r) e ≡ ok t
    → parse p (serialize t) ≡ err OmpError.corrupt
unfolding insert serialize serialize_entries parse parse_with_path_key peek_marker key_for
    SortedMap.insert
insert-newline_unreadable p l r e t h nl nr ne tabs i =
    let (_, _, k) = >>=-eq-ok (validate_name (l ++ 10 ∷ r)) _ i in
    let f : record { entries = (l ++ 10 ∷ r, e) ∷ [] } ≡ t = cc k in
    rw (
      ← f,
      write_line-append e l r,
      IsText-is_utf8 _ (split_name-IsText e l r h nl.field nr.field),
      split_name_lines e l r h nl.field nr.field,
      write_line_ne_marker e l,
      parse_entries-cons p none [] (write_line e l) (r ∷ []) l e (write_line_ne_nil e l)
          (parse_line-write_line p none e l l h (unfold open_name in refl) nl.valid),
      parse_entries_no_tab p (SortedMap.insert l e []) r [] ne tabs,
    )
