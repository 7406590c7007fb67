-- ===== src/Commit/Lines.antt =====
-- The header lines of a commit of crates/omp-core/src/commit.rs, as they are read.
use open_memory_protocol.Base.Graphic.{IsGraphic}
use open_memory_protocol.Base.{
  All-map, ap2, ℕ, ◌+◌, List, [], ◌∷◌, ◌++◌, some, ok, All, All-append, length, length-append,
  append_assoc, append-nil, ◌≡◌, ◌≢◌, refl, ap, sym, ◌∙◌, arith, ==-ne,
}
use open_memory_protocol.Base.Bytes.{Bytes, codes, Lacks, strip_prefix, strip_prefix-append}
use open_memory_protocol.Base.Trim.{
  trim_end_matches, trim_end_matches-append, trim_end_matches-Lacks,
}
use open_memory_protocol.Hash.{Hash, IsHash, hex}
use open_memory_protocol.Hash.Text.{from_str-hex, hex-Lacks}
use open_memory_protocol.Commit.{
  Author, format, Commit, serialize_parents, serialize_headers, split_inclusive, Headers,
  no_headers, parse_header, read_headers,
}
use open_memory_protocol.Commit.Authors.{IsAuthor, parse_author-format}

split_inclusive-append :
    (l rest : Bytes)
    → Lacks 10 l
    → split_inclusive (l ++ 10 ∷ rest) ≡ (l ++ 10 ∷ []) ∷ split_inclusive rest
unfolding split_inclusive
split_inclusive-append [] rest h = refl
split_inclusive-append (c ∷ l) rest (p, h) = rw (==-ne c 10 p, split_inclusive-append l rest h)

trim_line : (l : Bytes) → Lacks 10 l → trim_end_matches 10 (l ++ 10 ∷ []) ≡ l
trim_line l h = trim_end_matches-append 10 l ∙ trim_end_matches-Lacks 10 l h

-- A header line that is read changes the headers, and its bytes are counted.
read_line :
    (h h' : Headers) (n : ℕ) (c : ℕ) (l rest : Bytes)
    → Lacks 10 (c ∷ l)
    → parse_header h (c ∷ l) ≡ ok h'
    → read_headers h n (split_inclusive ((c ∷ l) ++ 10 ∷ rest))
      ≡ read_headers h' (n + length (c ∷ l ++ 10 ∷ [])) (split_inclusive rest)
unfolding read_headers
read_line h h' n c l rest lacks e =
    ap (read_headers h n) (split_inclusive-append (c ∷ l) rest lacks)
    ∙ rw (trim_line (c ∷ l) lacks, e)

read_blank :
    (h : Headers) (n : ℕ) (rest : Bytes)
    → read_headers h n (split_inclusive (10 ∷ rest)) ≡ ok (h, n + 1)
unfolding read_headers split_inclusive trim_end_matches
read_blank h n rest = refl

parse_header-tree :
    (h : Headers) (t : Hash)
    → IsHash t
    → parse_header h (codes "tree " ++ hex t) ≡ ok (record h { tree = some t })
unfolding parse_header
parse_header-tree h t p = rw (strip_prefix-append (codes "tree ") (hex t), from_str-hex t p)

parse_header-parent :
    (h : Headers) (t : Hash)
    → IsHash t
    → parse_header h (codes "parent " ++ hex t) ≡ ok (record h { parents = h.parents ++ t ∷ [] })
unfolding parse_header strip_prefix
parse_header-parent h t p = rw (from_str-hex t p)

parse_header-author :
    (h : Headers) (a : Author)
    → IsAuthor a
    → parse_header h (codes "author " ++ format a) ≡ ok (record h { author = some a })
unfolding parse_header strip_prefix
parse_header-author h a g = rw (parse_author-format a g)

line_Lacks : (keyword l : Bytes) → Lacks 10 keyword → Lacks 10 l → Lacks 10 (keyword ++ l)
line_Lacks = All-append (λ c. c ≢ 10)

format-Lacks : (a : Author) → IsAuthor a → Lacks 10 (format a)
unfolding format
format-Lacks a g = line_Lacks a.name _ g.name_line (
    line_Lacks (codes " <") _ (omega arith) (
      line_Lacks a.email _ g.email_line (
        line_Lacks (codes "> ") a.timestamp (omega arith)
          (All-map IsGraphic (λ c. c ≢ 10) (λ c q. omega arith) a.timestamp g.graphic))))

read_parents :
    (h : Headers) (n : ℕ) (ps : List Hash) (rest : Bytes)
    → All IsHash ps
    → read_headers h n (split_inclusive (serialize_parents ps ++ rest))
      ≡ read_headers
          (record h { parents = h.parents ++ ps })
          (n + length (serialize_parents ps))
          (split_inclusive rest)
unfolding serialize_parents
read_parents h n [] rest _ =
    ap2 (λ ps m. read_headers (record h { parents = ps }) m (split_inclusive rest))
      (sym (append-nil h.parents)) (omega arith)
read_parents h n (p ∷ ps) rest (q, qs) =
    let h' = record h { parents = h.parents ++ p ∷ [] } in
    let l = codes "parent " ++ hex p in
    let more = serialize_parents ps in
    let first : length (l ++ 10 ∷ more) ≡ length (l ++ 10 ∷ []) + length more =
      (omega (arith, length-append l (10 ∷ more), length-append l (10 ∷ []))) in
    ap (λ s. read_headers h n (split_inclusive s)) (append_assoc l (10 ∷ more) rest)
    ∙ read_line h h' n 112 (codes "arent " ++ hex p) (more ++ rest)
        (line_Lacks (codes "parent ") (hex p) (omega arith) (hex-Lacks 10 p (omega arith) q))
        (parse_header-parent h p q)
    ∙ read_parents h' (n + length (l ++ 10 ∷ [])) ps rest qs
    ∙ ap2 (λ qs m. read_headers (record h { parents = qs }) m (split_inclusive rest))
        (append_assoc h.parents (p ∷ []) ps) (omega (arith, first))

pub serialize_headers-append :
    (c : Commit) (rest : Bytes) → serialize_headers c rest ≡ serialize_headers c [] ++ rest
unfolding serialize_headers
serialize_headers-append c rest = simp append_assoc

pub record IsCommit (c : Commit) : Type 0 where
  pub tree_hash : IsHash c.tree
  pub parent_hashes : All IsHash c.parents
  pub author_line : IsAuthor c.author

pub read_headers-serialize_headers :
    (c : Commit) (rest : Bytes)
    → IsCommit c
    → read_headers no_headers 0 (split_inclusive (serialize_headers c rest))
      ≡ ok (
        record { tree = some c.tree; parents = c.parents; author = some c.author },
        length (serialize_headers c []),
      )
unfolding serialize_headers
read_headers-serialize_headers c rest g =
    let tree_line = codes "tree " ++ hex c.tree in
    let author_line = codes "author " ++ format c.author in
    let ps = serialize_parents c.parents in
    let h₁ = record no_headers { tree = some c.tree } in
    let h₂ = record h₁ { parents = c.parents } in
    let h₃ = record h₂ { author = some c.author } in
    let n₁ = 0 + length (tree_line ++ 10 ∷ []) in
    let n₂ = n₁ + length ps in
    let n₃ = n₂ + length (author_line ++ 10 ∷ []) in
    let size : n₃ + 1 ≡ length (tree_line ++ 10 ∷ (ps ++ (author_line ++ 10 ∷ 10 ∷ []))) =
      (omega (
        arith,
        length-append tree_line (10 ∷ []),
        length-append author_line (10 ∷ []),
        length-append tree_line (10 ∷ (ps ++ (author_line ++ 10 ∷ 10 ∷ []))),
        length-append ps (author_line ++ 10 ∷ 10 ∷ []),
        length-append author_line (10 ∷ 10 ∷ []),
      )) in
    read_line no_headers h₁ 0 116 (codes "ree " ++ hex c.tree)
      (ps ++ (author_line ++ 10 ∷ 10 ∷ rest))
      (line_Lacks (codes "tree ") (hex c.tree) (omega arith)
        (hex-Lacks 10 c.tree (omega arith) g.tree_hash))
      (parse_header-tree no_headers c.tree g.tree_hash)
    ∙ read_parents h₁ n₁ c.parents (author_line ++ 10 ∷ 10 ∷ rest) g.parent_hashes
    ∙ read_line h₂ h₃ n₂ 97 (codes "uthor " ++ format c.author) (10 ∷ rest)
        (line_Lacks (codes "author ") (format c.author) (omega arith)
          (format-Lacks c.author g.author_line))
        (parse_header-author h₂ c.author g.author_line)
    ∙ read_blank h₃ n₃ rest
    ∙ ap (λ n. ok (h₃, n)) size
