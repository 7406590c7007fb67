-- ===== src/Commit/Authors.antt =====
-- The author line of a commit of crates/omp-core/src/commit.rs.
use open_memory_protocol.Base.Graphic.{IsGraphic, trim_end_graphic, snoc_cases}
use mathlib.Core.List.{reverse, reverse-append, reverse-reverse}
use open_memory_protocol.Base.{
  All-map, append_assoc, length, All-append, ◌+◌, ◌-◌, ltb, take, drop, length-append, take-append,
  drop-append, sym, ◌∙◌, some, ok, [], ◌∷◌, ◌++◌, false, All, ◌≡◌, ◌≢◌, refl, ap, arith,
}
use open_memory_protocol.Base.Bytes.{Bytes, Lacks}
use open_memory_protocol.Base.Trim.{
  rsplit_once-append, rfind, trim, begins_white, begins_white-append, skip_white_of_begins,
  skip_white_space, white_2, white_3, white_2', white_3', trim_start, trim_end,
}
use open_memory_protocol.Base.Utf8.{IsText}
use open_memory_protocol.Commit.{parse_author, format, Author}

-- An author that the author line can hold: a name with no white space at its ends, an e-mail address
-- without `<`, a time in printable ASCII, and no line feed.
pub record IsAuthor (a : Author) : Type 0 where
  pub named : a.name ≢ []
  pub starts : begins_white white_2 white_3 a.name ≡ false
  pub ends : begins_white white_2' white_3' (reverse a.name) ≡ false
  pub lacks : Lacks b'<' a.email
  pub timed : a.timestamp ≢ []
  pub graphic : All IsGraphic a.timestamp
  pub name_line : Lacks 10 a.name
  pub email_line : Lacks 10 a.email
  pub name_text : IsText a.name
  pub email_text : IsText a.email

trim_end_name :
    (name : Bytes)
    → begins_white white_2' white_3' (reverse name) ≡ false
    → trim_end (name ++ 32 ∷ []) ≡ name
unfolding trim_end
trim_end_name name h = rw (
  reverse-append name (32 ∷ []),
  skip_white_space white_2' white_3' (reverse name),
  skip_white_of_begins white_2' white_3' (reverse name) h,
  reverse-reverse name,
)

trim_start_name :
    (name rest : Bytes)
    → name ≢ []
    → begins_white white_2 white_3 name ≡ false
    → trim_start (name ++ 32 ∷ rest) ≡ name ++ 32 ∷ rest
unfolding trim_start
trim_start_name name rest ne h = skip_white_of_begins white_2 white_3 (name ++ 32 ∷ rest) (
    begins_white-append white_2 white_3 (λ a b lt. ground arith) (λ a b c lt. ground arith)
      (λ a b c lt. ground arith) name 32 rest ne h (omega arith))

-- What stands before the time.
abbrev before : Author → Bytes
before a = a.name ++ 32 ∷ 60 ∷ (a.email ++ 62 ∷ [])

format-before : (a : Author) → format a ≡ before a ++ 32 ∷ a.timestamp
unfolding format
format-before a = simp append_assoc

before-start : (a : Author) → before a ≡ (a.name ++ 32 ∷ []) ++ 60 ∷ (a.email ++ 62 ∷ [])
before-start a = simp append_assoc

before-mail : (a : Author) → before a ≡ (a.name ++ 32 ∷ 60 ∷ []) ++ (a.email ++ 62 ∷ [])
before-mail a = simp append_assoc

before-end : (a : Author) → before a ≡ (a.name ++ 32 ∷ 60 ∷ a.email) ++ 62 ∷ []
before-end a = simp append_assoc

trim-format : (a : Author) → IsAuthor a → trim (format a) ≡ format a
unfolding trim
trim-format a g =
    let (t, (c, (e, p))) = snoc_cases IsGraphic a.timestamp g.timed g.graphic in
    let start : trim_start (format a) ≡ format a =
      unfold format in
      (trim_start_name a.name (60 ∷ (a.email ++ 62 ∷ 32 ∷ a.timestamp)) g.named g.starts) in
    let shape : format a ≡ (before a ++ 32 ∷ t) ++ c ∷ [] =
      (format-before a
        ∙ ap (λ u. before a ++ 32 ∷ u) e
        ∙ sym (append_assoc (before a) (32 ∷ t) (c ∷ []))) in
    ap trim_end start ∙ ap trim_end shape ∙ trim_end_graphic (before a ++ 32 ∷ t) c p ∙ sym shape

rfind-start : (a : Author) → IsAuthor a → rfind 60 (before a) ≡ some (length (a.name ++ 32 ∷ []))
unfolding rfind
rfind-start a g = rw (
  before-start a,
  rsplit_once-append 60 (a.name ++ 32 ∷ []) (a.email ++ 62 ∷ [])
      (All-append (λ c. c ≢ 60) a.email (62 ∷ []) g.lacks (omega arith)),
)

rfind-end : (a : Author) → rfind 62 (before a) ≡ some (length (a.name ++ 32 ∷ 60 ∷ a.email))
unfolding rfind
rfind-end a = rw (before-end a, rsplit_once-append 62 (a.name ++ 32 ∷ 60 ∷ a.email) [] tt)

-- The author line of an author that it can hold reads back as the author.
pub parse_author-format : (a : Author) → IsAuthor a → parse_author (format a) ≡ ok a
unfolding parse_author
parse_author-format a g =
    let n = length (a.name ++ 32 ∷ []) in
    let ne : n ≡ length a.name + 1 = length-append a.name (32 ∷ []) in
    let ends : trim_end (before a) ≡ before a =
      (rw (before-end a) (trim_end_graphic (a.name ++ 32 ∷ 60 ∷ a.email) 62 (omega arith))) in
    let len : length (a.name ++ 32 ∷ 60 ∷ a.email) ≡ n + 1 + length a.email =
      (omega (arith, length-append a.name (32 ∷ 60 ∷ a.email))) in
    let order : ltb (length (a.name ++ 32 ∷ 60 ∷ a.email)) n ≡ false = ground arith in
    let left : take n (before a) ≡ a.name ++ 32 ∷ [] =
      (rw (before-start a) (take-append (a.name ++ 32 ∷ []) (60 ∷ (a.email ++ 62 ∷ [])) n refl)) in
    let right : drop (n + 1) (before a) ≡ a.email ++ 62 ∷ [] =
      (rw (before-mail a) (
        drop-append (a.name ++ 32 ∷ 60 ∷ []) (a.email ++ 62 ∷ []) (n + 1)
          (omega (arith, length-append a.name (32 ∷ 60 ∷ []))))) in
    let mail : take (length (a.name ++ 32 ∷ 60 ∷ a.email) - (n + 1)) (drop (n + 1) (before a))
        ≡ a.email =
      (rw right (take-append a.email (62 ∷ []) _ (omega arith))) in
    rw (
      trim-format a g,
      format-before a,
      rsplit_once-append 32 (before a) a.timestamp
          (All-map IsGraphic (λ c. c ≢ 32) (λ c q. omega arith) a.timestamp g.graphic),
      ends,
      rfind-start a g,
      rfind-end a,
      order,
      left,
      mail,
      trim_end_name a.name g.ends,
    )
