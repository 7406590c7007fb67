-- ===== src/Walker/Slash.antt =====
-- The slash at the end of an ignore pattern of crates/omp-core/src/walker.rs.
use open_memory_protocol.Base.{
  List, [], ◌∷◌, ◌++◌, Bool, true, false, All, All-map, ◌≡◌, refl, arith,
}
use open_memory_protocol.Base.Bytes.{beq_refl, contains, contains-Lacks, Lacks, split}
use open_memory_protocol.Base.Trim.{trim_end_matches-append, trim_end_matches-Lacks}
use open_memory_protocol.Walker.{
  Chars, trim, any_equal, path_descends_from, any_component, match_trimmed, ends_with_slash,
  is_comment, one_ignore_matches,
}

abbrev IsAmong : List Chars → Chars → Type 0
IsAmong all c = any_equal all c ≡ true

any_equal_later : (c : Chars) (all : List Chars) (d : Chars) → IsAmong all d → IsAmong (c ∷ all) d
any_equal_later c all d h = ground arith

All-IsAmong : (all : List Chars) → All (IsAmong all) all
All-IsAmong [] = tt
All-IsAmong (c ∷ all) = (
  (rw (beq_refl c) refl),
  All-map (IsAmong all) (IsAmong (c ∷ all)) (any_equal_later c all) all (All-IsAmong all),
)

any_component_dir_only :
    (pat path : Chars) (is_dir : Bool) (components : List Chars)
    → All (IsAmong (split b'/' path)) components
    → any_component pat true path is_dir components ≡ any_component pat false path is_dir components
unfolding any_component path_descends_from
any_component_dir_only pat path is_dir [] _ = refl
any_component_dir_only pat path is_dir (c ∷ components) (p, ps) =
    let ih = any_component_dir_only pat path is_dir components ps in ground (arith, ih, p)

ends_with_slash-append : (s : Chars) → ends_with_slash (s ++ b'/' ∷ []) ≡ true
ends_with_slash-append [] = refl
ends_with_slash-append (c ∷ []) = refl
ends_with_slash-append (c ∷ d ∷ s) = ends_with_slash-append (d ∷ s)

ends_with_slash_of_Lacks : (s : Chars) → Lacks b'/' s → ends_with_slash s ≡ false
ends_with_slash_of_Lacks [] _ = refl
ends_with_slash_of_Lacks (c ∷ []) (p, _) = ground arith
ends_with_slash_of_Lacks (c ∷ d ∷ s) (_, h) = ends_with_slash_of_Lacks (d ∷ s) h

is_comment-append : (s : Chars) → is_comment s ≡ false → is_comment (s ++ b'/' ∷ []) ≡ false
is_comment-append [] h = absurd (cc h)
is_comment-append (c ∷ s) h = h

-- A pattern without white space at its ends, with or without a slash put there, that is not empty, no
-- comment and has no slash, ignores with the slash at its end the same paths as without it, directories
-- or not.
pub one_ignore_matches_slash :
    (pattern path : Chars) (is_dir : Bool)
    → trim pattern ≡ pattern
    → trim (pattern ++ b'/' ∷ []) ≡ pattern ++ b'/' ∷ []
    → is_comment pattern ≡ false
    → contains b'/' pattern ≡ false
    → one_ignore_matches (pattern ++ b'/' ∷ []) path is_dir ≡ one_ignore_matches pattern path is_dir
unfolding one_ignore_matches match_trimmed
one_ignore_matches_slash pattern path is_dir t t' n c =
    let lacks = contains-Lacks b'/' pattern c in
    let comment : is_comment (pattern ++ b'/' ∷ []) ≡ false = is_comment-append pattern n in
    rw
      (
        t,
        t',
        n,
        comment,
        trim_end_matches-append b'/' pattern,
        trim_end_matches-Lacks b'/' pattern lacks,
        ends_with_slash-append pattern,
        ends_with_slash_of_Lacks pattern lacks,
        c,
      )
      (any_component_dir_only pattern path is_dir (split b'/' path) (All-IsAmong (split b'/' path)))
