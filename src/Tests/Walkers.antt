-- ===== src/Tests/Walkers.antt =====
-- An ignore pattern with a slash at its end, and a file of that name.
use open_memory_protocol.Base.{[], ◌∷◌, ◌++◌, true, false, refl, ◌≡◌}
use open_memory_protocol.Base.Bytes.{codes, contains}
use open_memory_protocol.Walker.{trim, one_ignore_matches, classify_path}
use open_memory_protocol.Walker.Slash.{one_ignore_matches_slash}
use open_memory_protocol.Tree.{Mode}

build_file_ignored : one_ignore_matches (codes "build/") (codes "build") false ≡ true
unfolding one_ignore_matches trim open_memory_protocol.Walker.match_trimmed contains
    open_memory_protocol.Base.Trim.trim_end_matches open_memory_protocol.Walker.any_component
    open_memory_protocol.Base.Bytes.split open_memory_protocol.Walker.glob_match
    open_memory_protocol.Schema.glob_inner open_memory_protocol.Schema.one
    open_memory_protocol.Walker.path_descends_from open_memory_protocol.Base.Bytes.beq
build_file_ignored = refl

nested_ignored : one_ignore_matches (codes "*.tmp") (codes "a/b.tmp") false ≡ true
unfolding one_ignore_matches trim open_memory_protocol.Walker.match_trimmed contains
    open_memory_protocol.Base.Trim.trim_end_matches open_memory_protocol.Walker.any_component
    open_memory_protocol.Base.Bytes.split open_memory_protocol.Walker.glob_match
    open_memory_protocol.Schema.glob_inner open_memory_protocol.Schema.star
    open_memory_protocol.Schema.one
nested_ignored = refl

anchored_not_nested : one_ignore_matches (codes "/build/x") (codes "a/build/x") false ≡ false
unfolding one_ignore_matches trim open_memory_protocol.Walker.match_trimmed contains
    open_memory_protocol.Base.Trim.trim_end_matches open_memory_protocol.Walker.glob_match
    open_memory_protocol.Schema.glob_inner open_memory_protocol.Schema.one
anchored_not_nested = refl

comment_ignores_nothing : one_ignore_matches (codes " # build") (codes "build") true ≡ false
unfolding one_ignore_matches trim
comment_ignores_nothing = refl

schemas_are_blobs : classify_path (codes "schemas/pdf.schema") ≡ Mode.blob
unfolding classify_path open_memory_protocol.Base.Bytes.beq
    open_memory_protocol.Query.Evaluate.starts_with open_memory_protocol.Base.Bytes.strip_prefix
schemas_are_blobs = refl

one_ignore_matches_slash_example :
    one_ignore_matches (codes "build" ++ b'/' ∷ []) (codes "build") false
    ≡ one_ignore_matches (codes "build") (codes "build") false
unfolding trim contains
one_ignore_matches_slash_example =
    one_ignore_matches_slash (codes "build") (codes "build") false refl refl refl refl
