-- ===== src/Walker.antt =====
-- crates/omp-core/src/walker.rs: which files of a working tree are blobs, and which are ignored. A text is
-- the list of its characters here. The walk of the file system is not modelled.
pub mod Slash
use mathlib.Core.List.{reverse}
use open_memory_protocol.Base.{
  ℕ, List, [], ◌∷◌, ◌++◌, Bool, true, false, not, ◌==◌, ◌||◌, ◌&&◌, within, if◌then◌else◌, Option,
  none, some,
}
use open_memory_protocol.Base.Bytes.{codes, beq, contains, split, strip_prefix}
use open_memory_protocol.Base.Trim.{trim_end_matches}
use open_memory_protocol.Schema.{glob_inner}
use open_memory_protocol.Query.Evaluate.{starts_with}
use open_memory_protocol.Tree.{Mode}

abbrev pub Chars : Type 0
Chars = List ℕ

-- `char::is_whitespace`
abbrev pub is_whitespace : ℕ → Bool
is_whitespace c =
    within 9 13 c
    || c == 32
    || c == 0x85
    || c == 0xa0
    || c == 0x1680
    || within 0x2000 0x200a c
    || c == 0x2028
    || c == 0x2029
    || c == 0x202f
    || c == 0x205f
    || c == 0x3000

abbrev pub trim_start : Chars → Chars
trim_start [] = []
trim_start (c ∷ s) = let rest = trim_start s in if is_whitespace c then rest else c ∷ s

-- `str::trim`
unfoldable pub trim : Chars → Chars
trim s = reverse (trim_start (reverse (trim_start s)))

unfoldable pub classify_path : Chars → Mode
classify_path s =
    if beq s (codes "omp.toml")
    then Mode.blob
    else if starts_with (codes "schemas/") s || starts_with (codes "probes/") s
    then Mode.blob
    else Mode.manifest

-- The walker's own copy of the matcher is the same code as the one of schema.rs.
unfoldable pub glob_match : Chars → Chars → Bool
glob_match pattern text = glob_inner pattern text

abbrev pub any_equal : List Chars → Chars → Bool
any_equal [] prefix = false
any_equal (c ∷ components) prefix = beq c prefix || any_equal components prefix

unfoldable pub path_descends_from : Chars → Chars → Bool
path_descends_from path prefix =
    beq path prefix || starts_with (prefix ++ b'/' ∷ []) path || any_equal (split b'/' path) prefix

abbrev pub without_slash : Chars → Chars
without_slash (c ∷ s) = if c == b'/' then s else c ∷ s
without_slash [] = []

-- The loop over the components of a path.
unfoldable pub any_component : Chars → Bool → Chars → Bool → List Chars → Bool
any_component pat dir_only path is_dir [] = false
any_component pat dir_only path is_dir (component ∷ components) =
    (glob_match pat component && (not dir_only || is_dir || path_descends_from path component))
    || any_component pat dir_only path is_dir components

unfoldable pub match_trimmed : Chars → Bool → Chars → Bool → Bool
match_trimmed pat dir_only path is_dir =
    if contains b'/' pat
    then glob_match (without_slash pat) path
      && (not dir_only || is_dir || path_descends_from path (without_slash pat))
    else any_component pat dir_only path is_dir (split b'/' path)

abbrev pub ends_with_slash : Chars → Bool
ends_with_slash [] = false
ends_with_slash (c ∷ []) = c == b'/'
ends_with_slash (c ∷ d ∷ s) = ends_with_slash (d ∷ s)

abbrev pub is_comment : Chars → Bool
is_comment [] = true
is_comment (c ∷ _) = c == b'#'

unfoldable pub one_ignore_matches : Chars → Chars → Bool → Bool
one_ignore_matches pattern path is_dir =
    let pat = trim pattern in
    if is_comment pat
    then false
    else match_trimmed (trim_end_matches b'/' pat) (ends_with_slash pat) path is_dir

unfoldable pub ignore_matches : List Chars → Chars → Bool → Bool
ignore_matches [] path is_dir = false
ignore_matches (p ∷ patterns) path is_dir =
    one_ignore_matches p path is_dir || ignore_matches patterns path is_dir
