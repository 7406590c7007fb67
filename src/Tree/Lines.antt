-- ===== src/Tree/Lines.antt =====
-- One line of a tree object.
use open_memory_protocol.Base.{
  ℕ, ◌<◌, [], ◌∷◌, ◌++◌, false, Option, ok, All-append, ◌≡◌, ◌≢◌, refl, ap, ◌∙◌, arith,
}
use open_memory_protocol.Base.Bytes.{
  Bytes, Lacks, beq, split_once-append, strip_cr, strip_cr-append,
}
use open_memory_protocol.Base.Utf8.{IsText, IsAscii, IsAscii-IsText, IsText-append}
use open_memory_protocol.Hash.{IsHash, hex}
use open_memory_protocol.Hash.Text.{from_str-hex, hex-Lacks, hex-IsAscii}
use open_memory_protocol.Crypto.{Primitives}
use open_memory_protocol.Tree.{
  Mode, as_str, parse_mode, Entry, validate_name, write_line, open_name, parse_line,
  encrypted_tree_marker,
}

parse_mode-as_str : (m : Mode) → parse_mode (as_str m) ≡ ok m
unfolding parse_mode as_str beq
parse_mode-as_str Mode.blob = refl
parse_mode-as_str _ = refl

as_str-Lacks : (d : ℕ) (m : Mode) → d < 97 → Lacks d (as_str m)
unfolding as_str
as_str-Lacks d Mode.blob h = omega arith
as_str-Lacks d _ h = omega arith

as_str-IsAscii : (m : Mode) → IsAscii (as_str m)
unfolding as_str
as_str-IsAscii Mode.blob = omega arith
as_str-IsAscii _ = omega arith

-- What stands before the tab.
abbrev meta : Entry → Bytes
meta e = as_str e.mode ++ 32 ∷ hex e.hash

meta-Lacks : (d : ℕ) (e : Entry) → d < 32 → IsHash e.hash → Lacks d (meta e)
meta-Lacks d e lt h =
    All-append (λ c. c ≢ d) (as_str e.mode) _ (as_str-Lacks d e.mode (omega arith))
      (omega arith, hex-Lacks d e.hash (omega arith) h)

-- A line reads as the name that its field opens to, and its entry.
pub parse_line-write_line :
    (p : Primitives) (key : Option Bytes) (e : Entry) (field name : Bytes)
    → IsHash e.hash
    → open_name p key field ≡ ok name
    → validate_name name ≡ ok tt
    → parse_line p key (write_line e field) ≡ ok (name, e)
unfolding parse_line write_line
parse_line-write_line p key e field name h o v = rw (
  split_once-append 9 (meta e) field (meta-Lacks 9 e (omega arith) h),
  split_once-append 32 (as_str e.mode) (hex e.hash) (as_str-Lacks 32 e.mode (omega arith)),
  parse_mode-as_str e.mode,
  from_str-hex e.hash h,
  o,
  v,
)

pub write_line-Lacks :
    (e : Entry) (field : Bytes) → IsHash e.hash → Lacks 10 field → Lacks 10 (write_line e field)
unfolding write_line
write_line-Lacks e field h l =
    All-append (λ c. c ≢ 10) (meta e) _ (meta-Lacks 10 e (omega arith) h) (omega arith, l)

pub write_line-IsText :
    (e : Entry) (field : Bytes) → IsHash e.hash → IsText field → IsText (write_line e field)
unfolding write_line
write_line-IsText e field h t =
    IsText-append (meta e) (9 ∷ field)
      (IsAscii-IsText (meta e) (
        All-append (λ c. c < 128) (as_str e.mode) _ (as_str-IsAscii e.mode)
          (omega arith, hex-IsAscii e.hash h)))
      (IsText-append (9 ∷ []) field (IsAscii-IsText (9 ∷ []) (omega arith)) t)

strip_cr-tab : (field : Bytes) → strip_cr field ≡ field → strip_cr (9 ∷ field) ≡ 9 ∷ field
unfolding strip_cr
strip_cr-tab [] h = refl
strip_cr-tab (c ∷ s) h = ap (λ t. 9 ∷ t) h

pub strip_cr-write_line :
    (e : Entry) (field : Bytes)
    → strip_cr field ≡ field
    → strip_cr (write_line e field) ≡ write_line e field
unfolding write_line
strip_cr-write_line e field h =
    strip_cr-append (meta e) 9 field ∙ ap (λ t. meta e ++ t) (strip_cr-tab field h)

pub write_line_ne_nil : (e : Entry) (field : Bytes) → write_line e field ≢ []
unfolding write_line as_str
write_line_ne_nil e field = go e.mode
  where
    go : (m : Mode) → (as_str m ++ 32 ∷ hex e.hash) ++ 9 ∷ field ≢ []
    go Mode.blob h = cc
    go Mode.manifest h = cc
    go Mode.tree h = cc

-- No line of an entry is the marker.
pub write_line_ne_marker :
    (e : Entry) (field : Bytes) → beq (write_line e field) encrypted_tree_marker ≡ false
unfolding write_line as_str beq
write_line_ne_marker e field = go e.mode
  where
    go : (m : Mode) → beq ((as_str m ++ 32 ∷ hex e.hash) ++ 9 ∷ field) encrypted_tree_marker ≡ false
    go Mode.blob = refl
    go Mode.manifest = refl
    go Mode.tree = refl
