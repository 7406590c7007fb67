-- ===== src/Base/Trim.antt =====
-- `str::trim`, `trim_end`, `trim_end_matches`, `rsplit_once` and `rfind` on UTF-8 bytes.
use Prim.Native.Nat.{◌<◌, ℕ}
use mathlib.Core.Path.{◌≡◌, refl, ap, ◌∙◌}
use mathlib.Core.Bool.{Bool, true, false, ◌&&◌, ◌||◌}
use mathlib.Core.Option.{Option, none, some}
use mathlib.Core.List.{[], ◌∷◌, ◌++◌, reverse}
use mathlib.Core.Logic.{◌≢◌}
use native.Mathlib.Omega.{arith}
use open_memory_protocol.Base.Tests.{◌==◌, ==-refl, ==-ne, within, if◌then◌else◌}
use open_memory_protocol.Base.Lists.{length}
use open_memory_protocol.Base.Bytes.{Bytes, Lacks}

-- The characters of Unicode's `White_Space`, in UTF-8, of one, two and three bytes.
abbrev pub white_1 : ℕ → Bool
white_1 a = within 9 13 a || a == 32

abbrev pub white_2 : ℕ → ℕ → Bool
white_2 a b = a == 0xc2 && (b == 0x85 || b == 0xa0)

abbrev pub white_3 : ℕ → ℕ → ℕ → Bool
white_3 a b c =
    (a == 0xe1 && b == 0x9a && c == 0x80)
    || (a == 0xe2 && b == 0x80 && (within 0x80 0x8a c || c == 0xa8 || c == 0xa9 || c == 0xaf))
    || (a == 0xe2 && b == 0x81 && c == 0x9f)
    || (a == 0xe3 && b == 0x80 && c == 0x80)

module _ (two : ℕ → ℕ → Bool) (three : ℕ → ℕ → ℕ → Bool) where
  -- Whether a text begins with white space.
  unfoldable pub begins_white : Bytes → Bool
  begins_white [] = false
  begins_white (a ∷ []) = white_1 a
  begins_white (a ∷ b ∷ []) = white_1 a || two a b
  begins_white (a ∷ b ∷ c ∷ s) = white_1 a || two a b || three a b c

  -- The text after its first characters that are white space.
  unfoldable pub skip_white : Bytes → Bytes
  skip_white [] = []
  skip_white (a ∷ []) = if white_1 a then [] else a ∷ []
  skip_white (a ∷ b ∷ []) =
      let rest = skip_white (b ∷ []) in
      if white_1 a then rest else if two a b then [] else a ∷ b ∷ []
  skip_white (a ∷ b ∷ c ∷ s) =
      let after_1 = skip_white (b ∷ c ∷ s) in
      let after_2 = skip_white (c ∷ s) in
      let after_3 = skip_white s in
      if white_1 a
      then after_1
      else if two a b
      then after_2
      else if three a b c
      then after_3
      else a ∷ b ∷ c ∷ s

  pub skip_white_of_begins : (s : Bytes) → begins_white s ≡ false → skip_white s ≡ s
  unfolding begins_white skip_white
  skip_white_of_begins [] h = refl
  skip_white_of_begins (a ∷ []) h = ground arith
  skip_white_of_begins (a ∷ b ∷ []) h = ground arith
  skip_white_of_begins (a ∷ b ∷ c ∷ s) h = ground arith

  pub skip_white_space : (s : Bytes) → skip_white (32 ∷ s) ≡ skip_white s
  unfolding skip_white
  skip_white_space [] = refl
  skip_white_space (b ∷ []) = refl
  skip_white_space (b ∷ c ∷ s) = refl

  -- A first byte that is white space is left out.
  pub skip_white_1 : (a : ℕ) (s : Bytes) → white_1 a ≡ true → skip_white (a ∷ s) ≡ skip_white s
  unfolding skip_white
  skip_white_1 a [] h = rw h refl
  skip_white_1 a (b ∷ []) h = rw h refl
  skip_white_1 a (b ∷ c ∷ s) h = rw h refl

  -- What follows a text that does not begin with white space is not read into its first character,
  -- if it starts with an ASCII byte.
  pub begins_white-append :
      ((a b : ℕ) → b < 128 → two a b ≡ false)
      → ((a b c : ℕ) → b < 128 → three a b c ≡ false)
      → ((a b c : ℕ) → c < 128 → three a b c ≡ false)
      → (s : Bytes) (d : ℕ) (t : Bytes) → s ≢ []
      → begins_white s ≡ false
      → d < 128
      → begins_white (s ++ d ∷ t) ≡ false
  unfolding begins_white
  begins_white-append p q r [] d t ne h lt = absurd (ne refl)
  begins_white-append p q r (a ∷ []) d [] ne h lt = ground (arith, p a d)
  begins_white-append p q r (a ∷ []) d (e ∷ t) ne h lt = ground (arith, p a d, q a d e)
  begins_white-append p q r (a ∷ b ∷ []) d t ne h lt = ground (arith, r a b d)
  begins_white-append p q r (a ∷ b ∷ c ∷ s) d t ne h lt = h

-- `str::trim_start`
unfoldable pub trim_start : Bytes → Bytes
trim_start s = skip_white white_2 white_3 s

abbrev pub white_2' : ℕ → ℕ → Bool
white_2' a b = white_2 b a

abbrev pub white_3' : ℕ → ℕ → ℕ → Bool
white_3' a b c = white_3 c b a

-- `str::trim_end`
unfoldable pub trim_end : Bytes → Bytes
trim_end s = reverse (skip_white white_2' white_3' (reverse s))

-- `str::trim`
unfoldable pub trim : Bytes → Bytes
trim s = trim_end (trim_start s)

abbrev pub keep_unless : ℕ → ℕ → Bytes → Bytes
keep_unless d c [] = if c == d then [] else c ∷ []
keep_unless d c (x ∷ s) = c ∷ x ∷ s

-- `trim_end_matches` of one ASCII character.
unfoldable pub trim_end_matches : ℕ → Bytes → Bytes
trim_end_matches d [] = []
trim_end_matches d (c ∷ s) = keep_unless d c (trim_end_matches d s)

pub trim_end_matches-append :
    (d : ℕ) (s : Bytes) → trim_end_matches d (s ++ d ∷ []) ≡ trim_end_matches d s
unfolding trim_end_matches
trim_end_matches-append d [] = rw (==-refl d)
trim_end_matches-append d (c ∷ s) = ap (keep_unless d c) (trim_end_matches-append d s)

pub trim_end_matches-Lacks : (d : ℕ) (s : Bytes) → Lacks d s → trim_end_matches d s ≡ s
unfolding trim_end_matches
trim_end_matches-Lacks d [] h = refl
trim_end_matches-Lacks d (c ∷ []) (p, h) = rw (==-ne c d p)
trim_end_matches-Lacks d (c ∷ x ∷ s) (p, h) = rw (trim_end_matches-Lacks d (x ∷ s) h)

keep_unless-twice :
    (d c : ℕ) (s : Bytes)
    → trim_end_matches d s ≡ s
    → trim_end_matches d (keep_unless d c s) ≡ keep_unless d c s
unfolding trim_end_matches
keep_unless-twice d c [] h = ground arith
keep_unless-twice d c (x ∷ s) h = ap (keep_unless d c) h ∙ refl

pub trim_end_matches-twice :
    (d : ℕ) (s : Bytes) → trim_end_matches d (trim_end_matches d s) ≡ trim_end_matches d s
unfolding trim_end_matches
trim_end_matches-twice d [] = refl
trim_end_matches-twice d (c ∷ s) =
    keep_unless-twice d c (trim_end_matches d s) (trim_end_matches-twice d s)

abbrev pub after_first : ℕ → ℕ → Bytes → Option (Bytes × Bytes) → Option (Bytes × Bytes)
after_first d c s none = if c == d then some ([], s) else none
after_first d c s (some (l, r)) = some (c ∷ l, r)

-- `rsplit_once` of one ASCII character.
unfoldable pub rsplit_once : ℕ → Bytes → Option (Bytes × Bytes)
rsplit_once d [] = none
rsplit_once d (c ∷ s) = after_first d c s (rsplit_once d s)

pub rsplit_once_of_Lacks : (d : ℕ) (s : Bytes) → Lacks d s → rsplit_once d s ≡ none
unfolding rsplit_once
rsplit_once_of_Lacks d [] h = refl
rsplit_once_of_Lacks d (c ∷ s) (p, h) = rw (rsplit_once_of_Lacks d s h, ==-ne c d p)

pub rsplit_once-append :
    (d : ℕ) (l r : Bytes) → Lacks d r → rsplit_once d (l ++ d ∷ r) ≡ some (l, r)
unfolding rsplit_once
rsplit_once-append d [] r h = rw (rsplit_once_of_Lacks d r h, ==-refl d)
rsplit_once-append d (c ∷ l) r h = rw (rsplit_once-append d l r h)

-- `rfind` of one ASCII character: the number of bytes before it.
abbrev pub length_before : Option (Bytes × Bytes) → Option ℕ
length_before none = none
length_before (some (l, r)) = some (length l)

unfoldable pub rfind : ℕ → Bytes → Option ℕ
rfind d s = length_before (rsplit_once d s)
