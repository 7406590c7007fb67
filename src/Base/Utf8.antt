-- ===== src/Base/Utf8.antt =====
-- `std::str::from_utf8` as a state machine over the bytes.
use Prim.Native.Nat.{ℕ, ◌<◌}
use mathlib.Core.Path.{◌≡◌, refl, ◌∙◌}
use mathlib.Core.Bool.{Bool, true, false}
use mathlib.Core.List.{[], ◌∷◌, ◌++◌}
use native.Mathlib.Omega.{arith}
use open_memory_protocol.Base.Tests.{ltb, within, ◌==◌, if◌then◌else◌}
use open_memory_protocol.Base.Lists.{All}
use open_memory_protocol.Base.Bytes.{Bytes}

-- What may follow: a new character, one to three continuation bytes, or a second byte whose range
-- is narrower, after 0xE0, 0xED, 0xF0 and 0xF4.
pub data Expect : Type 0 where
  start one two three after_e0 after_ed after_f0 after_f4 bad : Expect

next : Expect → ℕ → Expect
next start c =
    if ltb c 0x80
    then start
    else if within 0xc2 0xdf c
    then one
    else if c == 0xe0
    then after_e0
    else if c == 0xed
    then after_ed
    else if within 0xe1 0xef c
    then two
    else if c == 0xf0
    then after_f0
    else if within 0xf1 0xf3 c
    then three
    else if c == 0xf4
    then after_f4
    else bad
next one c = if within 0x80 0xbf c then start else bad
next two c = if within 0x80 0xbf c then one else bad
next three c = if within 0x80 0xbf c then two else bad
next after_e0 c = if within 0xa0 0xbf c then one else bad
next after_ed c = if within 0x80 0x9f c then one else bad
next after_f0 c = if within 0x90 0xbf c then two else bad
next after_f4 c = if within 0x80 0x8f c then two else bad
next bad c = bad

unfoldable pub run : Expect → Bytes → Expect
unfolding next
run e [] = e
run e (c ∷ s) = run (next e c) s

-- The text is valid if it ends between two characters.
abbrev at_start : Expect → Bool
at_start start = true
at_start _ = false

unfoldable pub is_utf8 : Bytes → Bool
unfolding run
is_utf8 s = at_start (run start s)

abbrev pub IsText : Bytes → Type 0
IsText s = run start s ≡ start

abbrev pub IsAscii : Bytes → Type 0
IsAscii = All (λ c. c < 128)

pub IsText-is_utf8 : (s : Bytes) → IsText s → is_utf8 s ≡ true
unfolding is_utf8
IsText-is_utf8 s h = rw h

pub run-append : (e : Expect) (s t : Bytes) → run e (s ++ t) ≡ run (run e s) t
unfolding run
run-append e [] t = refl
run-append e (c ∷ s) t = run-append (next e c) s t

pub IsText-append : (s t : Bytes) → IsText s → IsText t → IsText (s ++ t)
IsText-append s t h k = run-append start s t ∙ (rw h k)

pub IsAscii-IsText : (s : Bytes) → IsAscii s → IsText s
unfolding run
IsAscii-IsText [] _ = refl
IsAscii-IsText (c ∷ s) (p, h) = ground (arith, IsAscii-IsText s h)
