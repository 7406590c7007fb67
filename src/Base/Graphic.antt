-- ===== src/Base/Graphic.antt =====
-- Texts of printable ASCII characters other than the space, under the trims of `str`.
use mathlib.Core.List.{reverse, reverse-append, reverse-reverse}
use Prim.Native.Nat.{ℕ, ◌≤◌, ◌<◌}
use mathlib.Core.Path.{◌≡◌, refl, sym, ap, ◌∙◌}
use mathlib.Core.Logic.{◌≢◌}
use mathlib.Core.Bool.{false}
use mathlib.Core.List.{[], ◌∷◌, ◌++◌}
use native.Mathlib.Omega.{arith}
use open_memory_protocol.Base.Lists.{All}
use open_memory_protocol.Base.Bytes.{Bytes}
use open_memory_protocol.Base.Trim.{
  begins_white, skip_white_of_begins, skip_white_1, white_2, white_3, white_2', white_3',
  trim_start, trim_end, trim,
}

abbrev pub IsGraphic : ℕ → Type 0
IsGraphic c = (33 ≤ c) × (c < 127)

pub begins_white_graphic :
    (c : ℕ) (s : Bytes) → IsGraphic c → begins_white white_2' white_3' (c ∷ s) ≡ false
unfolding begins_white
begins_white_graphic c [] h = ground arith
begins_white_graphic c (a ∷ []) h = ground arith
begins_white_graphic c (a ∷ b ∷ s) h = ground arith

pub trim_end_graphic : (s : Bytes) (c : ℕ) → IsGraphic c → trim_end (s ++ c ∷ []) ≡ s ++ c ∷ []
unfolding trim_end
trim_end_graphic s c h = rw (
  reverse-append s (c ∷ []),
  skip_white_of_begins white_2' white_3' (c ∷ reverse s) (begins_white_graphic c (reverse s) h),
  ← reverse-append s (c ∷ []),
  reverse-reverse (s ++ c ∷ []),
)

-- A text that is not empty, with its last byte apart.
pub snoc_cases :
    (P : ℕ → Type 0) (s : Bytes)
    → s ≢ []
    → All P s
    → (t : Bytes) × ((c : ℕ) × ((s ≡ t ++ c ∷ []) × P c))
snoc_cases P [] ne h = absurd (ne refl)
snoc_cases P (c ∷ []) ne (p, h) = ([], (c, (refl, p)))
snoc_cases P (c ∷ d ∷ s) ne (p, h) =
    let (t, (e, (q, r))) = snoc_cases P (d ∷ s) (λ k. cc k) h in
    (c ∷ t, (e, (ap (λ u. c ∷ u) q, r)))

begins_white_graphic_start :
    (c : ℕ) (s : Bytes) → IsGraphic c → begins_white white_2 white_3 (c ∷ s) ≡ false
unfolding begins_white
begins_white_graphic_start c [] h = ground arith
begins_white_graphic_start c (a ∷ []) h = ground arith
begins_white_graphic_start c (a ∷ b ∷ s) h = ground arith

trim_start_graphic : (c : ℕ) (s : Bytes) → IsGraphic c → trim_start (c ∷ s) ≡ c ∷ s
unfolding trim_start
trim_start_graphic c s h =
    skip_white_of_begins white_2 white_3 (c ∷ s) (begins_white_graphic_start c s h)

trim_end_line :
    (s : Bytes) (c : ℕ) → IsGraphic c → trim_end ((s ++ c ∷ []) ++ 10 ∷ []) ≡ s ++ c ∷ []
unfolding trim_end
trim_end_line s c h = rw (
  reverse-append (s ++ c ∷ []) (10 ∷ []),
  skip_white_1 white_2' white_3' 10 (reverse (s ++ c ∷ [])) refl,
  reverse-append s (c ∷ []),
  skip_white_of_begins white_2' white_3' (c ∷ reverse s) (begins_white_graphic c (reverse s) h),
  ← reverse-append s (c ∷ []),
  reverse-reverse (s ++ c ∷ []),
)

-- A line of such characters, trimmed, is what stands before the line feed.
pub trim_line_graphic : (s : Bytes) → s ≢ [] → All IsGraphic s → trim (s ++ 10 ∷ []) ≡ s
unfolding trim
trim_line_graphic [] ne _ = absurd (ne refl)
trim_line_graphic (d ∷ s) ne (g, gs) =
    let (t, (c, (e, p))) = snoc_cases IsGraphic (d ∷ s) ne (g, gs) in
    ap trim_end (trim_start_graphic d (s ++ 10 ∷ []) g)
    ∙ ap (λ u. trim_end (u ++ 10 ∷ [])) e
    ∙ trim_end_line t c p
    ∙ sym e
