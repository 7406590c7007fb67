-- ===== src/Base/Decimal.antt =====
-- `{}` of an unsigned integer, and `parse::<usize>` and `parse::<u64>`, both of 64 bits.
use Prim.Native.Nat.{ℕ, zero, suc, ◌+◌, ◌-◌, ◌*◌, ◌/◌, ◌%◌, ◌^◌, ◌<◌, ◌≤◌}
use mathlib.Core.Path.{◌≡◌, refl, sym, ap, ◌∙◌}
use mathlib.Core.Logic.{◌≢◌, inl, inr}
use mathlib.Core.Bool.{◌&&◌}
use mathlib.Core.Option.{Option, none, some}
use mathlib.Core.List.{[], ◌∷◌}
use native.Mathlib.Omega.{arith}
use open_memory_protocol.Base.Tests.{ltb, within, ◌==◌, if◌then◌else◌, Bool-cases, ==_iff, ==-ne}
use open_memory_protocol.Base.Lists.{All, All-map}
use open_memory_protocol.Base.Bytes.{Bytes, Lacks}

abbrev pub u64_limit : ℕ
u64_limit = 2 ^ 64

-- The digits of `n` before `out`; `fuel` not below `n` is enough.
emit : ℕ → ℕ → Bytes → Bytes
emit zero n out = out
emit (suc fuel) n out =
    let longer = emit fuel (n / 10) ((b'0' + n % 10) ∷ out) in if n == 0 then out else longer

unfoldable pub format_uint : ℕ → Bytes
unfolding emit
format_uint n = emit n (n / 10) ((b'0' + n % 10) ∷ [])

-- Each step is `checked_mul` and `checked_add`.
scan : Bytes → ℕ → Option ℕ
scan [] n = some n
scan (c ∷ s) n =
    if within b'0' b'9' c && ltb (n * 10 + (c - b'0')) u64_limit
    then scan s (n * 10 + (c - b'0'))
    else none

-- An empty text is refused, and so is a sign with nothing behind it.
scan_some : Bytes → Option ℕ
unfolding scan
scan_some [] = none
scan_some (c ∷ s) = scan (c ∷ s) 0

unfoldable pub parse_uint : Bytes → Option ℕ
unfolding scan_some
parse_uint [] = none
parse_uint (c ∷ s) = if c == b'+' then scan_some s else scan_some (c ∷ s)

abbrev pub IsDigit : ℕ → Type 0
IsDigit c = (48 ≤ c) × (c ≤ 57)

emit-IsDigit : (f n : ℕ) (out : Bytes) → All IsDigit out → All IsDigit (emit f n out)
unfolding emit
emit-IsDigit zero n out h = h
emit-IsDigit (suc f) n out h = elim (Bool-cases (n == 0)) [
  | inl e ↦ rw e h
  | inr e ↦ rw e (emit-IsDigit f (n / 10) _ ((omega arith, omega arith), h))
]

pub format_uint-IsDigit : (n : ℕ) → All IsDigit (format_uint n)
unfolding format_uint
format_uint-IsDigit n = emit-IsDigit n (n / 10) _ ((omega arith, omega arith), tt)

pub format_uint-Lacks : (d n : ℕ) → d < 48 → Lacks d (format_uint n)
format_uint-Lacks d n h =
    All-map IsDigit (λ c. c ≢ d) (λ c p. omega arith) (format_uint n) (format_uint-IsDigit n)

le_zero : (n : ℕ) → n ≤ 0 → n ≡ 0
le_zero n h = omega arith

scan_digit :
    (n : ℕ) (out : Bytes) → n < u64_limit → scan ((48 + n % 10) ∷ out) (n / 10) ≡ scan out n
unfolding scan
scan_digit n out h =
    let e : n / 10 * 10 + (48 + n % 10 - 48) ≡ n = omega arith in rw e (ground arith)

scan-emit : (f n : ℕ) (out : Bytes) → n ≤ f → n < u64_limit → scan (emit f n out) 0 ≡ scan out n
unfolding emit
scan-emit zero n out h k = rw (le_zero n h)
scan-emit (suc f) n out h k = elim (Bool-cases (n == 0)) [
  | inl e ↦ rw e (ap (λ m. scan out m) (sym ((==_iff n 0).0 e)))
  | inr e ↦ rw e (scan-emit f (n / 10) _ (ground arith) (omega arith) ∙ scan_digit n out k)
]

emit_ne_nil : (f n c : ℕ) (out : Bytes) → emit f n (c ∷ out) ≢ []
unfolding emit
emit_ne_nil zero n c out h = cc
emit_ne_nil (suc f) n c out h = elim (Bool-cases (n == 0)) [
  | inl e ↦ cc (rw e at h)
  | inr e ↦ emit_ne_nil f (n / 10) _ _ (rw e at h)
]

parse_uint_of_IsDigit : (s : Bytes) → All IsDigit s → s ≢ [] → parse_uint s ≡ scan s 0
unfolding parse_uint
parse_uint_of_IsDigit [] _ h = absurd (h refl)
parse_uint_of_IsDigit (c ∷ s) (p, _) h = rw (==-ne c 43 (omega arith))

-- Parsing what was printed gives the number back.
pub parse_uint-format_uint : (n : ℕ) → n < u64_limit → parse_uint (format_uint n) ≡ some n
unfolding format_uint scan
parse_uint-format_uint n h =
    parse_uint_of_IsDigit (format_uint n) (format_uint-IsDigit n) (emit_ne_nil n (n / 10) _ [])
    ∙ scan-emit n (n / 10) _ (omega arith) (omega arith)
    ∙ scan_digit n [] h
