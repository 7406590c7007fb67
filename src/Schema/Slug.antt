-- ===== src/Schema/Slug.antt =====
-- Slugs of crates/omp-core/src/schema.rs.
use open_memory_protocol.Base.{
  ◌⊎◌, inr, inl, ℕ, List, [], ◌∷◌, Bool, true, false, within, ◌||◌, ◌==◌, All, ◌≡◌, refl, arith,
  Bool-cases,
}
use open_memory_protocol.Hex.RoundTrip.{to_lower}
use open_memory_protocol.Schema.{
  is_empty, is_alphanumeric, slug_loop, pop_dash, reverse_onto, slugify,
}

-- A character of a slug: a lower-case letter, a digit or a dash.
abbrev pub is_slug_char : ℕ → Bool
is_slug_char c = within b'a' b'z' c || within b'0' b'9' c || c == b'-'

abbrev pub AreSlugChars : List ℕ → Type 0
AreSlugChars = All (λ c. is_slug_char c ≡ true)

slug_loop-AreSlugChars :
    (last_dash : Bool) (out s : List ℕ)
    → AreSlugChars out
    → AreSlugChars (slug_loop last_dash out s)
unfolding slug_loop
slug_loop-AreSlugChars d out [] h = h
slug_loop-AreSlugChars d out (c ∷ s) h =
    let skipped = slug_loop-AreSlugChars d out s h in
    let dashed = slug_loop-AreSlugChars true (b'-' ∷ out) s (refl, h) in
    elim (Bool-cases (is_alphanumeric c)) [
      | inl y ↦ rw y (slug_loop-AreSlugChars false (to_lower c ∷ out) s (ground arith, h))
      | inr n ↦ rw n (ground arith)
    ]

pop_dash-AreSlugChars : (out : List ℕ) → AreSlugChars out → AreSlugChars (pop_dash out)
unfolding pop_dash
pop_dash-AreSlugChars [] h = h
pop_dash-AreSlugChars (c ∷ out) (p, h) = ground arith

reverse_onto-AreSlugChars :
    (s out : List ℕ) → AreSlugChars s → AreSlugChars out → AreSlugChars (reverse_onto s out)
reverse_onto-AreSlugChars [] out _ h = h
reverse_onto-AreSlugChars (c ∷ s) out (p, hs) h = reverse_onto-AreSlugChars s (c ∷ out) hs (p, h)

-- Whatever the text, its slug is made of lower-case letters, digits and dashes.
pub slugify-AreSlugChars : (s : List ℕ) → AreSlugChars (slugify s)
unfolding slugify
slugify-AreSlugChars s =
    reverse_onto-AreSlugChars (pop_dash (slug_loop false [] s)) []
      (pop_dash-AreSlugChars (slug_loop false [] s) (slug_loop-AreSlugChars false [] s tt)) tt

abbrev IsLetter : ℕ → Type 0
IsLetter c = (within b'a' b'z' c || within b'0' b'9' c) ≡ true

-- Letters and digits, with a dash only right before one of them; the last is no dash.
abbrev pub IsSpaced : List ℕ → Type 0
IsSpaced [] = Unit
IsSpaced (c ∷ []) = IsLetter c
IsSpaced (c ∷ d ∷ s) = (IsLetter c ⊎ ((c ≡ b'-') × IsLetter d)) × IsSpaced (d ∷ s)

abbrev pub StartsWithLetter : List ℕ → Type 0
StartsWithLetter [] = Unit
StartsWithLetter (c ∷ s) = IsLetter c

letter-IsSpaced : (c : ℕ) (out : List ℕ) → IsLetter c → IsSpaced out → IsSpaced (c ∷ out)
letter-IsSpaced c [] p h = p
letter-IsSpaced c (d ∷ out) p h = (inl p, h)

dash-IsSpaced :
    (out : List ℕ)
    → is_empty out ≡ false
    → StartsWithLetter out
    → IsSpaced out
    → IsSpaced (b'-' ∷ out)
dash-IsSpaced [] e p h = cc
dash-IsSpaced (d ∷ out) e p h = (inr (refl, p), h)

to_lower-IsLetter : (c : ℕ) → is_alphanumeric c ≡ true → IsLetter (to_lower c)
to_lower-IsLetter c h = ground arith

slug_loop-IsSpaced :
    (last_dash : Bool) (out s : List ℕ)
    → IsSpaced out
    → (last_dash ≡ false → StartsWithLetter out)
    → IsSpaced (slug_loop last_dash out s)
unfolding slug_loop
slug_loop-IsSpaced d out [] h p = h
slug_loop-IsSpaced d out (c ∷ s) h p = elim (Bool-cases (is_alphanumeric c)) [
  | inl y ↦
      let letter = to_lower-IsLetter c y in
      rw y (
        slug_loop-IsSpaced false (to_lower c ∷ out) s (letter-IsSpaced (to_lower c) out letter h)
          (λ _. letter))
  | inr n ↦ elim (Bool-cases d) [
    | inl y ↦ rw (n, y) (slug_loop-IsSpaced true out s h (λ e. absurd (cc e)))
    | inr m ↦ elim (Bool-cases (is_empty out)) [
      | inl y ↦ rw (n, m, y) (slug_loop-IsSpaced false out s h (λ _. p m))
      | inr k ↦
          rw (n, m, k)
            (slug_loop-IsSpaced true (b'-' ∷ out) s (dash-IsSpaced out k (p m) h)
              (λ e. absurd (cc e)))
    ]
  ]
]

pop_dash-IsSpaced :
    (out : List ℕ) → IsSpaced out → IsSpaced (pop_dash out) × StartsWithLetter (pop_dash out)
unfolding pop_dash
pop_dash-IsSpaced [] h = (tt, tt)
pop_dash-IsSpaced (c ∷ []) h = ground arith
pop_dash-IsSpaced (c ∷ d ∷ out) h = ground arith

-- Read from its end, a slug is empty or begins with a letter or digit, a dash stands only right
-- before one, and the last character read is no dash: no dash stands at either end, and no two side
-- by side.
pub slugify-IsSpaced :
    (s : List ℕ)
    → (r : List ℕ) × ((slugify s ≡ reverse_onto r []) × (IsSpaced r × StartsWithLetter r))
unfolding slugify
slugify-IsSpaced s = (
  pop_dash (slug_loop false [] s),
  (refl, pop_dash-IsSpaced (slug_loop false [] s) (slug_loop-IsSpaced false [] s tt (λ _. tt))),
)
