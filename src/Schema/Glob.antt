-- ===== src/Schema/Glob.antt =====
-- MIME patterns of crates/omp-core/src/schema.rs against what a pattern means.
use open_memory_protocol.Base.{
  inr, inl, ℕ, List, [], ◌∷◌, ◌++◌, Bool, true, Bool-cases, ◌==◌, ==_iff, ==-refl, if◌then◌else◌,
  ◌≡◌, ◌↔◌, refl, ap, arith,
}
use open_memory_protocol.Query.Evaluate.{lowercase}
use open_memory_protocol.Schema.{star, one, glob_inner, mime_matches}

-- What one character of a pattern stands for: `*` for any text, `?` for any character, and any other
-- for itself.
abbrev pub Piece : ℕ → List ℕ → Type 0
Piece p u = if p == b'*' then Unit else if p == b'?' then ((c : ℕ) × (u ≡ c ∷ [])) else (u ≡ p ∷ [])

-- A text matches a pattern if it is made of pieces for the pattern's characters, in order.
abbrev pub Matches : List ℕ → List ℕ → Type 0
Matches [] t = t ≡ []
Matches (p ∷ ps) t = (u : List ℕ) × ((v : List ℕ) × ((t ≡ u ++ v) × (Piece p u × Matches ps v)))

star_sound :
    (f : List ℕ → Bool) (t : List ℕ)
    → star f t ≡ true
    → (u : List ℕ) × ((v : List ℕ) × ((t ≡ u ++ v) × (f v ≡ true)))
unfolding star
star_sound f [] h = ([], ([], (refl, h)))
star_sound f (c ∷ t) h = elim (Bool-cases (f (c ∷ t))) [
  | inl y ↦ ([], (c ∷ t, (refl, y)))
  | inr n ↦
      let (u, (v, (e, k))) = star_sound f t (rw n at h) in (c ∷ u, (v, (ap (λ s. c ∷ s) e, k)))
]

star_complete : (f : List ℕ → Bool) (u v : List ℕ) → f v ≡ true → star f (u ++ v) ≡ true
unfolding star
star_complete f [] [] h = h
star_complete f [] (c ∷ v) h = rw h
star_complete f (c ∷ u) v h = let ih = star_complete f u v h in ground arith

one_sound :
    (test : ℕ → Bool) (f : List ℕ → Bool) (t : List ℕ)
    → one test f t ≡ true
    → (c : ℕ) × ((v : List ℕ) × ((t ≡ c ∷ v) × ((test c ≡ true) × (f v ≡ true))))
unfolding one
one_sound test f [] h = cc
one_sound test f (c ∷ t) h = (c, (t, (refl, (ground arith, ground arith))))

-- The matcher finds exactly the texts that are made of pieces for the pattern's characters.
glob_inner_sound : (ps t : List ℕ) → glob_inner ps t ≡ true → Matches ps t
unfolding glob_inner
glob_inner_sound [] [] h = refl
glob_inner_sound [] (c ∷ t) h = cc
glob_inner_sound (p ∷ ps) t h = elim (Bool-cases (p == b'*')) [
  | inl y ↦
      let (u, (v, (e, k))) = star_sound (glob_inner ps) t (rw y at h) in
      (u, (v, (e, (rw y tt, glob_inner_sound ps v k))))
  | inr n ↦ elim (Bool-cases (p == b'?')) [
    | inl y ↦
        let (c, (v, (e, (_, k)))) = one_sound (λ _. true) (glob_inner ps) t (rw (n, y) at h) in
        (c ∷ [], (v, (e, (rw (n, y) (c, refl), glob_inner_sound ps v k))))
    | inr m ↦
        let (c, (v, (e, (same, k)))) = one_sound (λ c. c == p) (glob_inner ps) t (rw (n, m) at h) in
        (
          c ∷ [],
          (v, (e, (rw (n, m) (ap (λ x. x ∷ []) ((==_iff c p).0 same)), glob_inner_sound ps v k))),
        )
  ]
]

glob_inner_complete : (ps t : List ℕ) → Matches ps t → glob_inner ps t ≡ true
unfolding glob_inner one
glob_inner_complete [] t h = rw h
glob_inner_complete (p ∷ ps) t (u, (v, (e, (piece, m)))) =
    let ih = glob_inner_complete ps v m in
    elim (Bool-cases (p == b'*')) [
      | inl y ↦ rw (y, e) (star_complete (glob_inner ps) u v ih)
      | inr n ↦ elim (Bool-cases (p == b'?')) [
        | inl y ↦ (let (c, q) = rw (n, y) at piece in rw (n, y, e, q) ih)
        | inr k ↦ (let q = rw (n, k) at piece in rw (n, k, e, q, ==-refl p) ih)
      ]
    ]

-- A MIME pattern matches a MIME type exactly when, both in lower case, the type is made of pieces for
-- the pattern's characters in order: any text for `*`, any one character for `?`, and for any other
-- character itself.
pub mime_matches_iff :
    (pattern mime : List ℕ)
    → (mime_matches pattern mime ≡ true) ↔ Matches (lowercase pattern) (lowercase mime)
unfolding mime_matches
mime_matches_iff pattern mime = (
  glob_inner_sound (lowercase pattern) (lowercase mime),
  glob_inner_complete (lowercase pattern) (lowercase mime),
)
