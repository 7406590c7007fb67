-- ===== src/Query/Evaluate/Texts.antt =====
-- What the text operators of crates/omp-core/src/query.rs test.
use open_memory_protocol.Base.{
  ◌↔◌, arith, ap, [], ◌∷◌, ◌++◌, true, Bool-cases, ◌==◌, ==_iff, ==-refl, ◌≡◌, refl, inl, inr,
}
use open_memory_protocol.Base.Bytes.{Bytes, strip_prefix}
use open_memory_protocol.Query.Evaluate.{Op, contains_text, compare_text, starts_with}

starts_with_sound : (t s : Bytes) → starts_with t s ≡ true → (r : Bytes) × (s ≡ t ++ r)
unfolding starts_with strip_prefix
starts_with_sound [] s h = (s, refl)
starts_with_sound (c ∷ t) [] h = cc
starts_with_sound (c ∷ t) (d ∷ s) h = elim (Bool-cases (c == d)) [
  | inl y ↦ let (r, e) = starts_with_sound t s (rw y at h) in (r, rw (e, (==_iff c d).0 y))
  | inr n ↦ (let bad = rw n at h in absurd (cc bad))
]

starts_with-append : (t r : Bytes) → starts_with t (t ++ r) ≡ true
unfolding starts_with strip_prefix
starts_with-append [] r = refl
starts_with-append (c ∷ t) r = rw (==-refl c) (starts_with-append t r)

contains_text_sound :
    (t s : Bytes) → contains_text t s ≡ true → (l : Bytes) × ((r : Bytes) × (s ≡ l ++ (t ++ r)))
unfolding contains_text
contains_text_sound t [] h = (let (r, e) = starts_with_sound t [] h in ([], (r, e)))
contains_text_sound t (c ∷ s) h = elim (Bool-cases (starts_with t (c ∷ s))) [
  | inl y ↦ (let (r, e) = starts_with_sound t (c ∷ s) y in ([], (r, e)))
  | inr n ↦ let (l, (r, e)) = contains_text_sound t s (rw n at h) in (c ∷ l, (r, ap (λ u. c ∷ u) e))
]

contains_text_of_starts_with : (t s : Bytes) → starts_with t s ≡ true → contains_text t s ≡ true
unfolding contains_text
contains_text_of_starts_with t [] h = h
contains_text_of_starts_with t (c ∷ s) h = rw h

contains_text-append : (t l r : Bytes) → contains_text t (l ++ (t ++ r)) ≡ true
unfolding contains_text
contains_text-append t [] r = contains_text_of_starts_with t (t ++ r) (starts_with-append t r)
contains_text-append t (c ∷ l) r = (let ih = contains_text-append t l r in ground arith)

-- The operator `contains` holds of two texts exactly when the second stands somewhere in the first,
-- and the operator `starts_with` exactly when the first begins with the second.
pub compare_text_iff :
    (s t : Bytes)
    → ((compare_text s Op.contains t ≡ true) ↔ ((l : Bytes) × ((r : Bytes) × (s ≡ l ++ (t ++ r)))))
      × ((compare_text s Op.starts_with t ≡ true) ↔ ((r : Bytes) × (s ≡ t ++ r)))
unfolding compare_text
compare_text_iff s t = (
  (contains_text_sound t s, λ (l, (r, e)). rw e (contains_text-append t l r)),
  (starts_with_sound t s, λ (r, e). rw e (starts_with-append t r)),
)
