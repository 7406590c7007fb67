-- ===== src/Paths/Splitting.antt =====
-- The components that `split` of crates/omp-core/src/paths.rs lets through.
use open_memory_protocol.Base.{
  ℕ, List, [], ◌∷◌, Bool-cases, All, All-append, false, ok, err, >>=-eq-ok, ◌==◌, ◌≡◌, ◌≢◌, refl,
  arith, inl, inr,
}
use open_memory_protocol.Base.Bytes
use open_memory_protocol.Base.Bytes.{Bytes, codes, beq, beq_iff, beq_refl, Lacks}
use open_memory_protocol.Paths.{split, check_parts, is_bad_part, trim_matches}

-- A component of a path: a name without a slash that leads neither nowhere nor upwards.
abbrev pub IsPart : Bytes → Type 0
IsPart s = (s ≢ []) × (s ≢ codes ".") × (s ≢ codes "..") × Lacks b'/' s

is_bad_part_lem :
    (s : Bytes) → is_bad_part s ≡ false → (s ≢ []) × (s ≢ codes ".") × (s ≢ codes "..")
unfolding is_bad_part
is_bad_part_lem s h = ground (arith, beq_iff s [], beq_iff s (codes "."), beq_iff s (codes ".."))

split-Lacks : (d : ℕ) (s : Bytes) → All (Lacks d) (Bytes.split d s)
unfolding open_memory_protocol.Base.Bytes.split
split-Lacks d [] = (tt, tt)
split-Lacks d (c ∷ s) =
    let (first, more) = split-Lacks d s in
    elim (Bool-cases (c == d)) [
      | inl y ↦ rw y (tt, (first, more))
      | inr n ↦ rw n ((ground arith, first), more)
    ]

check_parts-All :
    (parts : List Bytes) → check_parts parts ≡ ok tt → All (Lacks b'/') parts → All IsPart parts
unfolding check_parts
check_parts-All [] h _ = tt
check_parts-All (s ∷ parts) h (lacks, more) = elim (Bool-cases (is_bad_part s)) [
  | inl y ↦ (let bad = rw y at h in absurd (cc bad))
  | inr n ↦
      let (ne, not_here, not_up) = is_bad_part_lem s n in
      ((ne, not_here, not_up, lacks), check_parts-All parts (rw n at h) more)
]

-- Every component of a path that `split` accepts is a name: it is not empty, not `.` and not `..`,
-- and has no slash.
pub split-IsPart : (path : Bytes) (parts : List Bytes) → split path ≡ ok parts → All IsPart parts
unfolding split
split-IsPart path parts h = elim (Bool-cases (beq (trim_matches b'/' path) [])) [
  | inl y ↦ (let e : [] ≡ parts = cc (rw y at h) in rw (← e) tt)
  | inr n ↦
      let (_, checked, e) =
        >>=-eq-ok (check_parts (Bytes.split b'/' (trim_matches b'/' path))) _ (rw n at h) in
      let same : Bytes.split b'/' (trim_matches b'/' path) ≡ parts = cc e in
      rw (← same) (check_parts-All _ checked (split-Lacks b'/' (trim_matches b'/' path)))
]
