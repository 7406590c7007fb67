-- ===== src/Query/Evaluate/Paths.antt =====
-- Field paths of crates/omp-core/src/query.rs and the case of their letters.
use std.Path.{fun_ext}
use open_memory_protocol.Base.{ap, ℕ, [], ◌∷◌, map, ◌≡◌, refl, arith}
use open_memory_protocol.Base.Bytes.{Bytes}
use open_memory_protocol.Hex.RoundTrip.{to_lower}
use open_memory_protocol.Hash.{hex}
use open_memory_protocol.Query.{Floats, FieldPath}
use open_memory_protocol.Query.Evaluate.{
  lowercase, Fields, Manifest, get_ci, in_object, descend_fields, resolve_head, resolve_path,
  scalar,
}

to_lower-twice : (c : ℕ) → to_lower (to_lower c) ≡ to_lower c
to_lower-twice c = ground arith

lowercase-twice : (s : Bytes) → lowercase (lowercase s) ≡ lowercase s
lowercase-twice [] = refl
lowercase-twice (c ∷ s) = rw (to_lower-twice c, lowercase-twice s)

module _ (fl : Floats) where
  descend_fields-lowercase :
      (m : Fields fl) (path : FieldPath)
      → descend_fields fl m (map lowercase path) ≡ descend_fields fl m path
  unfolding descend_fields
  descend_fields-lowercase m [] = refl
  descend_fields-lowercase m (seg ∷ []) = rw (lowercase-twice seg)
  descend_fields-lowercase m (seg ∷ next ∷ more) = rw (lowercase-twice seg) (
      ap (in_object fl (get_ci fl m (lowercase seg)))
        (fun_ext (λ inner. descend_fields-lowercase inner (next ∷ more))))

  scalar-lowercase :
      (v : Bytes) (path : FieldPath) → scalar fl v (map lowercase path) ≡ scalar fl v path
  scalar-lowercase v [] = refl
  scalar-lowercase v (seg ∷ path) = refl

  -- A path whose segments are all put in lower case finds what the path finds, at the top of the
  -- manifest and at any depth of its fields.
  pub resolve_path-lowercase :
      (m : Manifest fl) (path : FieldPath)
      → resolve_path fl m (map lowercase path) ≡ resolve_path fl m path
  unfolding resolve_path resolve_head
  resolve_path-lowercase m [] = refl
  resolve_path-lowercase m (seg ∷ rest) = rw (
    lowercase-twice seg,
    scalar-lowercase m.file_type rest,
    scalar-lowercase (hex m.source_hash) rest,
    scalar-lowercase (hex m.schema_hash) rest,
    scalar-lowercase m.ingested_at rest,
    scalar-lowercase m.ingester_version rest,
    descend_fields-lowercase m.fields rest,
    descend_fields-lowercase m.fields (seg ∷ rest),
  )
