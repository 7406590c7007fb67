-- ===== src/Query/Evaluate.antt =====
-- The evaluator of crates/omp-core/src/query.rs, over the values of crates/omp-core/src/manifest.rs.
pub mod Paths
pub mod Texts
use open_memory_protocol.Base.{
  ℕ, List, [], ◌∷◌, ◌++◌, Bool, true, false, not, ◌||◌, ◌&&◌, ◌==◌, if◌then◌else◌, Option, none,
  some, map, Ordering,
}
use open_memory_protocol.Base.Bytes.{Bytes, codes, beq, order, strip_prefix}
use open_memory_protocol.Base.Int.{ℤ, int_beq}
use open_memory_protocol.Hex.RoundTrip.{to_lower}
use open_memory_protocol.Hash.{Hash, hex}
use open_memory_protocol.Query.{Floats, Op, FieldPath, Literal, Atom, Expr}

-- `to_ascii_lowercase`
abbrev pub lowercase : Bytes → Bytes
lowercase s = map to_lower s

abbrev pub is_some : {A : Type 0} → Option A → Bool
is_some none = false
is_some (some _) = true

unfoldable pub starts_with : Bytes → Bytes → Bool
starts_with t s = is_some (strip_prefix t s)

-- `str::contains` of a text.
unfoldable pub contains_text : Bytes → Bytes → Bool
contains_text t [] = starts_with t []
contains_text t (c ∷ s) = starts_with t (c ∷ s) || contains_text t s

abbrev is_lt : Ordering → Bool
is_lt Ordering.lt = true
is_lt _ = false

abbrev is_gt : Ordering → Bool
is_gt Ordering.gt = true
is_gt _ = false

-- The comparison of two texts, of `String` and of `Datetime` alike.
unfoldable pub compare_text : Bytes → Op → Bytes → Bool
compare_text s Op.eq t = beq s t
compare_text s Op.ne t = not (beq s t)
compare_text s Op.lt t = is_lt (order s t)
compare_text s Op.le t = not (is_gt (order s t))
compare_text s Op.gt t = is_gt (order s t)
compare_text s Op.ge t = not (is_lt (order s t))
compare_text s Op.contains t = contains_text t s
compare_text s Op.starts_with t = starts_with t s

unfoldable pub compare_bool : Bool → Op → Bool → Bool
compare_bool true Op.eq c = c
compare_bool false Op.eq c = not c
compare_bool true Op.ne c = not c
compare_bool false Op.ne c = c
compare_bool b _ c = false

module _ (fl : Floats) where
  mutual
    pub data FieldValue : Type 0 where
      null : FieldValue
      string : Bytes → FieldValue
      int : ℤ → FieldValue
      float : fl.Float → FieldValue
      bool : Bool → FieldValue
      datetime : Bytes → FieldValue
      list : Items → FieldValue
      object : Fields → FieldValue

    pub data Items : Type 0 where
      nil : Items
      cons : FieldValue → Items → Items

    -- A `BTreeMap` in the order of its keys.
    pub data Fields : Type 0 where
      end : Fields
      field : Bytes → FieldValue → Fields → Fields

  pub record Manifest : Type 0 where
    pub source_hash : Hash
    pub file_type : Bytes
    pub schema_hash : Hash
    pub ingested_at : Bytes
    pub ingester_version : Bytes
    pub probe_hashes : List (Bytes × Hash)
    pub fields : Fields

  -- `map.get`
  unfoldable pub get_exact : Fields → Bytes → Option FieldValue
  get_exact end needle = none
  get_exact (field k v m) needle = if beq k needle then some v else get_exact m needle

  -- The scan with `eq_ignore_ascii_case`.
  unfoldable pub get_ignoring_case : Fields → Bytes → Option FieldValue
  get_ignoring_case end needle = none
  get_ignoring_case (field k v m) needle =
      if beq (lowercase k) (lowercase needle) then some v else get_ignoring_case m needle

  abbrev pub or_else : Option FieldValue → Option FieldValue → Option FieldValue
  or_else none b = b
  or_else (some v) b = some v

  unfoldable pub get_ci : Fields → Bytes → Option FieldValue
  get_ci m needle = or_else (get_exact m needle) (get_ignoring_case m needle)

  abbrev pub in_object : Option FieldValue → (Fields → Option FieldValue) → Option FieldValue
  in_object (some (object m)) rest = rest m
  in_object _ rest = none

  unfoldable pub descend_fields : Fields → FieldPath → Option FieldValue
  descend_fields m [] = none
  descend_fields m (seg ∷ []) = get_ci m (lowercase seg)
  descend_fields m (seg ∷ next ∷ more) =
      in_object (get_ci m (lowercase seg)) (λ inner. descend_fields inner (next ∷ more))

  -- A top-level field is a scalar: no segment may follow.
  abbrev pub scalar : Bytes → FieldPath → Option FieldValue
  scalar v [] = some (string v)
  scalar v (_ ∷ _) = none

  unfoldable pub resolve_head : Manifest → Bytes → FieldPath → Option FieldValue → Option FieldValue
  resolve_head m head rest implicit =
      if beq head (codes "file_type")
      then scalar m.file_type rest
      else if beq head (codes "source_hash")
      then scalar (hex m.source_hash) rest
      else if beq head (codes "schema_hash")
      then scalar (hex m.schema_hash) rest
      else if beq head (codes "ingested_at")
      then scalar m.ingested_at rest
      else if beq head (codes "ingester_version")
      then scalar m.ingester_version rest
      else if beq head (codes "fields")
      then descend_fields m.fields rest
      else implicit

  unfoldable pub resolve_path : Manifest → FieldPath → Option FieldValue
  resolve_path m [] = none
  resolve_path m (seg ∷ rest) =
      resolve_head m (lowercase seg) rest (descend_fields m.fields (seg ∷ rest))

  unfoldable pub cmp_num : fl.Float → fl.Float → Op → Bool
  cmp_num a b Op.eq = fl.lt (fl.abs (fl.sub a b)) fl.epsilon
  cmp_num a b Op.ne = fl.le fl.epsilon (fl.abs (fl.sub a b))
  cmp_num a b Op.lt = fl.lt a b
  cmp_num a b Op.le = fl.le a b
  cmp_num a b Op.gt = fl.lt b a
  cmp_num a b Op.ge = fl.le b a
  cmp_num a b _ = false

  abbrev close : fl.Float → fl.Float → Bool
  close n m = fl.lt (fl.abs (fl.sub n m)) fl.epsilon

  unfoldable pub item_matches : FieldValue → Literal fl → Bool
  item_matches (string s) (Literal.string t) = beq s t
  item_matches (int n) (Literal.int m) = int_beq n m
  item_matches (float n) (Literal.float m) = close n m
  item_matches (int n) (Literal.float m) = close (fl.of_int n) m
  item_matches (float n) (Literal.int m) = close n (fl.of_int m)
  item_matches (bool true) (Literal.bool c) = c
  item_matches (bool false) (Literal.bool c) = not c
  item_matches _ _ = false

  unfoldable pub any_matches : Items → Literal fl → Bool
  any_matches nil lit = false
  any_matches (cons v items) lit = item_matches v lit || any_matches items lit

  unfoldable pub compare_list : Items → Op → Literal fl → Bool
  compare_list items Op.contains lit = any_matches items lit
  compare_list items _ lit = false

  abbrev is_eq : Op → Bool
  is_eq Op.eq = true
  is_eq _ = false

  abbrev is_ne : Op → Bool
  is_ne Op.ne = true
  is_ne _ = false

  unfoldable pub compare : FieldValue → Op → Literal fl → Bool
  compare (string s) o (Literal.string t) = compare_text s o t
  compare (int n) o (Literal.int m) = cmp_num (fl.of_int n) (fl.of_int m) o
  compare (float n) o (Literal.float m) = cmp_num n m o
  compare (int n) o (Literal.float m) = cmp_num (fl.of_int n) m o
  compare (float n) o (Literal.int m) = cmp_num n (fl.of_int m) o
  compare (bool b) o (Literal.bool c) = compare_bool b o c
  compare (list items) o lit = compare_list items o lit
  compare (datetime s) o (Literal.string t) = compare_text s o t
  compare null o Literal.null = is_eq o
  compare null o _ = is_ne o
  compare _ o _ = false

  abbrev pub compare_found : Option FieldValue → Op → Literal fl → Bool
  compare_found none o value = false
  compare_found (some v) o value = compare v o value

  unfoldable pub evaluate_atom : Atom fl → Manifest → Bool
  evaluate_atom (Atom.exists path) m = is_some (resolve_path m path)
  evaluate_atom (Atom.compare path o value) m = compare_found (resolve_path m path) o value

  unfoldable pub evaluate : Expr fl → Manifest → Bool
  evaluate (Expr.and a b) m = evaluate a m && evaluate b m
  evaluate (Expr.or a b) m = evaluate a m || evaluate b m
  evaluate (Expr.not a) m = not (evaluate a m)
  evaluate (Expr.atom a) m = evaluate_atom a m
