-- ===== src/Manifest/Document.antt =====
-- crates/omp-core/src/manifest.rs: a manifest as the document that `serialize` builds and `parse` reads.
use open_memory_protocol.Base.{
  ap2, inr, inl, not, [], ◌∷◌, Option, none, some, Result, ok, >>=-eq-ok, reject_if-eq-ok, ◌≡◌, ◌≢◌,
  refl, ap, ◌∙◌, Ordering, Option-cases,
}
use open_memory_protocol.Base.Bytes.{Bytes, order}
use open_memory_protocol.Base.SortedMap.{SortedMap, Above, IsSorted, insert_all_of_IsSorted}
use open_memory_protocol.Error.{OmpError}
use open_memory_protocol.Query.{Floats}
use open_memory_protocol.Toml.{Toml, Value, Values, InlineTable, Item}
use open_memory_protocol.Query.Evaluate.{FieldValue, Items, Fields}
use open_memory_protocol.Manifest

module _ (fl : Floats) where
  -- Every key is above `k`.
  abbrev pub IsAbove : Bytes → Fields fl → Type 0
  IsAbove k Fields.end = Unit
  IsAbove k (Fields.field j v m) = (order k j ≡ Ordering.lt) × IsAbove k m

  -- The maps in a value are in the order of their keys, at every depth.
  unfoldable mutual
    pub IsOrdered : FieldValue fl → Type 0
    IsOrdered (FieldValue.list items) = AreOrdered items
    IsOrdered (FieldValue.object m) = IsOrderedMap m
    IsOrdered _ = Unit

    pub AreOrdered : Items fl → Type 0
    AreOrdered Items.nil = Unit
    AreOrdered (Items.cons v items) = IsOrdered v × AreOrdered items

    pub IsOrderedMap : Fields fl → Type 0
    IsOrderedMap Fields.end = Unit
    IsOrderedMap (Fields.field k v m) = IsAbove k m × IsOrdered v × IsOrderedMap m

module _ (fl : Floats) (toml : Toml fl) where
  -- What a date is read back as: a date in the form that the crate prints, or a text where it is none.
  abbrev pub date_back : Bytes → Option toml.Datetime → FieldValue fl
  date_back s (some d) = FieldValue.datetime (toml.print_datetime d)
  date_back s none = FieldValue.string s

  -- What a value is read back as: itself up to its dates.
  unfoldable mutual
    pub back : FieldValue fl → FieldValue fl
    back (FieldValue.datetime s) = date_back s (toml.parse_datetime s)
    back (FieldValue.list items) = FieldValue.list (back_items items)
    back (FieldValue.object m) = FieldValue.object (back_map m)
    back v = v

    pub back_items : Items fl → Items fl
    back_items Items.nil = Items.nil
    back_items (Items.cons v items) = Items.cons (back v) (back_items items)

    pub back_map : Fields fl → Fields fl
    back_map Fields.end = Fields.end
    back_map (Fields.field k v m) = Fields.field k (back v) (back_map m)

  abbrev pub list_of : Fields fl → SortedMap (FieldValue fl)
  list_of Fields.end = []
  list_of (Fields.field k v m) = (k, v) ∷ list_of m

  pub to_fields-list_of : (m : Fields fl) → Manifest.to_fields fl toml (list_of m) ≡ m
  to_fields-list_of Fields.end = refl
  to_fields-list_of (Fields.field k v m) = ap (Fields.field k v) (to_fields-list_of m)

  back_map-Above : (k : Bytes) (m : Fields fl) → IsAbove fl k m → Above k (list_of (back_map m))
  unfolding back
  back_map-Above k Fields.end _ = tt
  back_map-Above k (Fields.field j v m) (p, q) = (p, back_map-Above k m q)

  back_map-IsSorted : (m : Fields fl) → IsOrderedMap fl m → IsSorted (list_of (back_map m))
  unfolding back IsOrdered
  back_map-IsSorted Fields.end _ = tt
  back_map-IsSorted (Fields.field k v m) (p, _, q) = (back_map-Above k m p, back_map-IsSorted m q)

  collect-back_map :
      (m : Fields fl)
      → IsOrderedMap fl m
      → Manifest.collect fl toml (list_of (back_map m)) ≡ FieldValue.object (back_map m)
  collect-back_map m g =
      ap (λ l. FieldValue.object (Manifest.to_fields fl toml l))
        (insert_all_of_IsSorted _ (back_map-IsSorted m g))
      ∙ ap FieldValue.object (to_fields-list_of (back_map m))

  leaf :
      (w : Value fl toml) (found : Option (Item fl toml)) (val : Value fl toml)
      → (r : Result OmpError (Option (Item fl toml))) → r ≡ ok (some (Item.value w))
      → r ≡ ok found
      → Manifest.scalar_of fl toml found ≡ ok val
      → w ≡ val
  leaf w found val r q e h = (let f : some (Item.value w) ≡ found = cc (q, e) in cc (rw (← f) at h))

  no_scalar :
      (found : Option (Item fl toml)) (val : Value fl toml)
      (r : Result OmpError (Option (Item fl toml)))
      → r ≡ ok none
      → r ≡ ok found
      → Manifest.scalar_of fl toml found ≢ ok val
  no_scalar found val r q e h = (let f : none ≡ found = cc (q, e) in cc (rw (← f) at h))

  mutual
    unfolding back IsOrdered Manifest.field_value_to_item Manifest.value_to_field_value

    pub value_back :
        (v : FieldValue fl) (found : Option (Item fl toml)) (val : Value fl toml)
        → IsOrdered fl v
        → Manifest.field_value_to_item fl toml v ≡ ok found
        → Manifest.scalar_of fl toml found ≡ ok val
        → Manifest.value_to_field_value fl toml val ≡ back v
    value_back FieldValue.null found val _ e h = absurd (no_scalar found val _ refl e h)
    value_back (FieldValue.string s) found val _ e h =
        rw (← leaf (Value.string s) found val _ refl e h) refl
    value_back (FieldValue.int i) found val _ e h =
        rw (← leaf (Value.integer i) found val _ refl e h) refl
    value_back (FieldValue.float f) found val _ e h =
        let (_, k) = reject_if-eq-ok (not (toml.is_finite f)) OmpError.ingest_validation _ e in
        rw (← leaf (Value.float f) found val _ refl k h) refl
    value_back (FieldValue.bool b) found val _ e h =
        rw (← leaf (Value.boolean b) found val _ refl e h) refl
    value_back (FieldValue.datetime s) found val _ e h =
        elim (Option-cases (toml.parse_datetime s)) [
          | inl n ↦
              rw
                (
                  ← leaf (Manifest.date_value fl toml s (toml.parse_datetime s)) found val _ refl e
                      h,
                  n,
                )
                refl
          | inr (d, q) ↦
              rw
                (
                  ← leaf (Manifest.date_value fl toml s (toml.parse_datetime s)) found val _ refl e
                      h,
                  q,
                )
                refl
        ]
    value_back (FieldValue.list items) found val g e h =
        let (arr, a, k) = >>=-eq-ok (Manifest.items_to_array fl toml items) _ e in
        rw (← leaf (Value.array arr) found val _ refl k h)
          (ap FieldValue.list (items_back items arr g a))
    value_back (FieldValue.object m) found val g e h =
        let (t, a, k) = >>=-eq-ok (Manifest.fields_to_inline_table fl toml m) _ e in
        rw (← leaf (Value.inline_table t) found val _ refl k h)
          (ap (Manifest.collect fl toml) (pairs_back m t g a) ∙ collect-back_map m g)

    items_back :
        (items : Items fl) (arr : Values fl toml)
        → AreOrdered fl items
        → Manifest.items_to_array fl toml items ≡ ok arr
        → Manifest.array_to_items fl toml arr ≡ back_items items
    items_back Items.nil arr _ e = (let f : Values.no_values ≡ arr = cc e in rw (← f) refl)
    items_back (Items.cons v items) arr (p, g) e =
        let (found, a, e₁) = >>=-eq-ok (Manifest.field_value_to_item fl toml v) _ e in
        let (val, b, e₂) = >>=-eq-ok (Manifest.scalar_of fl toml found) _ e₁ in
        let (rest, c, e₃) = >>=-eq-ok (Manifest.items_to_array fl toml items) _ e₂ in
        let f : Values.push val rest ≡ arr = cc e₃ in
        rw (← f) (ap2 Items.cons (value_back v found val p a b) (items_back items rest g c))

    pairs_back :
        (m : Fields fl) (t : InlineTable fl toml)
        → IsOrderedMap fl m
        → Manifest.fields_to_inline_table fl toml m ≡ ok t
        → Manifest.pairs_to_fields fl toml t ≡ list_of (back_map m)
    pairs_back Fields.end t _ e = (let f : InlineTable.no_pairs ≡ t = cc e in rw (← f) refl)
    pairs_back (Fields.field k v m) t (_, p, g) e =
        let (found, a, e₁) = >>=-eq-ok (Manifest.field_value_to_item fl toml v) _ e in
        let (val, b, e₂) = >>=-eq-ok (Manifest.scalar_of fl toml found) _ e₁ in
        let (rest, c, e₃) = >>=-eq-ok (Manifest.fields_to_inline_table fl toml m) _ e₂ in
        let f : InlineTable.pair k val rest ≡ t = cc e₃ in
        rw (← f) (ap2 (λ w l. (k, w) ∷ l) (value_back v found val p a b) (pairs_back m rest g c))
