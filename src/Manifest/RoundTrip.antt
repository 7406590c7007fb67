-- ===== src/Manifest/RoundTrip.antt =====
-- crates/omp-core/src/manifest.rs: what `parse` reads from the document that `serialize` builds.
use open_memory_protocol.Base.{
  ap2, inl, inr, not, List, [], ◌∷◌, Option, none, some, Result, ok, >>=-eq-ok, reject_if-eq-ok,
  All, ◌≡◌, ◌⊎◌, refl,
}
use open_memory_protocol.Base.Bytes.{Bytes, beq}
use open_memory_protocol.Base.SortedMap.{Above, IsSorted, insert_all, insert_all_of_IsSorted}
use open_memory_protocol.Error.{OmpError}
use open_memory_protocol.Hash.{Hash, IsHash}
use open_memory_protocol.Hash.Text.{from_str-hex}
use open_memory_protocol.Query.{Floats}
use open_memory_protocol.Toml.{Toml, Value, Item, Table}
use open_memory_protocol.Query.Evaluate.{FieldValue, Fields, Manifest}
use open_memory_protocol.Manifest
use open_memory_protocol.Manifest.Document.{
  IsAbove, IsOrdered, IsOrderedMap, back, value_back, list_of, to_fields-list_of,
}

module _ (fl : Floats) (toml : Toml fl) where
  -- A field as it is read back, left out where its value is null.
  abbrev pub keep_field : Bytes → FieldValue fl → Fields fl → Fields fl
  keep_field k FieldValue.null m = m
  keep_field k v m = Fields.field k (back fl toml v) m

  unfoldable pub without_nulls : Fields fl → Fields fl
  without_nulls Fields.end = Fields.end
  without_nulls (Fields.field k v m) = keep_field k v (without_nulls m)

  keep_cases :
      (v : FieldValue fl)
      → (v ≡ FieldValue.null)
        ⊎ ((k : Bytes) (m : Fields fl) → keep_field k v m ≡ Fields.field k (back fl toml v) m)
  keep_cases FieldValue.null = inl refl
  keep_cases (FieldValue.string s) = inr (λ k m. refl)
  keep_cases (FieldValue.int i) = inr (λ k m. refl)
  keep_cases (FieldValue.float f) = inr (λ k m. refl)
  keep_cases (FieldValue.bool b) = inr (λ k m. refl)
  keep_cases (FieldValue.datetime s) = inr (λ k m. refl)
  keep_cases (FieldValue.list items) = inr (λ k m. refl)
  keep_cases (FieldValue.object m) = inr (λ k m. refl)

  -- A value is null and writes nothing, or it writes a value and is kept.
  abbrev IsWritten : FieldValue fl → Option (Item fl toml) → Type 0
  IsWritten v found =
      ((v ≡ FieldValue.null) × (found ≡ none))
      ⊎ ((val : Value fl toml) × ((found ≡ some (Item.value val))
            × ((k : Bytes) (m : Fields fl) → keep_field k v m ≡ Fields.field k (back fl toml v) m)))

  written :
      (v : FieldValue fl) (w : Value fl toml) (found : Option (Item fl toml))
      (r : Result OmpError (Option (Item fl toml)))
      → r ≡ ok (some (Item.value w))
      → r ≡ ok found
      → ((k : Bytes) (m : Fields fl) → keep_field k v m ≡ Fields.field k (back fl toml v) m)
      → IsWritten v found
  written v w found r q e keep = inr (w, (cc (q, e), keep))

  field_value_to_item-IsWritten :
      (v : FieldValue fl) (found : Option (Item fl toml))
      → Manifest.field_value_to_item fl toml v ≡ ok found
      → IsWritten v found
  unfolding Manifest.field_value_to_item
  field_value_to_item-IsWritten FieldValue.null found e = inl (refl, cc e)
  field_value_to_item-IsWritten (FieldValue.string s) found e =
      written _ (Value.string s) found _ refl e (λ k m. refl)
  field_value_to_item-IsWritten (FieldValue.int i) found e =
      written _ (Value.integer i) found _ refl e (λ k m. refl)
  field_value_to_item-IsWritten (FieldValue.float f) found e =
      let (_, k) = reject_if-eq-ok (not (toml.is_finite f)) OmpError.ingest_validation _ e in
      written _ (Value.float f) found _ refl k (λ k m. refl)
  field_value_to_item-IsWritten (FieldValue.bool b) found e =
      written _ (Value.boolean b) found _ refl e (λ k m. refl)
  field_value_to_item-IsWritten (FieldValue.datetime s) found e =
      written _ _ found _ refl e (λ k m. refl)
  field_value_to_item-IsWritten (FieldValue.list items) found e =
      let (arr, _, k) = >>=-eq-ok (Manifest.items_to_array fl toml items) _ e in
      written _ (Value.array arr) found _ refl k (λ k m. refl)
  field_value_to_item-IsWritten (FieldValue.object m) found e =
      let (t, _, k) = >>=-eq-ok (Manifest.fields_to_inline_table fl toml m) _ e in
      written _ (Value.inline_table t) found _ refl k (λ k m. refl)

  write_fields-back :
      (m : Fields fl) (t : Table fl toml)
      → IsOrderedMap fl m
      → Manifest.write_fields fl toml m ≡ ok t
      → Manifest.table_to_fields fl toml t ≡ list_of fl toml (without_nulls m)
  unfolding Manifest.write_fields Manifest.item_to_field_value without_nulls IsOrdered
  write_fields-back Fields.end t _ e = (let f : Table.no_entries ≡ t = cc e in rw (← f) refl)
  write_fields-back (Fields.field k v m) t (_, p, g) e =
      let (found, a, e₁) = >>=-eq-ok (Manifest.field_value_to_item fl toml v) _ e in
      let (rest, b, e₂) = >>=-eq-ok (Manifest.write_fields fl toml m) _ e₁ in
      let f : Manifest.write_item fl toml k found rest ≡ t = cc e₂ in
      let ih = write_fields-back m rest g b in
      rw (← f) (elim (field_value_to_item-IsWritten v found a) [
        | inl (n, q) ↦ rw (n, q) ih
        | inr (val, (q, keep)) ↦
            rw (q, keep k (without_nulls m))
              (ap2 (λ w l. (k, w) ∷ l) (value_back fl toml v found val p a (rw q refl)) ih)
      ])

  without_nulls-Above :
      (k : Bytes) (m : Fields fl) → IsAbove fl k m → Above k (list_of fl toml (without_nulls m))
  unfolding without_nulls
  without_nulls-Above k Fields.end _ = tt
  without_nulls-Above k (Fields.field j v m) (p, q) = elim (keep_cases v) [
    | inl n ↦ rw n (without_nulls-Above k m q)
    | inr keep ↦ rw (keep j (without_nulls m)) (p, without_nulls-Above k m q)
  ]

  without_nulls-IsSorted :
      (m : Fields fl) → IsOrderedMap fl m → IsSorted (list_of fl toml (without_nulls m))
  unfolding without_nulls IsOrdered
  without_nulls-IsSorted Fields.end _ = tt
  without_nulls-IsSorted (Fields.field k v m) (p, _, q) = elim (keep_cases v) [
    | inl n ↦ rw n (without_nulls-IsSorted m q)
    | inr keep ↦
        rw (keep k (without_nulls m)) (without_nulls-Above k m p, without_nulls-IsSorted m q)
  ]

  read_probe_hashes-write_probe_hashes :
      (ps : List (Bytes × Hash))
      → All (λ e. IsHash e.1) ps
      → Manifest.read_probe_hashes fl toml (Manifest.write_probe_hashes fl toml ps) ≡ ok ps
  unfolding Manifest.read_probe_hashes Manifest.write_probe_hashes
  read_probe_hashes-write_probe_hashes [] _ = refl
  read_probe_hashes-write_probe_hashes ((k, h) ∷ ps) (p, g) =
      rw (from_str-hex h p, read_probe_hashes-write_probe_hashes ps g) refl

  -- A manifest whose hashes are hashes and whose maps are in key order.
  pub record IsManifest (m : Manifest fl) : Type 0 where
    pub source : IsHash m.source_hash
    pub schema : IsHash m.schema_hash
    pub probes : All (λ e. IsHash e.1) m.probe_hashes
    pub probe_order : IsSorted m.probe_hashes
    pub field_order : IsOrderedMap fl m.fields

  pub from_document-to_document :
      (m : Manifest fl) (doc : Table fl toml)
      → IsManifest m
      → Manifest.to_document fl toml m ≡ ok doc
      → Manifest.from_document fl toml doc ≡ ok (record m { fields = without_nulls m.fields })
  unfolding Manifest.to_document Manifest.from_document Manifest.get_item Manifest.read_string
      Manifest.read_hash_str beq
  from_document-to_document m doc g e =
      let (t, a, k) = >>=-eq-ok (Manifest.write_fields fl toml m.fields) _ e in
      let f : Manifest.document fl toml m t ≡ doc = cc k in
      let fields : Manifest.to_fields fl toml (insert_all [] (Manifest.table_to_fields fl toml t))
          ≡ without_nulls m.fields =
        (rw
          (
            write_fields-back m.fields t g.field_order a,
            insert_all_of_IsSorted _ (without_nulls-IsSorted m.fields g.field_order),
          )
          (to_fields-list_of fl toml (without_nulls m.fields))) in
      rw (← f) (
        rw
          (
            from_str-hex m.source_hash g.source,
            from_str-hex m.schema_hash g.schema,
            read_probe_hashes-write_probe_hashes m.probe_hashes g.probes,
            insert_all_of_IsSorted m.probe_hashes g.probe_order,
            fields,
          )
          refl)
