-- ===== src/Manifest.antt =====
-- crates/omp-core/src/manifest.rs: manifests and the TOML documents they are written as. The values are
-- those of Query.Evaluate. `toml_edit` is third-party code: its documents are data, its parser a parameter.
pub mod Document
pub mod RoundTrip
use open_memory_protocol.Base.{
  if◌then◌else◌, List, [], ◌∷◌, ◌++◌, Bool, not, Option, none, some, Result, ok, err, ◌>>=◌, ◌>>◌,
  ok_or, map_err, reject_if,
}
use open_memory_protocol.Base.Bytes.{Bytes, codes}
use open_memory_protocol.Base.Int.{ℤ}
use open_memory_protocol.Base.Utf8.{is_utf8}
use open_memory_protocol.Base.SortedMap.{SortedMap, insert_all}
use open_memory_protocol.Base.Bytes.{beq}
use open_memory_protocol.Error.{OmpError}
use open_memory_protocol.Hash.{Hash, hex, from_str}
use open_memory_protocol.Query.{Floats}
use open_memory_protocol.Toml.{Toml, Value, Values, InlineTable, Item, Table, Tables}
use open_memory_protocol.Query.Evaluate.{FieldValue, Items, Fields, Manifest}

module _ (fl : Floats) (toml : Toml fl) where
  -- What stands in an array or an inline table: neither nothing nor a table.
  abbrev pub scalar_of : Option (Item fl toml) → Result OmpError (Value fl toml)
  scalar_of (some (Item.value v)) = ok v
  scalar_of _ = err OmpError.ingest_validation

  abbrev pub date_value : Bytes → Option toml.Datetime → Value fl toml
  date_value s (some d) = Value.datetime d
  date_value s none = Value.string s

  unfoldable mutual
    pub field_value_to_item : FieldValue fl → Result OmpError (Option (Item fl toml))
    field_value_to_item FieldValue.null = ok none
    field_value_to_item (FieldValue.string s) = ok (some (Item.value (Value.string s)))
    field_value_to_item (FieldValue.int i) = ok (some (Item.value (Value.integer i)))
    field_value_to_item (FieldValue.float f) = do
      reject_if (not (toml.is_finite f)) OmpError.ingest_validation
      ok (some (Item.value (Value.float f)))
    field_value_to_item (FieldValue.bool b) = ok (some (Item.value (Value.boolean b)))
    field_value_to_item (FieldValue.datetime s) =
        ok (some (Item.value (date_value s (toml.parse_datetime s))))
    field_value_to_item (FieldValue.list items) = do
      arr ← items_to_array items
      ok (some (Item.value (Value.array arr)))
    field_value_to_item (FieldValue.object map) = do
      t ← fields_to_inline_table map
      ok (some (Item.value (Value.inline_table t)))

    pub items_to_array : Items fl → Result OmpError (Values fl toml)
    items_to_array Items.nil = ok Values.no_values
    items_to_array (Items.cons item items) = do
      found ← field_value_to_item item
      val ← scalar_of found
      arr ← items_to_array items
      ok (Values.push val arr)

    pub fields_to_inline_table : Fields fl → Result OmpError (InlineTable fl toml)
    fields_to_inline_table Fields.end = ok InlineTable.no_pairs
    fields_to_inline_table (Fields.field k val map) = do
      found ← field_value_to_item val
      v ← scalar_of found
      t ← fields_to_inline_table map
      ok (InlineTable.pair k v t)

  -- A `BTreeMap` of values with its insertions done.
  abbrev pub to_fields : SortedMap (FieldValue fl) → Fields fl
  to_fields [] = Fields.end
  to_fields ((k, v) ∷ m) = Fields.field k v (to_fields m)

  abbrev pub collect : List (Bytes × FieldValue fl) → FieldValue fl
  collect entries = FieldValue.object (to_fields (insert_all [] entries))

  -- In the source these return a `Result` that is `Ok` on every branch.
  unfoldable mutual
    pub value_to_field_value : Value fl toml → FieldValue fl
    value_to_field_value (Value.string s) = FieldValue.string s
    value_to_field_value (Value.integer i) = FieldValue.int i
    value_to_field_value (Value.float f) = FieldValue.float f
    value_to_field_value (Value.boolean b) = FieldValue.bool b
    value_to_field_value (Value.datetime d) = FieldValue.datetime (toml.print_datetime d)
    value_to_field_value (Value.array arr) = FieldValue.list (array_to_items arr)
    value_to_field_value (Value.inline_table t) = collect (pairs_to_fields t)

    pub array_to_items : Values fl toml → Items fl
    array_to_items Values.no_values = Items.nil
    array_to_items (Values.push v arr) = Items.cons (value_to_field_value v) (array_to_items arr)

    pub pairs_to_fields : InlineTable fl toml → List (Bytes × FieldValue fl)
    pairs_to_fields InlineTable.no_pairs = []
    pairs_to_fields (InlineTable.pair k v t) = (k, value_to_field_value v) ∷ pairs_to_fields t

  unfoldable mutual
    pub item_to_field_value : Item fl toml → FieldValue fl
    item_to_field_value Item.no_item = FieldValue.null
    item_to_field_value (Item.value v) = value_to_field_value v
    item_to_field_value (Item.table t) = collect (table_to_fields t)
    item_to_field_value (Item.array_of_tables arr) = FieldValue.list (array_of_tables_to_items arr)

    pub table_to_fields : Table fl toml → List (Bytes × FieldValue fl)
    table_to_fields Table.no_entries = []
    table_to_fields (Table.entry k v t) = (k, item_to_field_value v) ∷ table_to_fields t

    pub array_of_tables_to_items : Tables fl toml → Items fl
    array_of_tables_to_items Tables.no_tables = Items.nil
    array_of_tables_to_items (Tables.another t arr) =
        Items.cons (collect (table_to_fields t)) (array_of_tables_to_items arr)

  -- `DocumentMut::get`
  unfoldable pub get_item : Bytes → Table fl toml → Option (Item fl toml)
  get_item k Table.no_entries = none
  get_item k (Table.entry j item t) = if beq j k then some item else get_item k t

  abbrev pub as_str : Item fl toml → Option Bytes
  as_str (Item.value (Value.string s)) = some s
  as_str _ = none

  abbrev pub and_then_str : Option (Item fl toml) → Option Bytes
  and_then_str none = none
  and_then_str (some item) = as_str item

  unfoldable pub read_string : Table fl toml → Bytes → Result OmpError Bytes
  read_string doc key = ok_or (and_then_str (get_item key doc)) OmpError.corrupt

  unfoldable pub read_hash_str : Table fl toml → Bytes → Result OmpError Hash
  read_hash_str doc key = do s ← read_string doc key; map_err (λ _. OmpError.corrupt) (from_str s)

  unfoldable pub read_probe_hashes : Table fl toml → Result OmpError (List (Bytes × Hash))
  read_probe_hashes Table.no_entries = ok []
  read_probe_hashes (Table.entry k v t) = do
    s ← ok_or (as_str v) OmpError.corrupt
    h ← map_err (λ _. OmpError.corrupt) (from_str s)
    rest ← read_probe_hashes t
    ok ((k, h) ∷ rest)

  -- The table under a key, empty where there is none.
  abbrev pub table_of : Option (Item fl toml) → Table fl toml
  table_of (some (Item.table t)) = t
  table_of _ = Table.no_entries

  unfoldable pub from_document : Table fl toml → Result OmpError (Manifest fl)
  from_document doc = do
    source_hash ← read_hash_str doc (codes "source_hash")
    file_type ← read_string doc (codes "file_type")
    schema_hash ← read_hash_str doc (codes "schema_hash")
    ingested_at ← read_string doc (codes "ingested_at")
    ingester_version ← read_string doc (codes "ingester_version")
    probes ← read_probe_hashes (table_of (get_item (codes "probe_hashes") doc))
    ok (record {
      source_hash = source_hash;
      file_type = file_type;
      schema_hash = schema_hash;
      ingested_at = ingested_at;
      ingester_version = ingester_version;
      probe_hashes = insert_all [] probes;
      fields =
          to_fields (insert_all [] (table_to_fields (table_of (get_item (codes "fields") doc))));
    })

  -- `Manifest::parse`, with the parser of `toml_edit`.
  unfoldable pub parse : (Bytes → Option (Table fl toml)) → Bytes → Result OmpError (Manifest fl)
  parse parse_toml bytes = do
    reject_if (not (is_utf8 bytes)) OmpError.corrupt
    doc ← ok_or (parse_toml bytes) OmpError.corrupt
    from_document doc

  -- `value` of a text.
  abbrev pub text : Bytes → Item fl toml
  text s = Item.value (Value.string s)

  unfoldable pub write_probe_hashes : List (Bytes × Hash) → Table fl toml
  write_probe_hashes [] = Table.no_entries
  write_probe_hashes ((name, h) ∷ probes) =
      Table.entry name (text (hex h)) (write_probe_hashes probes)

  abbrev pub write_item : Bytes → Option (Item fl toml) → Table fl toml → Table fl toml
  write_item k none t = t
  write_item k (some item) t = Table.entry k item t

  unfoldable pub write_fields : Fields fl → Result OmpError (Table fl toml)
  write_fields Fields.end = ok Table.no_entries
  write_fields (Fields.field k v m) = do
    item ← field_value_to_item v
    t ← write_fields m
    ok (write_item k item t)

  abbrev pub document : Manifest fl → Table fl toml → Table fl toml
  document m fields = Table.entry (codes "source_hash") (text (hex m.source_hash)) (
      Table.entry (codes "file_type") (text m.file_type) (
        Table.entry (codes "schema_hash") (text (hex m.schema_hash)) (
          Table.entry (codes "ingested_at") (text m.ingested_at) (
            Table.entry (codes "ingester_version") (text m.ingester_version) (
              Table.entry (codes "probe_hashes") (Item.table (write_probe_hashes m.probe_hashes))
                (Table.entry (codes "fields") (Item.table fields) Table.no_entries))))))

  -- The document of `serialize`, before it is written as text.
  unfoldable pub to_document : Manifest fl → Result OmpError (Table fl toml)
  to_document m = do fields ← write_fields m.fields; ok (document m fields)
