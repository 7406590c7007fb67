-- ===== src/Toml.antt =====
-- The documents of the crate `toml_edit`, as far as crates/omp-core/src/manifest.rs uses them: third-party
-- code, so its documents are data here and its calls are parameters.
use open_memory_protocol.Base.{Bool, Option}
use open_memory_protocol.Base.Bytes.{Bytes}
use open_memory_protocol.Base.Int.{ℤ}
use open_memory_protocol.Query.{Floats}

-- The calls on dates of `toml_edit`, and `f64::is_finite`.
pub record Toml (fl : Floats) : Type 1 where
  pub Datetime : Type 0
  pub parse_datetime : Bytes → Option Datetime
  pub print_datetime : Datetime → Bytes
  pub is_finite : fl.Float → Bool

module _ (fl : Floats) (toml : Toml fl) where
  mutual
    pub data Value : Type 0 where
      string : Bytes → Value
      integer : ℤ → Value
      float : fl.Float → Value
      boolean : Bool → Value
      datetime : toml.Datetime → Value
      array : Values → Value
      inline_table : InlineTable → Value

    pub data Values : Type 0 where
      no_values : Values
      push : Value → Values → Values

    -- The entries of an inline table in the order of the document.
    pub data InlineTable : Type 0 where
      no_pairs : InlineTable
      pair : Bytes → Value → InlineTable → InlineTable

  mutual
    pub data Item : Type 0 where
      no_item : Item
      value : Value → Item
      table : Table → Item
      array_of_tables : Tables → Item

    pub data Table : Type 0 where
      no_entries : Table
      entry : Bytes → Item → Table → Table

    pub data Tables : Type 0 where
      no_tables : Tables
      another : Table → Tables → Tables
