-- ===== src/Onboard/Columns.antt =====
-- scripts/ops/onboard_table.py, `map_column` and `generate_ddl`: the columns of MySQL in
-- ClickHouse. A type is what its text says to the code; the texts of the DDL are left out.
pub mod Ranges
pub mod Aligned
mod Tests
use crypto_cdc_pipeline.Base.{
  ℕ, ◌≤◌, Bool, true, false, not, ◌&&◌, ◌||◌, String, str_eq, Option, none, some, List, [], ◌∷◌,
  leb, ◌>>=◌, if◌then◌else◌,
}

-- `data_type.lower()`; the last is text, json, blob and the like.
pub data DataType : Type 0 where
  tinyint smallint mediumint int integer bigint decimal numeric float double real timestamp datetime
        date enum set varchar char other :
      DataType

-- A column: its types as the code reads them - whether `column_type` starts with `tinyint(1)`,
-- has `unsigned`, has `(p,s)`, has `(n)` - and whether it may be NULL and is of the key.
pub record Column : Type 0 where
  pub name : String
  pub data_type : DataType
  pub tinyint_one : Bool
  pub unsigned : Bool
  pub digits : Option (ℕ × ℕ)
  pub width : Option ℕ
  pub nullable : Bool
  pub pk : Bool

pub data ChType : Type 0 where
  uint8 uint32 int32 uint64 int64 float64 datetime64 ch_date low_cardinality ch_string : ChType
  ch_decimal : ℕ → ℕ → ChType

-- How the value is taken from the JSON of the row.
pub data Extract : Type 0 where
  uint8_of_int extract_uint extract_int extract_float best_effort from_millis to_date
        extract_string :
      Extract
  decimal_of_string : ℕ → Extract

-- What a null becomes.
pub data OnNull : Type 0 where
  as_is as_null as_empty : OnNull

pub record Mapped : Type 0 where
  pub ch_type : ChType
  pub is_nullable : Bool
  pub expr : Extract
  pub on_null : OnNull

abbrev pub text_type : Bool → ChType × Extract
text_type short = (if short then low_cardinality else ch_string, extract_string)

abbrev pub sized : Bool → ChType → ChType → ChType × Extract
sized unsigned u i = if unsigned then (u, extract_uint) else (i, extract_int)

abbrev pub decimal_type : Option (ℕ × ℕ) → ChType × Extract
decimal_type none = (ch_decimal 18 8, decimal_of_string 8)
decimal_type (some (p, s)) = (ch_decimal p s, decimal_of_string s)

-- The branches; `none` is the exception where a varchar has no width.
abbrev pub branch_of : Column → Option (ChType × Extract)
branch_of c = elim c.data_type [
  | tinyint ↦ some (if c.tinyint_one then (uint8, uint8_of_int) else sized c.unsigned uint32 int32)
  | smallint ↦ some (sized c.unsigned uint32 int32)
  | mediumint ↦ some (sized c.unsigned uint32 int32)
  | int ↦ some (sized c.unsigned uint32 int32)
  | integer ↦ some (sized c.unsigned uint32 int32)
  | bigint ↦ some (sized c.unsigned uint64 int64)
  | decimal ↦ some (decimal_type c.digits)
  | numeric ↦ some (decimal_type c.digits)
  | float ↦ some (float64, extract_float)
  | double ↦ some (float64, extract_float)
  | real ↦ some (float64, extract_float)
  | timestamp ↦ some (datetime64, best_effort)
  | datetime ↦ some (datetime64, from_millis)
  | date ↦ some (ch_date, to_date)
  | enum ↦ some (text_type true)
  | set ↦ some (text_type true)
  | varchar ↦ c.width >>= (λ n. some (text_type (leb n 40)))
  | char ↦ c.width >>= (λ n. some (text_type (leb n 40)))
  | other ↦ some (text_type false)
]

abbrev pub is_low : ChType → Bool
is_low low_cardinality = true
is_low _ = false

abbrev pub with_null : Bool → ChType × Extract → Mapped
with_null nullable m =
    if nullable && not (is_low m.0)
    then record { ch_type = m.0; is_nullable = true; expr = m.1; on_null = as_null }
    else if nullable
    then record { ch_type = m.0; is_nullable = false; expr = m.1; on_null = as_empty }
    else record { ch_type = m.0; is_nullable = false; expr = m.1; on_null = as_is }

unfoldable pub map_column : Column → Option Mapped
map_column c = branch_of c >>= (λ m. some (with_null c.nullable m))

-- `"int" in data_type`, which a point has too: that is left out.
abbrev pub has_int : DataType → Bool
has_int tinyint = true
has_int smallint = true
has_int mediumint = true
has_int int = true
has_int integer = true
has_int bigint = true
has_int _ = false

abbrev pub has_version : List Column → Bool
has_version [] = false
has_version (c ∷ cs) = (str_eq c.name "version" && has_int c.data_type) || has_version cs

abbrev pub key_of : List Column → List String
key_of [] = []
key_of (c ∷ cs) = let rest = key_of cs in if c.pk then c.name ∷ rest else rest

abbrev pub map_columns : List Column → Option (List (String × Mapped))
map_columns [] = some []
map_columns (c ∷ cs) = map_column c >>= (λ m. map_columns cs >>= (λ ms. some ((c.name, m) ∷ ms)))

-- An expression of the view: that of the column, or the 32 bits of the version, one more for a
-- deletion.
pub data Select : Type 0 where
  plain : Mapped → Select
  version_of_op : Select

abbrev pub selects_of : Bool → List (String × Mapped) → List (String × Select)
selects_of v [] = []
selects_of v ((n, m) ∷ ms) =
    (n, if str_eq n "version" && v then version_of_op else plain m) ∷ selects_of v ms

-- The target table and the materialized view; `by_version` is whether the engine compares
-- `version`, or else `source_ts_ms`.
pub record Ddl : Type 0 where
  pub columns : List (String × Mapped)
  pub by_version : Bool
  pub order_by : List String
  pub selects : List (String × Select)

unfoldable pub generate_ddl : List Column → Option Ddl
generate_ddl cols = map_columns cols >>= (λ mapped. some (record {
  columns = mapped;
  by_version = has_version cols;
  order_by = key_of cols;
  selects = selects_of (has_version cols) mapped;
}))
