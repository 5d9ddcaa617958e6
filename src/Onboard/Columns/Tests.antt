-- ===== src/Onboard/Columns/Tests.antt =====
-- The columns of a table at concrete types.
use crypto_cdc_pipeline.Base.{◌≡◌, refl, true, false, none, some, List, [], ◌∷◌}
use crypto_cdc_pipeline.Onboard.Columns.{
  DataType, int, varchar, Column, uint32, low_cardinality, extract_uint, extract_string, as_null,
  as_is, as_empty, Mapped, map_column, Ddl, generate_ddl, plain, version_of_op,
}

abbrev column : DataType → Column
column t = record {
  name = "executed_qty";
  data_type = t;
  tinyint_one = false;
  unsigned = true;
  digits = none;
  width = some 36;
  nullable = true;
  pk = false;
}

abbrev mapped : Mapped
mapped = record { ch_type = uint32; is_nullable = true; expr = extract_uint; on_null = as_null }

-- A null of a short text becomes the empty one.
short_test :
    map_column (column varchar)
    ≡ some (record {
      ch_type = low_cardinality;
      is_nullable = false;
      expr = extract_string;
      on_null = as_empty;
    })
unfolding map_column
short_test = refl

abbrev versioned : List Column
versioned = column int ∷ record (column int) { name = "version"; nullable = false; pk = true } ∷ []

abbrev version_mapped : Mapped
version_mapped = record {
  ch_type = uint32;
  is_nullable = false;
  expr = extract_uint;
  on_null = as_is;
}

abbrev ddl : Ddl
ddl = record {
  columns = ("executed_qty", mapped) ∷ ("version", version_mapped) ∷ [];
  by_version = true;
  order_by = "version" ∷ [];
  selects = ("executed_qty", plain mapped) ∷ ("version", version_of_op) ∷ [];
}

generate_ddl_test : generate_ddl versioned ≡ some ddl
unfolding generate_ddl map_column
generate_ddl_test = refl
