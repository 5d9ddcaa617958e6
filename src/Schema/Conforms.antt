-- ===== src/Schema/Conforms.antt =====
-- What a schema promises of a value.
use crypto_cdc_pipeline.Base.{
  Bool, true, false, ◌||◌, ◌≡◌, ◌⊎◌, String, Option, none, some, List, [], ◌∷◌, is_empty, All,
}
use crypto_cdc_pipeline.Schema.Values.{
  Json, null, bool, int, float, str, arr, obj, cons, Fields, lookup, has_key, py_in,
}
use crypto_cdc_pipeline.Schema.{
  TypeName, object, array, string, integer, number, boolean, null_type, has_name, is_null,
  SchemaType, allowed, Schema, schema, without, one_of, Schemas, no_schema, alternative, Properties,
  no_property, property, ItemSchema, any_item, items, type_of, names_null, fields_of,
}

-- The types of JSON Schema that a value has: an integer is a number too, a boolean is neither.
abbrev pub types_of : Json → List TypeName
types_of null = null_type ∷ []
types_of (bool b) = boolean ∷ []
types_of (int z) = integer ∷ number ∷ []
types_of (float z k) = number ∷ []
types_of (str s) = string ∷ []
types_of (arr xs) = array ∷ []
types_of (obj fs) = object ∷ []

abbrev pub some_type : List TypeName → List TypeName → Bool
some_type [] ts = false
some_type (n ∷ ns) ts = has_name n ts || some_type ns ts

abbrev pub HasType : SchemaType → Json → Type 0
HasType t j = (is_empty (allowed t) ≡ true) ⊎ (some_type (allowed t) (types_of j) ≡ true)

abbrev pub Listed : Option (List Json) → Json → Type 0
Listed none j = Unit
Listed (some vs) j = py_in j vs ≡ true

abbrev pub HasKeys : List String → Json → Type 0
HasKeys rs (obj fs) = All (λ (r : String). has_key r fs ≡ true) rs
HasKeys rs _ = Unit

-- A null needs a type that names null.
abbrev pub FieldOf : (Json → Type 0) → Bool → Option Json → Type 0
FieldOf P nullable none = Unit
FieldOf P nullable (some v) = ((is_null v ≡ false) ⊎ (nullable ≡ true)) × P v

unfoldable mutual
  pub Conforms : Schema → Json → Type 0
  Conforms (schema (one_of ss) t e rs ps i) j = AnyOf ss j
  Conforms (schema without t e rs ps i) j =
      HasType t j × Listed e j × HasKeys rs j × FieldsConform ps (fields_of j) × FirstConforms i j

  pub AnyOf : Schemas → Json → Type 0
  AnyOf no_schema j = ⊥
  AnyOf (alternative s ss) j = Conforms s j ⊎ AnyOf ss j

  pub FieldsConform : Properties → Fields → Type 0
  FieldsConform no_property fs = Unit
  FieldsConform (property k sub ps) fs =
      FieldOf (λ v. Conforms sub v) (names_null (type_of sub)) (lookup k fs) × FieldsConform ps fs

  pub FirstConforms : ItemSchema → Json → Type 0
  FirstConforms any_item j = Unit
  FirstConforms (items s) (arr (cons x xs)) = Conforms s x
  FirstConforms (items s) _ = Unit
