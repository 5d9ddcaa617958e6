-- ===== src/Schema.antt =====
-- scripts/ops/validate-topic-schemas.py: the messages of a topic against the schema they promise.
pub mod Values
pub mod Conforms
pub mod Decides
pub mod Run
mod Tests
use crypto_cdc_pipeline.Base.{
  ℕ, zero, suc, ◌==◌, Bool, true, false, not, ◌&&◌, ◌||◌, String, Option, none, some, List, [], ◌∷◌,
  ◌++◌, is_empty, if◌then◌else◌,
}
use crypto_cdc_pipeline.Schema.Values.{
  Json, null, bool, int, float, str, arr, obj, Items, nil, cons, Fields, end, lookup, has_key,
  py_in,
}

-- The names that `type` may give, the keys of TYPES; another name is a KeyError.
pub data TypeName : Type 0 where
  object array string integer number boolean null_type : TypeName

-- The classes of the values that json.loads makes.
pub data PyClass : Type 0 where
  py_dict py_list py_str py_int py_float py_bool py_none : PyClass

abbrev pub name_index : TypeName → ℕ
name_index object = 0
name_index array = 1
name_index string = 2
name_index integer = 3
name_index number = 4
name_index boolean = 5
name_index null_type = 6

abbrev pub class_index : PyClass → ℕ
class_index py_dict = 0
class_index py_list = 1
class_index py_str = 2
class_index py_int = 3
class_index py_float = 4
class_index py_bool = 5
class_index py_none = 6

abbrev pub classes_of : TypeName → List PyClass
classes_of object = py_dict ∷ []
classes_of array = py_list ∷ []
classes_of string = py_str ∷ []
classes_of integer = py_int ∷ []
classes_of number = py_int ∷ py_float ∷ []
classes_of boolean = py_bool ∷ []
classes_of null_type = py_none ∷ []

abbrev pub class_of : Json → PyClass
class_of null = py_none
class_of (bool b) = py_bool
class_of (int z) = py_int
class_of (float z k) = py_float
class_of (str s) = py_str
class_of (arr xs) = py_list
class_of (obj fs) = py_dict

abbrev pub has_name : TypeName → List TypeName → Bool
has_name n [] = false
has_name n (m ∷ ms) = (name_index m == name_index n) || has_name n ms

abbrev pub has_class : PyClass → List PyClass → Bool
has_class c [] = false
has_class c (d ∷ ds) = (class_index d == class_index c) || has_class c ds

abbrev pub all_classes : List TypeName → List PyClass
all_classes [] = []
all_classes (n ∷ ns) = classes_of n ++ all_classes ns

abbrev pub is_bool : Json → Bool
is_bool j = class_index (class_of j) == 5

abbrev pub is_null : Json → Bool
is_null j = class_index (class_of j) == 6

-- `isinstance(node, py)`; a bool is an int too.
abbrev pub is_instance : Json → List PyClass → Bool
is_instance j cs = has_class (class_of j) cs || (is_bool j && has_class py_int cs)

-- `type`: missing, a name, or a list of names.
pub data SchemaType : Type 0 where
  untyped : SchemaType
  single : TypeName → SchemaType
  several : List TypeName → SchemaType

abbrev pub allowed : SchemaType → List TypeName
allowed untyped = []
allowed (single n) = n ∷ []
allowed (several ns) = ns

-- The keywords that are looked at: oneOf, type, enum, required, properties, items.
mutual
  pub data Schema : Type 0 where
    schema :
        Alternatives
        → SchemaType
        → Option (List Json)
        → List String
        → Properties
        → ItemSchema
        → Schema

  pub data Alternatives : Type 0 where
    without : Alternatives
    one_of : Schemas → Alternatives

  pub data Schemas : Type 0 where
    no_schema : Schemas
    alternative : Schema → Schemas → Schemas

  pub data Properties : Type 0 where
    no_property : Properties
    property : String → Schema → Properties → Properties

  pub data ItemSchema : Type 0 where
    any_item : ItemSchema
    items : Schema → ItemSchema

abbrev pub type_of : Schema → SchemaType
type_of (schema os t e r ps i) = t

-- A place in a message, `$.k` or `$[0]`, from its end.
pub data Step : Type 0 where
  key : String → Step
  first_item : Step

pub data Reason : Type 0 where
  no_alternative boolean_for other_type not_allowed missing null_for : Reason

abbrev pub Violation : Type 0
Violation = List Step × Reason

abbrev pub all_fail : List (List Violation) → Bool
all_fail [] = true
all_fail ([] ∷ es) = false
all_fail ((v ∷ vs) ∷ es) = all_fail es

abbrev pub type_errors : SchemaType → Json → List Step → List Violation
type_errors t j p =
    if is_empty (allowed t)
    then []
    else if is_bool j && not (has_name boolean (allowed t))
    then (p, boolean_for) ∷ []
    else if is_instance j (all_classes (allowed t))
    then []
    else (p, other_type) ∷ []

abbrev pub enum_errors : Option (List Json) → Json → List Step → List Violation
enum_errors none j p = []
enum_errors (some vs) j p = if py_in j vs then [] else (p, not_allowed) ∷ []

abbrev pub fields_of : Json → Fields
fields_of null = end
fields_of (bool b) = end
fields_of (int z) = end
fields_of (float z k) = end
fields_of (str s) = end
fields_of (arr xs) = end
fields_of (obj fs) = fs

abbrev pub missing_of : List String → Fields → List Step → List Violation
missing_of [] fs p = []
missing_of (r ∷ rs) fs p =
    if has_key r fs then missing_of rs fs p else (key r ∷ p, missing) ∷ missing_of rs fs p

abbrev pub required_errors : List String → Json → List Step → List Violation
required_errors rs j p = if class_index (class_of j) == 0 then missing_of rs (fields_of j) p else []

-- An error of the type is returned alone.
abbrev pub or_else : List Violation → List Violation → List Violation
or_else [] rest = rest
or_else (v ∷ vs) rest = v ∷ vs

abbrev pub names_null : SchemaType → Bool
names_null t = has_name null_type (allowed t)

-- A null is looked at by the schema of the field only where its type names null.
abbrev pub field_errors : (Json → List Violation) → Bool → Option Json → List Step → List Violation
field_errors f nullable none p = []
field_errors f nullable (some v) p = if not (is_null v) || nullable then f v else (p, null_for) ∷ []

unfoldable mutual
  pub check : Schema → Json → List Step → List Violation
  check (schema (one_of ss) t e rs ps i) j p =
      if all_fail (check_each ss j p) then (p, no_alternative) ∷ [] else []
  check (schema without t e rs ps i) j p = or_else (type_errors t j p) (
      enum_errors e j p
      ++ required_errors rs j p
      ++ check_properties ps (fields_of j) p
      ++ check_items i j p)

  pub check_each : Schemas → Json → List Step → List (List Violation)
  check_each no_schema j p = []
  check_each (alternative s ss) j p = check s j p ∷ check_each ss j p

  pub check_properties : Properties → Fields → List Step → List Violation
  check_properties no_property fs p = []
  check_properties (property k sub ps) fs p =
      field_errors (λ v. check sub v (key k ∷ p)) (names_null (type_of sub)) (lookup k fs)
        (key k ∷ p)
      ++ check_properties ps fs p

  -- The first item stands for all.
  pub check_items : ItemSchema → Json → List Step → List Violation
  check_items any_item j p = []
  check_items (items s) (arr (cons x xs)) p = check s x (first_item ∷ p)
  check_items (items s) _ p = []
