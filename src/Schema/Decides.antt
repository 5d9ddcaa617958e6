-- ===== src/Schema/Decides.antt =====
-- The check finds nothing exactly where the value conforms.
use crypto_cdc_pipeline.Base.{
  Bool, true, false, ◌&&◌, ◌||◌, ◌≡◌, ◌↔◌, ◌⊎◌, String, Option, none, some, List, [], ◌∷◌, ◌++◌,
  refl, inl, inr, Bool-cases, if◌then◌else◌, All, arith,
}
use crypto_cdc_pipeline.Schema.Values.{
  Json, null, bool, int, float, str, arr, obj, nil, cons, Fields, lookup, has_key,
}
use crypto_cdc_pipeline.Schema.{
  TypeName, integer, number, boolean, PyClass, has_name, has_class, classes_of, all_classes,
  is_bool, class_of, py_int, is_null, is_instance, SchemaType, allowed, Schema, schema, without,
  one_of, Schemas, no_schema, alternative, Properties, no_property, property, ItemSchema, any_item,
  items, type_of, names_null, Step, key, first_item, no_alternative, Violation, all_fail,
  type_errors, enum_errors, fields_of, missing_of, required_errors, or_else, field_errors, check,
  check_each, check_properties, check_items,
}
use crypto_cdc_pipeline.Schema.Conforms.{
  types_of, some_type, HasType, Listed, HasKeys, FieldOf, Conforms, AnyOf, FieldsConform,
  FirstConforms,
}

append_class :
    (c : PyClass) (cs ds : List PyClass) → has_class c (cs ++ ds) ≡ has_class c cs || has_class c ds
append_class c [] ds = refl
append_class c (d ∷ cs) ds = ground (arith, append_class c cs ds)

class_name :
    (j : Json) (n : TypeName)
    → is_instance j (classes_of n)
      ≡ (has_name n (types_of j) || (is_bool j && has_name n (integer ∷ number ∷ [])))
class_name null n = ground arith
class_name (bool b) n = ground arith
class_name (int z) n = ground arith
class_name (float z k) n = ground arith
class_name (str s) n = ground arith
class_name (arr xs) n = ground arith
class_name (obj fs) n = ground arith

instance_append :
    (j : Json) (cs ds : List PyClass)
    → is_instance j (cs ++ ds) ≡ is_instance j cs || is_instance j ds
instance_append j cs ds = ground (arith, append_class (class_of j) cs ds, append_class py_int cs ds)

instance_types :
    (j : Json) (ns : List TypeName)
    → is_instance j (all_classes ns)
      ≡ some_type ns (types_of j) || (is_bool j && some_type ns (integer ∷ number ∷ []))
instance_types j [] = ground arith
instance_types j (n ∷ ns) =
    ground (
      arith,
      instance_append j (classes_of n) (all_classes ns),
      class_name j n,
      instance_types j ns,
    )

-- Of a boolean, only the name of its own type counts.
bool_type :
    (j : Json) (ns : List TypeName)
    → is_bool j ≡ true
    → some_type ns (types_of j) ≡ has_name boolean ns
bool_type (bool b) [] h = refl
bool_type (bool b) (n ∷ ns) h = ground (arith, bool_type (bool b) ns h)
bool_type null ns h = cc
bool_type (int z) ns h = cc
bool_type (float z k) ns h = cc
bool_type (str s) ns h = cc
bool_type (arr xs) ns h = cc
bool_type (obj fs) ns h = cc

type_iff : (t : SchemaType) (j : Json) (p : List Step) → (type_errors t j p ≡ []) ↔ HasType t j
type_iff t j p = ground (arith, instance_types j (allowed t), bool_type j (allowed t))

append_iff :
    {A B : Type 0} (xs ys : List Violation)
    → (xs ≡ []) ↔ A
    → (ys ≡ []) ↔ B
    → (xs ++ ys ≡ []) ↔ (A × B)
append_iff [] ys f g = (λ h. (f.0 refl, g.0 h), λ h. g.1 h.1)
append_iff (x ∷ xs) ys f g = (λ h. cc, λ h. cc (f.1 h.0))

or_else_iff :
    {A B : Type 0} (xs ys : List Violation)
    → (xs ≡ []) ↔ A
    → (ys ≡ []) ↔ B
    → (or_else xs ys ≡ []) ↔ (A × B)
or_else_iff [] ys f g = (λ h. (f.0 refl, g.0 h), λ h. g.1 h.1)
or_else_iff (x ∷ xs) ys f g = (λ h. cc, λ h. cc (f.1 h.0))

parts_iff :
    {A B C D E : Type 0} (ts es rs ps xs : List Violation)
    → (ts ≡ []) ↔ A
    → (es ≡ []) ↔ B
    → (rs ≡ []) ↔ C
    → (ps ≡ []) ↔ D
    → (xs ≡ []) ↔ E
    → (or_else ts (es ++ rs ++ ps ++ xs) ≡ []) ↔ (A × B × C × D × E)
parts_iff {A} {B} {C} {D} {E} ts es rs ps xs a b c d e =
    let two : (es ++ rs ≡ []) ↔ (B × C) = append_iff es rs b c in
    let three : (es ++ rs ++ ps ≡ []) ↔ ((B × C) × D) = append_iff (es ++ rs) ps two d in
    let four : (es ++ rs ++ ps ++ xs ≡ []) ↔ (((B × C) × D) × E) =
      append_iff (es ++ rs ++ ps) xs three e in
    let all : (or_else ts (es ++ rs ++ ps ++ xs) ≡ []) ↔ (A × (((B × C) × D) × E)) =
      or_else_iff ts (es ++ rs ++ ps ++ xs) a four in
    (
      λ h. ((all.0 h).0, (all.0 h).1.0.0.0, (all.0 h).1.0.0.1, (all.0 h).1.0.1, (all.0 h).1.1),
      λ h. all.1 (h.0, (((h.1, h.2), h.3), h.4)),
    )

enum_iff :
    (e : Option (List Json)) (j : Json) (p : List Step) → (enum_errors e j p ≡ []) ↔ Listed e j
enum_iff none j p = (λ h. tt, λ h. refl)
enum_iff (some vs) j p = ground arith

missing_iff :
    (rs : List String) (fs : Fields) (p : List Step)
    → (missing_of rs fs p ≡ []) ↔ All (λ (r : String). has_key r fs ≡ true) rs
missing_iff [] fs p = (λ h. tt, λ h. refl)
missing_iff (r ∷ rs) fs p = elim (Bool-cases (has_key r fs)) [
  | inl e ↦ rw e (λ h. (refl, (missing_iff rs fs p).0 h), λ h. (missing_iff rs fs p).1 h.1)
  | inr e ↦ rw e (λ h. cc, λ h. cc)
]

required_iff :
    (rs : List String) (j : Json) (p : List Step) → (required_errors rs j p ≡ []) ↔ HasKeys rs j
required_iff rs (obj fs) p = missing_iff rs fs p
required_iff rs null p = (λ h. tt, λ h. refl)
required_iff rs (bool b) p = (λ h. tt, λ h. refl)
required_iff rs (int z) p = (λ h. tt, λ h. refl)
required_iff rs (float z k) p = (λ h. tt, λ h. refl)
required_iff rs (str s) p = (λ h. tt, λ h. refl)
required_iff rs (arr xs) p = (λ h. tt, λ h. refl)

field_iff :
    (f : Json → List Violation) (P : Json → Type 0) (nullable : Bool) (o : Option Json)
    (p : List Step)
    → ((v : Json) → (f v ≡ []) ↔ P v)
    → (field_errors f nullable o p ≡ []) ↔ FieldOf P nullable o
field_iff f P nullable none p g = (λ h. tt, λ h. refl)
field_iff f P nullable (some v) p g = elim (Bool-cases (is_null v)) [
  | inl e ↦ elim (Bool-cases nullable) [
    | inl n ↦ rw (e, n) (λ h. (inr refl, (g v).0 h), λ h. (g v).1 h.1)
    | inr n ↦ rw (e, n) (λ h. cc, λ h. ground (arith, h.0))
  ]
  | inr e ↦ rw e (λ h. (inl refl, (g v).0 h), λ h. (g v).1 h.1)
]

alternative_iff :
    {A B : Type 0} (vs : List Violation) (es : List (List Violation))
    → (vs ≡ []) ↔ A
    → (all_fail es ≡ false) ↔ B
    → (all_fail (vs ∷ es) ≡ false) ↔ (A ⊎ B)
alternative_iff [] es f g = (λ h. inl (f.0 refl), λ h. refl)
alternative_iff (v ∷ vs) es f g =
    (λ h. inr (g.0 h), λ h. elim h [ inl a ↦ cc (f.1 a) | inr b ↦ g.1 b ])

one_of_iff :
    {A : Type 0} (es : List (List Violation)) (v : Violation)
    → (all_fail es ≡ false) ↔ A
    → ((if all_fail es then v ∷ [] else []) ≡ []) ↔ A
one_of_iff es v f = elim (Bool-cases (all_fail es)) [
  | inl e ↦ rw e (λ h. cc, λ a. cc (e, f.1 a))
  | inr e ↦ rw e (λ h. f.0 e, λ a. refl)
]

mutual
  unfolding check Conforms

  check_iff : (s : Schema) (j : Json) (p : List Step) → (check s j p ≡ []) ↔ Conforms s j
  check_iff (schema (one_of ss) t e rs ps i) j p =
      one_of_iff (check_each ss j p) (p, no_alternative) (each_iff ss j p)
  check_iff (schema without t e rs ps i) j p =
      parts_iff (type_errors t j p) (enum_errors e j p) (required_errors rs j p)
        (check_properties ps (fields_of j) p) (check_items i j p) (type_iff t j p) (enum_iff e j p)
        (required_iff rs j p) (properties_iff ps (fields_of j) p) (items_iff i j p)

  each_iff :
      (ss : Schemas) (j : Json) (p : List Step)
      → (all_fail (check_each ss j p) ≡ false) ↔ AnyOf ss j
  each_iff no_schema j p = (λ h. cc, λ h. absurd h)
  each_iff (alternative s ss) j p =
      alternative_iff (check s j p) (check_each ss j p) (check_iff s j p) (each_iff ss j p)

  properties_iff :
      (ps : Properties) (fs : Fields) (p : List Step)
      → (check_properties ps fs p ≡ []) ↔ FieldsConform ps fs
  properties_iff no_property fs p = (λ h. tt, λ h. refl)
  properties_iff (property k sub ps) fs p =
      append_iff
        (field_errors (λ v. check sub v (key k ∷ p)) (names_null (type_of sub)) (lookup k fs)
          (key k ∷ p))
        (check_properties ps fs p)
        (field_iff (λ v. check sub v (key k ∷ p)) (λ v. Conforms sub v) (names_null (type_of sub))
          (lookup k fs) (key k ∷ p) (λ v. check_iff sub v (key k ∷ p)))
        (properties_iff ps fs p)

  items_iff :
      (i : ItemSchema) (j : Json) (p : List Step) → (check_items i j p ≡ []) ↔ FirstConforms i j
  items_iff any_item j p = (λ h. tt, λ h. refl)
  items_iff (items s) (arr (cons x xs)) p = check_iff s x (first_item ∷ p)
  items_iff (items s) (arr nil) p = (λ h. tt, λ h. refl)
  items_iff (items s) null p = (λ h. tt, λ h. refl)
  items_iff (items s) (bool b) p = (λ h. tt, λ h. refl)
  items_iff (items s) (int z) p = (λ h. tt, λ h. refl)
  items_iff (items s) (float z k) p = (λ h. tt, λ h. refl)
  items_iff (items s) (str t) p = (λ h. tt, λ h. refl)
  items_iff (items s) (obj fs) p = (λ h. tt, λ h. refl)

-- The check of a value against a schema finds no violation exactly where the value conforms:
-- where one of the alternatives does, or else its type is one of those named, it is in the
-- enumeration, it has the required keys, each property that it has conforms (a null only where
-- the type of the property names null), and so does the first of its items.
pub check-Conforms : (s : Schema) (j : Json) (p : List Step) → (check s j p ≡ []) ↔ Conforms s j
check-Conforms s j p = check_iff s j p
