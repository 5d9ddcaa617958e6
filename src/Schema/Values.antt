-- ===== src/Schema/Values.antt =====
-- The values that json.loads makes, and Python's `==` on them.
use crypto_cdc_pipeline.Base.{
  ℕ, suc, ◌*◌, ◌-◌, ◌^◌, ◌==◌, Bool, true, false, ◌&&◌, ◌||◌, String, str_eq, Option, none, some,
  List, [], ◌∷◌, if◌then◌else◌,
}
use crypto_cdc_pipeline.Base.Int.{ℤ, pos, negsuc, pos_part, neg_part}

-- A finite float is z / 2 ^ k; NaN and the infinities are left out. The keys of an object are
-- those of a dict, each once.
mutual
  pub data Json : Type 0 where
    null : Json
    bool : Bool → Json
    int : ℤ → Json
    float : ℤ → ℕ → Json
    str : String → Json
    arr : Items → Json
    obj : Fields → Json

  pub data Items : Type 0 where
    nil : Items
    cons : Json → Items → Items

  pub data Fields : Type 0 where
    end : Fields
    field : String → Json → Fields → Fields

abbrev pub lookup : String → Fields → Option Json
lookup k end = none
lookup k (field l v fs) = if str_eq l k then some v else lookup k fs

abbrev pub has_key : String → Fields → Bool
has_key k end = false
has_key k (field l v fs) = str_eq l k || has_key k fs

abbrev pub size : Fields → ℕ
size end = 0
size (field k v fs) = suc (size fs)

-- z * m
abbrev pub scale : ℤ → ℕ → ℤ
scale (pos n) m = pos (n * m)
scale (negsuc n) m = if m == 0 then pos 0 else negsuc (suc n * m - 1)

abbrev pub same_int : ℤ → ℤ → Bool
same_int a b = (pos_part a == pos_part b) && (neg_part a == neg_part b)

-- The number that a value is, True as 1, as z / 2 ^ k.
abbrev pub number_of : Json → Option (ℤ × ℕ)
number_of (bool true) = some (pos 1, 0)
number_of (bool false) = some (pos 0, 0)
number_of (int z) = some (z, 0)
number_of (float z k) = some (z, k)
number_of _ = none

abbrev pub same_number : Option (ℤ × ℕ) → Option (ℤ × ℕ) → Bool
same_number (some (a, j)) (some (b, k)) = same_int (scale a (2 ^ k)) (scale b (2 ^ j))
same_number _ _ = false

abbrev pub value_is : (Json → Bool) → Option Json → Bool
value_is f none = false
value_is f (some w) = f w

unfoldable mutual
  pub py_eq : Json → Json → Bool
  py_eq null null = true
  py_eq null _ = false
  py_eq (bool b) w = same_number (number_of (bool b)) (number_of w)
  py_eq (int z) w = same_number (some (z, 0)) (number_of w)
  py_eq (float z k) w = same_number (some (z, k)) (number_of w)
  py_eq (str s) (str t) = str_eq s t
  py_eq (str s) _ = false
  py_eq (arr xs) (arr ys) = items_eq xs ys
  py_eq (arr xs) _ = false
  py_eq (obj fs) (obj gs) = (size fs == size gs) && fields_in fs gs
  py_eq (obj fs) _ = false

  pub items_eq : Items → Items → Bool
  items_eq nil nil = true
  items_eq nil (cons y ys) = false
  items_eq (cons x xs) nil = false
  items_eq (cons x xs) (cons y ys) = py_eq x y && items_eq xs ys

  pub fields_in : Fields → Fields → Bool
  fields_in end gs = true
  fields_in (field k v fs) gs = value_is (λ w. py_eq v w) (lookup k gs) && fields_in fs gs

-- `node in schema['enum']`
abbrev pub py_in : Json → List Json → Bool
py_in j [] = false
py_in j (v ∷ vs) = py_eq j v || py_in j vs
