-- ===== src/Poller/Dicts.antt =====
-- A dict of Python, its keys in the order in which they came.
use crypto_cdc_pipeline.Base.{
  Bool, true, false, ◌||◌, ◌≡◌, String, str_eq, Option, none, some, List, [], ◌∷◌, ◌++◌, refl, sym,
  ap, ◌∙◌, subst, eq_iff, inl, inr, Bool-cases, arith, if◌then◌else◌,
}

abbrev pub Dict : Type 0 → Type 0
Dict A = List (String × A)

pub eq_sym : (a b : String) → str_eq a b ≡ str_eq b a
eq_sym a b = elim (Bool-cases (str_eq a b)) [
  | inl e ↦ e ∙ sym ((eq_iff b a).1 (sym ((eq_iff a b).0 e)))
  | inr e ↦ elim (Bool-cases (str_eq b a)) [
    | inl f ↦ (eq_iff a b).1 (sym ((eq_iff b a).0 f)) ∙ sym f
    | inr f ↦ e ∙ sym f
  ]
]

module _ {A : Type 0} where
  abbrev pub get : String → Dict A → Option A
  get k [] = none
  get k ((l, v) ∷ d) = if str_eq l k then some v else get k d

  abbrev pub has : String → Dict A → Bool
  has k [] = false
  has k ((l, v) ∷ d) = str_eq l k || has k d

  -- `d.setdefault(k, v)`
  abbrev pub set_default : String → A → Dict A → Dict A
  set_default k v d = if has k d then d else d ++ (k, v) ∷ []

  -- `d[k] = v`
  abbrev pub put : String → A → Dict A → Dict A
  put k v [] = (k, v) ∷ []
  put k v ((l, w) ∷ d) = let rest = put k v d in if str_eq l k then (l, v) ∷ d else (l, w) ∷ rest

  abbrev pub Unique : Dict A → Type 0
  Unique [] = Unit
  Unique ((k, v) ∷ d) = (has k d ≡ false) × Unique d

  pub has-append : (k : String) (d e : Dict A) → has k (d ++ e) ≡ has k d || has k e
  has-append k [] e = refl
  has-append k (x ∷ d) e = ground (arith, has-append k d e)

  pub has-get : (k : String) (d : Dict A) → has k d ≡ false → get k d ≡ none
  has-get k [] h = refl
  has-get k (x ∷ d) h = ground (arith, h, has-get k d)

  pub get-has : (k : String) (d : Dict A) (v : A) → get k d ≡ some v → has k d ≡ true
  get-has k [] v h = cc
  get-has k ((l, w) ∷ d) v h = elim (Bool-cases (str_eq l k)) [
    | inl e ↦ rw e refl
    | inr e ↦
        let later : get k d ≡ some v =
          subst (λ (b : Bool). (if b then some w else get k d) ≡ some v) e h in
        rw e (get-has k d v later)
  ]

  pub get-none : (k : String) (d : Dict A) → get k d ≡ none → has k d ≡ false
  get-none k [] h = refl
  get-none k ((l, w) ∷ d) h = elim (Bool-cases (str_eq l k)) [
    | inl e ↦ cc (subst (λ (b : Bool). (if b then some w else get k d) ≡ none) e h)
    | inr e ↦ rw e (get-none k d (subst (λ (b : Bool). (if b then some w else get k d) ≡ none) e h))
  ]

  pub append-Unique :
      (k : String) (v : A) (d : Dict A) → Unique d → has k d ≡ false → Unique (d ++ (k, v) ∷ [])
  append-Unique k v [] u h = (refl, tt)
  append-Unique k v ((l, w) ∷ d) u h = (
    ground (arith, has-append l d ((k, v) ∷ []), u.0, h, eq_sym l k),
    append-Unique k v d u.1 (ground (arith, h)),
  )

  pub set_default-Unique : (k : String) (v : A) (d : Dict A) → Unique d → Unique (set_default k v d)
  set_default-Unique k v d u = elim (Bool-cases (has k d)) [
    | inl e ↦ rw e u
    | inr e ↦ rw e (append-Unique k v d u e)
  ]

  pub has-put : (l k : String) (v : A) (d : Dict A) → has l (put k v d) ≡ str_eq k l || has l d
  has-put l k v [] = refl
  has-put l k v ((j, w) ∷ d) = elim (Bool-cases (str_eq j k)) [
    | inl e ↦
        let same : str_eq k l ≡ str_eq j l =
          ap (λ (x : String). str_eq x l) (sym ((eq_iff j k).0 e)) in
        rw e (ground (arith, same))
    | inr e ↦ rw e (ground (arith, has-put l k v d))
  ]

  pub put-Unique : (k : String) (v : A) (d : Dict A) → Unique d → Unique (put k v d)
  put-Unique k v [] u = (refl, tt)
  put-Unique k v ((l, w) ∷ d) u = elim (Bool-cases (str_eq l k)) [
    | inl e ↦ rw e u
    | inr e ↦ rw e (ground (arith, has-put l k v d, u.0, e, eq_sym l k), put-Unique k v d u.1)
  ]

module _ {A B : Type 0} (f : A → B) where
  abbrev pub map_values : Dict A → Dict B
  map_values [] = []
  map_values ((k, v) ∷ d) = (k, f v) ∷ map_values d

  pub has-map_values : (k : String) (d : Dict A) → has k (map_values d) ≡ has k d
  has-map_values k [] = refl
  has-map_values k (x ∷ d) = ground (arith, has-map_values k d)

  pub map_values-Unique : (d : Dict A) → Unique d → Unique (map_values d)
  map_values-Unique [] u = tt
  map_values-Unique ((k, v) ∷ d) u =
      (ground (arith, has-map_values k d, u.0), map_values-Unique d u.1)
