-- ===== src/Onboard/Names.antt =====
-- Lists of names of tables.
use crypto_cdc_pipeline.Base.{
  String, str_eq, eq_iff, eq_refl, ◌≡◌, inl, inr, refl, ap, subst, ◌∙◌, Bool, true, false, ◌||◌,
  List, [], ◌∷◌, ◌++◌, Bool-cases,
}
use crypto_cdc_pipeline.Onboard.{has, add_once, without}

pub has-append : (u : String) (xs ys : List String) → has u (xs ++ ys) ≡ (has u xs || has u ys)
has-append u [] ys = refl
has-append u (x ∷ xs) ys = elim (Bool-cases (str_eq x u)) [
  | inl e ↦ rw e refl
  | inr e ↦ rw e (has-append u xs ys)
]

pub has-without :
    (t u : String) (xs : List String) → str_eq t u ≡ false → has u (without t xs) ≡ has u xs
has-without t u [] apart = refl
has-without t u (x ∷ xs) apart = elim (Bool-cases (str_eq x t)) [
  | inl e ↦
      let same : x ≡ t = (eq_iff x t).0 e in
      let other : str_eq x u ≡ false = ap (λ y. str_eq y u) same ∙ apart in
      rw (e, other) (has-without t u xs apart)
  | inr e ↦ rw e (ap (λ b. str_eq x u || b) (has-without t u xs apart))
]

pub has-without_same : (t : String) (xs : List String) → has t (without t xs) ≡ false
has-without_same t [] = refl
has-without_same t (x ∷ xs) = elim (Bool-cases (str_eq x t)) [
  | inl e ↦ rw e (has-without_same t xs)
  | inr e ↦ rw (e, e) (has-without_same t xs)
]

pub has-add_once :
    (t u : String) (xs : List String) → has u xs ≡ true → has u (add_once t xs) ≡ true
has-add_once t u xs h = elim (Bool-cases (has t xs)) [
  | inl e ↦ rw e h
  | inr e ↦ rw (e, has-append u xs (t ∷ []), h) refl
]

pub has-add_once_same : (t : String) (xs : List String) → has t (add_once t xs) ≡ true
has-add_once_same t xs = elim (Bool-cases (has t xs)) [
  | inl e ↦ rw (e, e) refl
  | inr e ↦ rw (e, has-append t xs (t ∷ []), e, eq_refl t) refl
]

-- What was put in is out again.
pub without-append :
    (t : String) (xs : List String) → has t xs ≡ false → without t (xs ++ (t ∷ [])) ≡ xs
without-append t [] k = rw (eq_refl t) refl
without-append t (y ∷ ys) k = elim (Bool-cases (str_eq y t)) [
  | inl e ↦ let bad : true ≡ false = subst (λ (b : Bool). b || has t ys ≡ false) e k in cc
  | inr e ↦
      let rest : has t ys ≡ false = subst (λ (b : Bool). b || has t ys ≡ false) e k in
      rw e (ap (λ l. y ∷ l) (without-append t ys rest))
]

pub without-add_once :
    (t : String) (xs : List String) → has t xs ≡ false → without t (add_once t xs) ≡ xs
without-add_once t xs h = rw h (without-append t xs h)
