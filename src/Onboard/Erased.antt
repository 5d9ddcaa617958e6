-- ===== src/Onboard/Erased.antt =====
-- The lines and sections of a table are put into two files, and taken out again.
use crypto_cdc_pipeline.Base.{
  String, str_eq, eq_refl, ◌≡◌, inl, inr, refl, ap, subst, ◌∙◌, Bool, true, false, not, ◌||◌, List,
  [], ◌∷◌, keep_if, Bool-cases, if◌then◌else◌,
}
use crypto_cdc_pipeline.Onboard.{
  Line, topic_line, anchor_line, other_line, Section, table_section, anchor_section, has_topic_line,
  is_topic_line, insert_topic_line, has_section, is_section, insert_section,
}

erase_line_absent :
    (t : String) (ls : List Line)
    → has_topic_line t ls ≡ false
    → keep_if (λ l. not (is_topic_line t l)) ls ≡ ls
erase_line_absent t [] h = refl
erase_line_absent t (l ∷ ls) h = elim (Bool-cases (is_topic_line t l)) [
  | inl e ↦
      let bad : true ≡ false = subst (λ (b : Bool). b || has_topic_line t ls ≡ false) e h in cc
  | inr e ↦
      let rest : has_topic_line t ls ≡ false =
        subst (λ (b : Bool). b || has_topic_line t ls ≡ false) e h in
      rw e (ap (λ x. l ∷ x) (erase_line_absent t ls rest))
]

erase_line_inserted :
    (t : String) (ls : List Line)
    → keep_if (λ l. not (is_topic_line t l)) (insert_topic_line t ls)
      ≡ keep_if (λ l. not (is_topic_line t l)) ls
erase_line_inserted t [] = refl
erase_line_inserted t (anchor_line ∷ ls) = rw (eq_refl t) refl
erase_line_inserted t (other_line n ∷ ls) = ap (λ x. other_line n ∷ x) (erase_line_inserted t ls)
erase_line_inserted t (topic_line u ∷ ls) = elim (Bool-cases (str_eq u t)) [
  | inl e ↦ rw e (erase_line_inserted t ls)
  | inr e ↦ rw e (ap (λ x. topic_line u ∷ x) (erase_line_inserted t ls))
]

erase_section_absent :
    (t : String) (ss : List Section)
    → has_section t ss ≡ false
    → keep_if (λ s. not (is_section t s)) ss ≡ ss
erase_section_absent t [] h = refl
erase_section_absent t (s ∷ ss) h = elim (Bool-cases (is_section t s)) [
  | inl e ↦ let bad : true ≡ false = subst (λ (b : Bool). b || has_section t ss ≡ false) e h in cc
  | inr e ↦
      let rest : has_section t ss ≡ false =
        subst (λ (b : Bool). b || has_section t ss ≡ false) e h in
      rw e (ap (λ x. s ∷ x) (erase_section_absent t ss rest))
]

erase_section_inserted :
    (t : String) (ss : List Section)
    → keep_if (λ s. not (is_section t s)) (insert_section t ss)
      ≡ keep_if (λ s. not (is_section t s)) ss
erase_section_inserted t [] = refl
erase_section_inserted t (anchor_section ∷ ss) = rw (eq_refl t) refl
erase_section_inserted t (table_section u ∷ ss) = elim (Bool-cases (str_eq u t)) [
  | inl e ↦ rw e (erase_section_inserted t ss)
  | inr e ↦ rw e (ap (λ x. table_section u ∷ x) (erase_section_inserted t ss))
]

pub erase_line_either :
    (t : String) (ls : List Line)
    → has_topic_line t ls ≡ false
    → keep_if
        (λ l. not (is_topic_line t l))
        (if has_topic_line t ls then ls else insert_topic_line t ls)
      ≡ ls
erase_line_either t ls h = rw h (erase_line_inserted t ls ∙ erase_line_absent t ls h)

pub erase_section_either :
    (t : String) (b : Bool) (ss : List Section)
    → has_section t ss ≡ false
    → keep_if
        (λ x. not (is_section t x))
        (if b then (if has_section t ss then ss else insert_section t ss) else ss)
      ≡ ss
erase_section_either t true ss h = rw h (erase_section_inserted t ss ∙ erase_section_absent t ss h)
erase_section_either t false ss h = erase_section_absent t ss h
