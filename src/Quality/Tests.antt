-- ===== src/Quality/Tests.antt =====
-- The judgement of the data quality at concrete inputs.
use crypto_cdc_pipeline.Base.{
  ◌≡◌, ◌≤◌, refl, Bool-cases, inl, inr, str_eq, eq_iff, sym, ap, true, false, String, List, [], ◌∷◌,
  arith,
}
use crypto_cdc_pipeline.Quality.{Answer, no_row, bad_row, row, count, judge_quality}
use crypto_cdc_pipeline.Quality.Once.{Named, all_sent, all_sent_once}

abbrev rules : List (String × Answer)
rules = ("Upbit Reconcile", row 20000 true) ∷ ("Rule Parity", no_row) ∷ []

rules-Named : Named rules
rules-Named n = elim (Bool-cases (str_eq "Upbit Reconcile" n)) [
  | inl e ↦
      let name = (eq_iff "Upbit Reconcile" n).0 e in
      let other : str_eq "Rule Parity" n ≡ false = sym (ap (str_eq "Rule Parity") name) in
      rw (e, other) (omega arith)
  | inr e ↦ elim (Bool-cases (str_eq "Rule Parity" n)) [
    | inl f ↦ rw (e, f) (omega arith)
    | inr f ↦ rw (e, f) (omega arith)
  ]
]

-- A rule that is violated is not told where another one raises on its row.
raises_test :
    (judge_quality true
      (("Upbit Reconcile", row 20000 true) ∷ ("Rule Parity", bad_row) ∷ [])
      []).sent
    ≡ []
unfolding judge_quality
raises_test = refl

all_sent_once_example : count ("Upbit Reconcile", 20000) (all_sent (rules ∷ rules ∷ []) []) ≤ 1
all_sent_once_example =
    all_sent_once (rules ∷ rules ∷ []) (rules-Named, (rules-Named, tt)) ("Upbit Reconcile", 20000)
