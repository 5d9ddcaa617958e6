-- ===== src/Quality/Once.antt =====
-- How often a violation is told.
use crypto_cdc_pipeline.Base.{
  ℕ, suc, ◌+◌, ◌≤◌, ◌<◌, ◌≡◌, refl, ap, inl, inr, ◌==◌, true, false, String, str_eq, eq_iff, List,
  [], ◌∷◌, ◌++◌, ltb, All, arith, Bool-cases, if◌then◌else◌,
}
use crypto_cdc_pipeline.Quality.{
  Answer, query_error, no_row, bad_row, row, Key, same, count, raises, fired_of, judge_quality,
}

abbrev pub count_name : String → List (String × Answer) → ℕ
count_name n [] = 0
count_name n (r ∷ rs) = if str_eq r.0 n then suc (count_name n rs) else count_name n rs

-- A list of rules has each name once.
abbrev pub Named : List (String × Answer) → Type 0
Named rules = (n : String) → count_name n rules ≤ 1

count-append : (k : Key) (xs ys : List Key) → count k (xs ++ ys) ≡ count k xs + count k ys
count-append k [] ys = omega arith
count-append k (x ∷ xs) ys = elim (Bool-cases (same x k)) [
  | inl e ↦ rw e (omega (arith, count-append k xs ys))
  | inr e ↦ rw e (count-append k xs ys)
]

skip_rule :
    (n : String) (r : String × Answer) (rs : List (String × Answer))
    → count_name n rs ≤ count_name n (r ∷ rs)
skip_rule n r rs = elim (Bool-cases (str_eq r.0 n)) [
  | inl e ↦ rw e (omega arith)
  | inr e ↦ rw e (omega arith)
]

fire_rule :
    (k : Key) (name : String) (day : ℕ) (a : Answer) (rs : List (String × Answer))
    (fired : List Key)
    → count k fired ≤ count_name k.0 rs
    → count k ((name, day) ∷ fired) ≤ count_name k.0 ((name, a) ∷ rs)
fire_rule k name day a rs fired h = elim (Bool-cases (str_eq name k.0)) [
  | inl e ↦ elim (Bool-cases (day == k.1)) [
    | inl d ↦ rw (e, d) (omega (arith, h))
    | inr d ↦ rw (e, d) (omega (arith, h))
  ]
  | inr e ↦ rw e h
]

-- A rule sends at most one key.
fired_few :
    (k : Key) (rules : List (String × Answer)) (table : List Key)
    → count k (fired_of rules table) ≤ count_name k.0 rules
fired_few k [] table = omega arith
fired_few k ((name, query_error) ∷ rs) table =
    omega (arith, fired_few k rs table, skip_rule k.0 (name, query_error) rs)
fired_few k ((name, no_row) ∷ rs) table =
    omega (arith, fired_few k rs table, skip_rule k.0 (name, no_row) rs)
fired_few k ((name, bad_row) ∷ rs) table =
    omega (arith, fired_few k rs table, skip_rule k.0 (name, bad_row) rs)
fired_few k ((name, row day violated) ∷ rs) table =
    let ih = fired_few k rs table in
    elim (Bool-cases violated) [
      | inl v ↦ elim (Bool-cases (ltb 0 (count (name, day) table))) [
        | inl t ↦ rw (v, t) (omega (arith, ih, skip_rule k.0 (name, row day true) rs))
        | inr t ↦ rw (v, t) (fire_rule k name day (row day true) rs (fired_of rs table) ih)
      ]
      | inr v ↦ rw v (omega (arith, ih, skip_rule k.0 (name, row day false) rs))
    ]

same_key : (a b : Key) → same a b ≡ true → a ≡ b
same_key (n, d) (m, e) h =
    let left : str_eq n m ≡ true = ground (arith, h) in
    let right : d ≡ e = ground (arith, h) in
    let names : n ≡ m = (eq_iff n m).0 left in λ i. (names i, right i)

-- What alert_events has is not sent.
fired_new :
    (k : Key) (rules : List (String × Answer)) (table : List Key)
    → 0 < count k table
    → count k (fired_of rules table) ≡ 0
fired_new k [] table h = refl
fired_new k ((name, query_error) ∷ rs) table h = fired_new k rs table h
fired_new k ((name, no_row) ∷ rs) table h = fired_new k rs table h
fired_new k ((name, bad_row) ∷ rs) table h = fired_new k rs table h
fired_new k ((name, row day violated) ∷ rs) table h =
    let ih = fired_new k rs table h in
    elim (Bool-cases violated) [
      | inl v ↦ elim (Bool-cases (ltb 0 (count (name, day) table))) [
        | inl t ↦ rw (v, t) ih
        | inr t ↦ elim (Bool-cases (same (name, day) k)) [
          | inl e ↦
              let eq : (name, day) ≡ k = same_key (name, day) k e in
              absurd (ground (arith, h, t, ap (λ (x : Key). count x table) eq))
          | inr e ↦ rw (v, t, e) ih
        ]
      ]
      | inr v ↦ rw v ih
    ]

-- The runs of the DAG, the first one first, with whether the INSERT succeeds.
abbrev pub runs : List (List (String × Answer)) → List Key → List Key
runs [] table = table
runs (rules ∷ rs) table = runs rs (judge_quality true rules table).table

judge_quality_once :
    (rules : List (String × Answer)) (table : List Key)
    → Named rules
    → ((k : Key) → count k table ≤ 1)
    → (k : Key) → count k (judge_quality true rules table).table ≤ 1
unfolding judge_quality
judge_quality_once rules table named once k = elim (Bool-cases (raises rules)) [
  | inl e ↦ rw e (once k)
  | inr e ↦ rw e fresh
]
  where
    fresh : count k (fired_of rules table ++ table) ≤ 1
    fresh = elim (Bool-cases (ltb 0 (count k table))) [
      | inl t ↦
          let new = fired_new k rules table (ground (arith, t)) in
          omega (arith, count-append k (fired_of rules table) table, new, once k)
      | inr t ↦
          let empty : count k table ≡ 0 = ground (arith, t) in
          omega (
            arith,
            count-append k (fired_of rules table) table,
            empty,
            fired_few k rules table,
            named k.0,
          )
    ]

runs-once :
    (rs : List (List (String × Answer))) (table : List Key)
    → All Named rs
    → ((k : Key) → count k table ≤ 1)
    → (k : Key) → count k (runs rs table) ≤ 1
runs-once [] table named once k = once k
runs-once (rules ∷ rs) table named once k =
    runs-once rs (judge_quality true rules table).table named.1
      (judge_quality_once rules table named.0 once) k

-- All that the runs send.
abbrev pub all_sent : List (List (String × Answer)) → List Key → List Key
all_sent [] table = []
all_sent (rules ∷ rs) table =
    (judge_quality true rules table).sent ++ all_sent rs (judge_quality true rules table).table

judge_quality_stored :
    (rules : List (String × Answer)) (table : List Key)
    → (judge_quality true rules table).table ≡ (judge_quality true rules table).sent ++ table
unfolding judge_quality
judge_quality_stored rules table = elim (Bool-cases (raises rules)) [
  | inl e ↦ rw e refl
  | inr e ↦ rw e refl
]

all_sent-count :
    (k : Key) (rs : List (List (String × Answer))) (table : List Key)
    → count k (all_sent rs table) + count k table ≡ count k (runs rs table)
all_sent-count k [] table = omega arith
all_sent-count k (rules ∷ rs) table =
    let o = judge_quality true rules table in
    omega (
      arith,
      all_sent-count k rs o.table,
      count-append k o.sent (all_sent rs o.table),
      ap (count k) (judge_quality_stored rules table),
      count-append k o.sent table,
    )

-- Over any runs, where the sent alerts are stored and each run has each rule once: a violation
-- of a rule on a day is sent at most once, whatever the queries answer.
pub all_sent_once :
    (rs : List (List (String × Answer))) → All Named rs → (k : Key) → count k (all_sent rs []) ≤ 1
all_sent_once rs named k =
    omega (arith, all_sent-count k rs [], runs-once rs [] named (λ x. omega arith) k)
