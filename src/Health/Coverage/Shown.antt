-- ===== src/Health/Coverage/Shown.antt =====
-- Which markets the coverage check tells of.
use crypto_cdc_pipeline.Base.{
  ℕ, zero, suc, ◌+◌, ◌∙◌, ap, sym, Option, none, ◌≤◌, ◌<◌, ◌≡◌, ◌↔◌, refl, subst, inl, inr, Bool,
  true, false, String, some, List, [], ◌∷◌, ltb, leb, length, take, All, arith, Bool-cases,
  if◌then◌else◌,
}
use crypto_cdc_pipeline.Reconcile.Fetch.{In, first, later}
use crypto_cdc_pipeline.Health.Checks.{coverage_issues}
use crypto_cdc_pipeline.Health.Coverage.{
  State, Missing, find, last_of, coverage_verdict, is_behind, coverage_loop, insert_missing,
  sort_missing, check_market_coverage,
}

-- A market whose last trade of the exchange, over a minute and at most a day old, is not
-- stored, and that is not known to be closed for trading.
abbrev pub IsMissing : ℕ → List (String × ℕ) → List (String × State) → String × ℕ → Type 0
IsMissing now ours states x =
    (now ≤ x.1 + 86400000)
    × (last_of (find x.0 ours) < x.1)
    × (x.1 + 60000 < now)
    × ((s : State) → find x.0 states ≡ some s → s.is_tradable ≡ true)

traded_verdict :
    (o : Option State)
    → ((s : State) → o ≡ some s → s.is_tradable ≡ true)
    → coverage_verdict o ≡ false
unfolding coverage_verdict
traded_verdict none h = refl
traded_verdict (some s) h = rw (h s refl) refl

verdict_traded :
    (o : Option State) (s : State) → coverage_verdict o ≡ false → o ≡ some s → s.is_tradable ≡ true
unfolding coverage_verdict
verdict_traded none s h e = cc
verdict_traded (some t) s h e =
    let traded : t.is_tradable ≡ true = ground (arith, h) in
    let same : t ≡ s = cc in ap (λ (x : State). x.is_tradable) (sym same) ∙ traded

module _ (now : ℕ) (ours : List (String × ℕ)) (states : List (String × State)) where
  -- The same, as the code tests it.
  abbrev Found : String × ℕ → Type 0
  Found x =
      (is_behind now (find x.0 ours) x.1 ≡ true) × (coverage_verdict (find x.0 states) ≡ false)

  Found-IsMissing : (x : String × ℕ) → Found x → IsMissing now ours states x
  Found-IsMissing x (behind, traded) = (
    ground (arith, behind),
    ground (arith, behind),
    ground (arith, behind),
    λ s e. verdict_traded (find x.0 states) s traded e,
  )

  IsMissing-Found : (x : String × ℕ) → IsMissing now ours states x → Found x
  IsMissing-Found x (day, newer, minute, traded) =
      (ground (arith, day, newer, minute), traded_verdict (find x.0 states) traded)

  loop_finds :
      (xs : List (String × ℕ)) (x : String × ℕ)
      → In x xs
      → Found x
      → 0 < length (coverage_loop now ours states xs).0
  loop_finds [] x i h = elim i [ ]
  loop_finds (y ∷ xs) x first (behind, traded) = rw (behind, traded) (omega arith)
  loop_finds (y ∷ xs) x (later i) h = elim (Bool-cases (is_behind now (find y.0 ours) y.1)) [
    | inl b ↦ elim (Bool-cases (coverage_verdict (find y.0 states))) [
      | inl v ↦ rw (b, v) (loop_finds xs x i h)
      | inr v ↦ rw (b, v) (omega arith)
    ]
    | inr b ↦ rw b (loop_finds xs x i h)
  ]

  loop-Found :
      (xs : List (String × ℕ))
      → 0 < length (coverage_loop now ours states xs).0
      → (x : String × ℕ) × In x xs × Found x
  loop-Found [] h = absurd (omega (arith, h))
  loop-Found (y ∷ xs) h = elim (Bool-cases (is_behind now (find y.0 ours) y.1)) [
    | inl b ↦ elim (Bool-cases (coverage_verdict (find y.0 states))) [
      | inl v ↦ one_later (loop-Found xs (subst (λ n. 0 < n) (rw (b, v) refl) h))
      | inr v ↦ (y, first, (b, v))
    ]
    | inr b ↦ one_later (loop-Found xs (subst (λ n. 0 < n) (rw b refl) h))
  ]
    where
      one_later : (x : String × ℕ) × In x xs × Found x → (x : String × ℕ) × In x (y ∷ xs) × Found x
      one_later (x, i, k) = (x, later i, k)

-- Sorted by how far they are behind, the furthest first.
abbrev pub Descending : List Missing → Type 0
Descending [] = Unit
Descending (x ∷ xs) = All (λ (y : Missing). y.behind_s ≤ x.behind_s) xs × Descending xs

insert_missing-All :
    (b : ℕ) (x : Missing) (ys : List Missing)
    → x.behind_s ≤ b
    → All (λ (y : Missing). y.behind_s ≤ b) ys
    → All (λ (y : Missing). y.behind_s ≤ b) (insert_missing x ys)
insert_missing-All b x [] h k = (h, tt)
insert_missing-All b x (y ∷ ys) h k = elim (Bool-cases (leb y.behind_s x.behind_s)) [
  | inl e ↦ rw e (h, k)
  | inr e ↦ rw e (k.0, insert_missing-All b x ys h k.1)
]

less_than_all :
    (a b : ℕ) (ys : List Missing)
    → a ≤ b
    → All (λ (y : Missing). y.behind_s ≤ a) ys
    → All (λ (y : Missing). y.behind_s ≤ b) ys
less_than_all a b [] le h = tt
less_than_all a b (y ∷ ys) le h = (omega (arith, le, h.0), less_than_all a b ys le h.1)

insert_missing-Descending :
    (x : Missing) (ys : List Missing) → Descending ys → Descending (insert_missing x ys)
insert_missing-Descending x [] h = (tt, tt)
insert_missing-Descending x (y ∷ ys) h = elim (Bool-cases (leb y.behind_s x.behind_s)) [
  | inl e ↦
      let le : y.behind_s ≤ x.behind_s = ground (arith, e) in
      rw e ((le, less_than_all y.behind_s x.behind_s ys le h.0), h)
  | inr e ↦
      let le : x.behind_s ≤ y.behind_s = ground (arith, e) in
      rw e (insert_missing-All y.behind_s x ys le h.0, insert_missing-Descending x ys h.1)
]

sort_missing-Descending : (xs : List Missing) → Descending (sort_missing xs)
sort_missing-Descending [] = tt
sort_missing-Descending (x ∷ xs) =
    insert_missing-Descending x (sort_missing xs) (sort_missing-Descending xs)

take-Descending : (n : ℕ) (xs : List Missing) → Descending xs → Descending (take n xs)
take-Descending zero xs h = tt
take-Descending (suc n) [] h = tt
take-Descending (suc n) (x ∷ xs) h = (taken n xs h.0, take-Descending n xs h.1)
  where
    taken :
        (k : ℕ) (ys : List Missing)
        → All (λ (y : Missing). y.behind_s ≤ x.behind_s) ys
        → All (λ (y : Missing). y.behind_s ≤ x.behind_s) (take k ys)
    taken zero ys g = tt
    taken (suc k) [] g = tt
    taken (suc k) (y ∷ ys) g = (g.0, taken k ys g.1)

-- The health check tells of the coverage when and only when some market of the exchange has a
-- last trade, over a minute and at most a day old, that is newer than all that are stored, and
-- is not known to be closed for trading; the markets it shows are sorted, the furthest behind
-- first.
pub coverage_told :
    (now : ℕ) (exchange ours : List (String × ℕ)) (states : List (String × State))
    → ((coverage_issues (some (check_market_coverage now exchange ours states).missing_count)
          ≡ "Market Coverage" ∷ [])
        ↔ ((x : String × ℕ) × In x exchange × IsMissing now ours states x))
      × Descending (check_market_coverage now exchange ours states).missing
unfolding check_market_coverage coverage_issues
coverage_told now exchange ours states =
    let n = length (coverage_loop now ours states exchange).0 in
    (
      (
        told n (λ some_missing.
            let (x, i, f) = loop-Found now ours states exchange some_missing in
            (x, i, Found-IsMissing now ours states x f)),
        λ (found : (x : String × ℕ) × In x exchange × IsMissing now ours states x). silent n (
            loop_finds now ours states exchange found.0 found.1
              (IsMissing-Found now ours states found.0 found.2)),
      ),
      take-Descending 20 (sort_missing (coverage_loop now ours states exchange).0)
          (sort_missing-Descending (coverage_loop now ours states exchange).0),
    )
  where
    alert : List String
    alert = "Market Coverage" ∷ []

    told : {F : Type 0} (k : ℕ) → (0 < k → F) → coverage_issues (some k) ≡ alert → F
    told k f h = elim (Bool-cases (ltb 0 k)) [
      | inl e ↦ f (ground (arith, e))
      | inr e ↦
          let bad : [] ≡ alert = subst (λ (b : Bool). (if b then alert else []) ≡ alert) e h in cc
    ]

    silent : (k : ℕ) → 0 < k → coverage_issues (some k) ≡ alert
    silent k lt = let e : ltb 0 k ≡ true = ground (arith, lt) in rw e refl
