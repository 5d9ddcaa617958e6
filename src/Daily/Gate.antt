-- ===== src/Daily/Gate.antt =====
-- What the gate before the daily report lets through.
use native.Mathlib.Nat.{mod-add-div', mod-lt, mul-le-mul_right}
use crypto_cdc_pipeline.Base.{
  ℕ, suc, ◌+◌, ◌*◌, ◌/◌, ◌%◌, ◌≤◌, ◌<◌, ◌≡◌, ◌↔◌, ◌∙◌, refl, sym, ap, subst, inl, inr, String, ◌&&◌,
  ◌==◌, Bool, true, false, Option, List, [], ◌∷◌, ◌++◌, ltb, leb, length, arith, Bool-cases,
  if◌then◌else◌,
}
use crypto_cdc_pipeline.Daily.{
  Issue, Answers, or_zero, is_empty, count_issues, null_issues, latency_issues, validate_coin,
  Pulled, dict, GateResult, returned, below_rate, has_duplicates, round_parts, rate, count_passed,
  gate_result, quality_gate,
}

round_parts-bounds : (q r b : ℕ) → (q ≤ round_parts q r b) × (round_parts q r b ≤ q + 1)
round_parts-bounds q r b = (ground arith, ground arith)

round_parts-under :
    (q r b : ℕ) → r < b → ltb (round_parts q r b) 900 ≡ ltb (2 * (r + q * b)) (1799 * b)
round_parts-under q r b rest = elim (Bool-cases (ltb q 899)) [
  | inl low ↦
      let le : q + 1 ≤ 899 = ground (arith, low) in
      let m : (q + 1) * b ≤ 899 * b = mul-le-mul_right b le in
      let one : ltb (round_parts q r b) 900 ≡ true =
        ground (arith, (round_parts-bounds q r b).1, le) in
      let two : ltb (2 * (r + q * b)) (1799 * b) ≡ true = ground (arith, m, rest) in one ∙ sym two
  | inr high ↦ elim (Bool-cases (q == 899)) [
    | inl e ↦ let same : q ≡ 899 = ground (arith, e) in rw same (ground (arith, rest))
    | inr ne ↦
        let le : 900 ≤ q = ground (arith, high, ne) in
        let m : 900 * b ≤ q * b = mul-le-mul_right b le in
        let one : ltb (round_parts q r b) 900 ≡ false =
          ground (arith, (round_parts-bounds q r b).0, le) in
        let two : ltb (2 * (r + q * b)) (1799 * b) ≡ false = ground (arith, m, rest) in
        one ∙ sym two
  ]
]

rate-under :
    (passed total : ℕ)
    → 0 < total
    → ltb (rate passed total) 900 ≡ ltb (2000 * passed) (1799 * total)
rate-under passed total pos =
    let a = 1000 * passed in
    let twice : 2 * (a % total + a / total * total) ≡ 2000 * passed =
      omega (arith, mod-add-div' a total) in
    round_parts-under (a / total) (a % total) total (mod-lt a pos) ∙ rw twice refl

-- What a coin must answer to pass.
abbrev pub is_healthy : Answers → Bool
is_healthy a =
    leb 100 (or_zero a.count_result)
    && (leb (or_zero a.null_result) 100 && leb (or_zero a.latency_result) 100)

is_empty-append : (is js : List Issue) → is_empty (is ++ js) ≡ is_empty is && is_empty js
is_empty-append [] js = refl
is_empty-append (i ∷ is) js = refl

count_issues-is_empty : (n : ℕ) → is_empty (count_issues n) ≡ leb 100 n
count_issues-is_empty n = elim (Bool-cases (n == 0)) [
  | inl z ↦ rw z (ground (arith, z))
  | inr z ↦ elim (Bool-cases (ltb n 100)) [
    | inl l ↦ rw (z, l) (ground (arith, l))
    | inr l ↦ rw (z, l) (ground (arith, l))
  ]
]

null_issues-is_empty : (n : ℕ) → is_empty (null_issues n) ≡ leb n 100
null_issues-is_empty n = elim (Bool-cases (ltb 100 n)) [
  | inl l ↦ rw l (ground (arith, l))
  | inr l ↦ rw l (ground (arith, l))
]

latency_issues-is_empty : (n : ℕ) → is_empty (latency_issues n) ≡ leb n 100
latency_issues-is_empty n = elim (Bool-cases (ltb 100 n)) [
  | inl l ↦ rw l (ground (arith, l))
  | inr l ↦ rw l (ground (arith, l))
]

validate_coin_passed :
    (coin : String) (date : ℕ) (a : Answers) → (validate_coin coin date a).passed ≡ is_healthy a
unfolding validate_coin
validate_coin_passed coin date a =
    is_empty-append (count_issues (or_zero a.count_result))
      (null_issues (or_zero a.null_result) ++ latency_issues (or_zero a.latency_result))
    ∙ rw
        (
          is_empty-append (null_issues (or_zero a.null_result))
              (latency_issues (or_zero a.latency_result)),
          count_issues-is_empty (or_zero a.count_result),
          null_issues-is_empty (or_zero a.null_result),
          latency_issues-is_empty (or_zero a.latency_result),
        )
        refl

-- The results of the mapped tasks of a day.
abbrev pub validate_coins : ℕ → List (String × Answers) → List Pulled
validate_coins date [] = []
validate_coins date (c ∷ cs) = dict (validate_coin c.0 date c.1) ∷ validate_coins date cs

abbrev pub count_healthy : List (String × Answers) → ℕ
count_healthy [] = 0
count_healthy (c ∷ cs) = if is_healthy c.1 then suc (count_healthy cs) else count_healthy cs

validate_coins-count :
    (date : ℕ) (cs : List (String × Answers))
    → count_passed (validate_coins date cs) ≡ count_healthy cs
validate_coins-count date [] = refl
validate_coins-count date (c ∷ cs) =
    rw (validate_coin_passed c.0 date c.1, validate_coins-count date cs) refl

validate_coins-length :
    (date : ℕ) (cs : List (String × Answers)) → length (validate_coins date cs) ≡ length cs
validate_coins-length date [] = refl
validate_coins-length date (c ∷ cs) = ap suc (validate_coins-length date cs)

abbrev Passes : Pulled → List Pulled → Option ℕ → Type 0
Passes r rs dups = (g : GateResult) × (quality_gate (r ∷ rs) dups ≡ returned g)

gate_few :
    (r : Pulled) (rs : List Pulled) (dups : Option ℕ)
    → ltb
        (2000 * (gate_result (r ∷ rs) (or_zero dups)).passed)
        (1799 * (gate_result (r ∷ rs) (or_zero dups)).total)
      ≡ true
    → quality_gate (r ∷ rs) dups ≡ below_rate (gate_result (r ∷ rs) (or_zero dups))
unfolding quality_gate
gate_few r rs dups few =
    let g = gate_result (r ∷ rs) (or_zero dups) in
    let low : ltb (rate g.passed g.total) 900 ≡ true =
      rate-under g.passed g.total (omega arith) ∙ few in
    let full : ltb 0 g.total ≡ true = ground arith in rw (low, quality_gate, full) refl

gate_enough :
    (r : Pulled) (rs : List Pulled) (dups : Option ℕ)
    → ltb
        (2000 * (gate_result (r ∷ rs) (or_zero dups)).passed)
        (1799 * (gate_result (r ∷ rs) (or_zero dups)).total)
      ≡ false
    → quality_gate (r ∷ rs) dups ≡ (
        if ltb 0 (or_zero dups)
        then has_duplicates (or_zero dups)
        else returned (gate_result (r ∷ rs) (or_zero dups)))
unfolding quality_gate
gate_enough r rs dups enough =
    let g = gate_result (r ∷ rs) (or_zero dups) in
    let low : ltb (rate g.passed g.total) 900 ≡ false =
      rate-under g.passed g.total (omega arith) ∙ enough in
    let full : ltb 0 g.total ≡ true = ground arith in rw (low, quality_gate, full) refl

-- Without duplicates the total is the number of results.
total_of :
    (r : Pulled) (rs : List Pulled) (d : ℕ)
    → ltb 0 d ≡ false
    → (gate_result (r ∷ rs) d).total ≡ length (r ∷ rs)
total_of r rs d z = rw z (omega arith)

quality_gate-returned :
    (r : Pulled) (rs : List Pulled) (dups : Option ℕ)
    → Passes r rs dups
      ↔ ((or_zero dups ≡ 0) × (1799 * length (r ∷ rs) ≤ 2000 * count_passed (r ∷ rs)))
quality_gate-returned r rs dups =
    let g = gate_result (r ∷ rs) (or_zero dups) in
    elim (Bool-cases (ltb (2000 * g.passed) (1799 * g.total))) [
      | inl few ↦ (
        λ (k : Passes r rs dups).
            let bad : below_rate g ≡ returned k.0 = sym (gate_few r rs dups few) ∙ k.1 in cc,
        λ k.
            let z : ltb 0 (or_zero dups) ≡ false = ground (arith, k.0) in
            let bad : ltb (2000 * g.passed) (1799 * g.total) ≡ false =
              rw (total_of r rs (or_zero dups) z) (ground (arith, k.1)) in
            cc,
      )
      | inr enough ↦ elim (Bool-cases (ltb 0 (or_zero dups))) [
        | inl d ↦ (
          λ (k : Passes r rs dups).
              let got : has_duplicates (or_zero dups) ≡ returned k.0 =
                subst
                  (λ (b : Bool).
                    (if b then has_duplicates (or_zero dups) else returned g) ≡ returned k.0)
                  d (sym (gate_enough r rs dups enough) ∙ k.1) in
              cc,
          λ k. absurd (ground (arith, k.0, d)),
        )
        | inr z ↦
            let t = total_of r rs (or_zero dups) z in
            let le : 1799 * length (r ∷ rs) ≤ 2000 * g.passed = ground (arith, enough, t) in
            (λ k. (ground (arith, z), le), λ k. (g, gate_enough r rs dups enough ∙ rw z refl))
      ]
    ]

-- For a day with some coins, the gate lets the report through when and only when no duplicate
-- rows were counted and, of the coins, at least 89.95 percent had 100 trades or more, at most
-- 1.00 percent of prices null or zero, and at most 100 rows of high latency.
pub quality_gate-healthy :
    (date : ℕ) (c : String × Answers) (cs : List (String × Answers)) (dups : Option ℕ)
    → ((g : GateResult) × (quality_gate (validate_coins date (c ∷ cs)) dups ≡ returned g))
      ↔ ((or_zero dups ≡ 0) × (1799 * length (c ∷ cs) ≤ 2000 * count_healthy (c ∷ cs)))
quality_gate-healthy date c cs dups =
    let rs = validate_coins date cs in
    subst
      (λ n.
        Passes (dict (validate_coin c.0 date c.1)) rs dups
        ↔ ((or_zero dups ≡ 0) × (1799 * length (c ∷ cs) ≤ 2000 * n)))
      (validate_coins-count date (c ∷ cs))
      (subst
        (λ n. Passes (dict (validate_coin c.0 date c.1)) rs dups ↔ (
          (or_zero dups ≡ 0) × (1799 * suc n ≤ 2000 * count_passed (validate_coins date (c ∷ cs)))))
        (validate_coins-length date cs)
        (quality_gate-returned (dict (validate_coin c.0 date c.1)) rs dups))

-- What the gate returns for some results has the counted pass rate, which is 90.0 or more, and
-- no duplicates.
pub quality_gate-result :
    (r : Pulled) (rs : List Pulled) (dups : Option ℕ) (g : GateResult)
    → quality_gate (r ∷ rs) dups ≡ returned g
    → (g ≡ gate_result (r ∷ rs) (or_zero dups))
      × (900
          ≤ rate
              (gate_result (r ∷ rs) (or_zero dups)).passed
              (gate_result (r ∷ rs) (or_zero dups)).total)
      × (or_zero dups ≡ 0)
quality_gate-result r rs dups g h =
    let made = gate_result (r ∷ rs) (or_zero dups) in
    elim (Bool-cases (ltb (2000 * made.passed) (1799 * made.total))) [
      | inl few ↦ let bad : below_rate made ≡ returned g = sym (gate_few r rs dups few) ∙ h in cc
      | inr enough ↦
          let high = rate-under made.passed made.total (omega arith) ∙ enough in
          let got = sym (gate_enough r rs dups enough) ∙ h in
          elim (Bool-cases (ltb 0 (or_zero dups))) [
            | inl d ↦
                let bad : has_duplicates (or_zero dups) ≡ returned g =
                  subst
                    (λ (b : Bool).
                      (if b then has_duplicates (or_zero dups) else returned made) ≡ returned g)
                    d got in
                cc
            | inr z ↦
                let same : returned made ≡ returned g =
                  subst
                    (λ (b : Bool).
                      (if b then has_duplicates (or_zero dups) else returned made) ≡ returned g)
                    z got in
                let eq : g ≡ made = cc in (eq, ground (arith, high), ground (arith, z))
          ]
    ]
