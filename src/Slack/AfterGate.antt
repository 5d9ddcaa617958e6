-- ===== src/Slack/AfterGate.antt =====
-- The daily report that follows on the gate of the daily pipeline.
use crypto_cdc_pipeline.Base.{
  ℕ, ◌+◌, ◌≤◌, ◌≡◌, ◌≢◌, ◌∙◌, sym, ap, subst, true, Option, none, some, ◌==◌, List, [], ◌∷◌, ◌++◌,
  ltb, leb, length, length-append, append_assoc, arith, Bool-cases, inl, inr, String,
}
use crypto_cdc_pipeline.Daily.{
  Issue, Pulled, GateResult, gate_result, rate, or_zero, quality_gate, returned,
}
use crypto_cdc_pipeline.Daily.Gate.{quality_gate-result}
use crypto_cdc_pipeline.Slack.Report.{
  green, yellow, red, Emoji, Summary, ExchangeFlag, QualityMetrics, Latency, Generated, Block,
  report_header, pipeline_summary, divider, footer, quality_emoji, issues_block, latency_block,
  coins_block, alerts_block, sum_counts, flags_block, metrics_block, footer_block,
  nothing_generated, daily_report, send_report,
}

emoji-green-red : green ≢ red
emoji-green-red e = subst (λ (x : Emoji). elim x [ green ↦ Unit | yellow ↦ Unit | red ↦ ⊥ ]) e tt

emoji-yellow-red : yellow ≢ red
emoji-yellow-red e = subst (λ (x : Emoji). elim x [ green ↦ Unit | yellow ↦ Unit | red ↦ ⊥ ]) e tt

quality_emoji-high : (n : ℕ) → 900 ≤ n → quality_emoji n ≢ red
quality_emoji-high n h = elim (Bool-cases (n == 1000)) [
  | inl e ↦ rw e emoji-green-red
  | inr e ↦ let f : leb 800 n ≡ true = ground (arith, h) in rw (e, f) emoji-yellow-red
]

abbrev middle : GateResult → Generated → List Block
middle q g =
    issues_block q.failed_coins
    ++ (latency_block g.latency_stats
        ++ (coins_block g.summary
            ++ (alerts_block g.anomaly_counts
                ++ (flags_block g.exchange_flags ++ metrics_block g.quality_metrics))))

issues_block-length : (xs : List (String × List Issue)) → length (issues_block xs) ≤ 1
issues_block-length [] = omega arith
issues_block-length (x ∷ xs) = omega arith

latency_block-length : (l : Option Latency) → length (latency_block l) ≤ 1
latency_block-length none = omega arith
latency_block-length (some l) = omega arith

coins_block-length : (xs : List Summary) → length (coins_block xs) ≤ 1
coins_block-length [] = omega arith
coins_block-length (x ∷ xs) = omega arith

alerts_block-length : (xs : List (String × ℕ)) → length (alerts_block xs) ≤ 1
alerts_block-length xs = elim (Bool-cases (ltb 0 (sum_counts xs))) [
  | inl e ↦ rw e (omega arith)
  | inr e ↦ rw e (omega arith)
]

flags_block-length : (xs : List ExchangeFlag) → length (flags_block xs) ≤ 1
flags_block-length [] = omega arith
flags_block-length (x ∷ xs) = omega arith

metrics_block-length : (m : Option QualityMetrics) → length (metrics_block m) ≤ 1
metrics_block-length none = omega arith
metrics_block-length (some m) = omega arith

two : (xs ys : List Block) (m n : ℕ) → length xs ≤ m → length ys ≤ n → length (xs ++ ys) ≤ m + n
two xs ys m n h k = omega (arith, length-append xs ys, h, k)

middle-length : (q : GateResult) (g : Generated) → length (middle q g) ≤ 6
middle-length q g = two (issues_block q.failed_coins) _ 1 5 (issues_block-length q.failed_coins) (
    two (latency_block g.latency_stats) _ 1 4 (latency_block-length g.latency_stats) (
      two (coins_block g.summary) _ 1 3 (coins_block-length g.summary) (
        two (alerts_block g.anomaly_counts) _ 1 2 (alerts_block-length g.anomaly_counts) (
          two (flags_block g.exchange_flags) _ 1 1 (flags_block-length g.exchange_flags)
            (metrics_block-length g.quality_metrics)))))

-- The report's blocks: three, those of the middle, and the last.
abbrev pub framed : ℕ → Option ℕ → Emoji → GateResult → List Block → Block → List Block
framed date seconds e q blocks last =
    report_header date
      ∷ pipeline_summary e seconds q.total q.passed (or_zero q.pass_rate)
      ∷ divider
      ∷ blocks
    ++ (last ∷ [])

regroup :
    (a b c d e f : List Block) (l : Block)
    → a ++ (b ++ (c ++ (d ++ (e ++ (f ++ (l ∷ []))))))
      ≡ (a ++ (b ++ (c ++ (d ++ (e ++ f))))) ++ (l ∷ [])
regroup a b c d e f l = sym (
    append_assoc a (b ++ (c ++ (d ++ (e ++ f)))) (l ∷ [])
    ∙ ap (λ x. a ++ x)
        (append_assoc b (c ++ (d ++ (e ++ f))) (l ∷ [])
          ∙ ap (λ x. b ++ x)
              (append_assoc c (d ++ (e ++ f)) (l ∷ [])
                ∙ ap (λ x. c ++ x)
                    (append_assoc d (e ++ f) (l ∷ [])
                      ∙ ap (λ x. d ++ x) (append_assoc e f (l ∷ []))))))

send_report-framed :
    (date : ℕ) (seconds : Option ℕ) (q : GateResult) (report : Option Generated) (dups : Option ℕ)
    → (blocks : List Block) × (length blocks ≤ 6)
      × (send_report date seconds q report dups
          ≡ framed date seconds
              (quality_emoji (or_zero q.pass_rate))
              q
              blocks
              (footer_block (or_zero dups)))
unfolding send_report daily_report
send_report-framed date seconds q report dups =
    let g : Generated = elim report [ none ↦ nothing_generated | some x ↦ x ] in
    (
      middle q g,
      middle-length q g,
      ap
          (λ l.
            report_header date
            ∷ pipeline_summary (quality_emoji (or_zero q.pass_rate)) seconds q.total q.passed
                (or_zero q.pass_rate)
            ∷ divider
            ∷ l)
          (regroup (issues_block q.failed_coins) (latency_block g.latency_stats)
            (coins_block g.summary) (alerts_block g.anomaly_counts) (flags_block g.exchange_flags)
            (metrics_block g.quality_metrics) (footer_block (or_zero dups))),
    )

-- Where the gate returned for a day with some results, the report that follows on it is never
-- marked red, ends in the line that there were no duplicates, shows the gate's numbers, and
-- has ten blocks at most, whatever was generated for it.
pub send_report_after_gate :
    (r : Pulled) (rs : List Pulled) (dups : Option ℕ) (q : GateResult) (date : ℕ)
    (seconds : Option ℕ) (report : Option Generated)
    → quality_gate (r ∷ rs) dups ≡ returned q
    → (e : Emoji) × (blocks : List Block) × (send_report date seconds q report dups
        ≡ framed date seconds e q blocks (footer none))
      × (e ≢ red)
      × (length (framed date seconds e q blocks (footer none)) ≤ 10)
send_report_after_gate r rs dups q date seconds report h =
    let (made, high, zero_dups) = quality_gate-result r rs dups q h in
    let (blocks, few, e) = send_report-framed date seconds q report dups in
    let shown : or_zero q.pass_rate
        ≡ rate (gate_result (r ∷ rs) (or_zero dups)).passed
            (gate_result (r ∷ rs) (or_zero dups)).total =
      ap (λ (g : GateResult). or_zero g.pass_rate) made in
    let last : footer_block (or_zero dups) ≡ footer none = ap footer_block zero_dups in
    (
      quality_emoji (or_zero q.pass_rate),
      blocks,
      e ∙ ap (framed date seconds (quality_emoji (or_zero q.pass_rate)) q blocks) last,
      quality_emoji-high (or_zero q.pass_rate) (omega (arith, high, shown)),
      omega (arith, few, length-append blocks (footer none ∷ [])),
    )
