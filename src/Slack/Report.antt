-- ===== src/Slack/Report.antt =====
-- The daily report: send_daily_report of airflow/plugins/callbacks/slack_callbacks.py, and
-- _send_report of airflow/dags/daily_pipeline.py, which fills it. A block is what its text
-- shows, before formatting; percentages of changes are signed hundredths.
use crypto_cdc_pipeline.Base.{
  ℕ, ◌+◌, ◌*◌, String, str_eq, ◌&&◌, ◌==◌, Bool, true, false, Option, none, some, List, [], ◌∷◌,
  ◌++◌, ltb, leb, take, map, keep_if, if◌then◌else◌,
}
use crypto_cdc_pipeline.Base.Int.{ℤ, pos, ltb_ℤ}
use crypto_cdc_pipeline.Daily.{Issue, GateResult, or_zero}

pub data Emoji : Type 0 where
  green yellow red : Emoji

pub record Latency : Type 0 where
  pub p50 : ℕ
  pub p95 : ℕ
  pub p99 : ℕ
  pub longest : ℕ

-- A row of mart_daily_summary, the largest amount first.
pub record Summary : Type 0 where
  pub market : String
  pub trade_count : ℕ
  pub close_price : ℕ
  pub close_change_pct : Option ℤ
  pub volume_change_pct : Option ℤ

pub record ExchangeFlag : Type 0 where
  pub flag : String
  pub markets : ℕ
  pub designations : ℕ
  pub sample : String

pub record QualityMetrics : Type 0 where
  pub reconcile_pct : Option ℕ
  pub cells_below_99 : Option ℕ
  pub repairs : Option ℕ
  pub rows_recovered : Option ℕ
  pub lag_p95_s : Option ℕ
  pub late_rows : Option ℕ
  pub shadow_alerts : Option ℕ

-- What `_generate_report` leaves for the report.
pub record Generated : Type 0 where
  pub summary : List Summary
  pub quality_metrics : Option QualityMetrics
  pub latency_stats : Option Latency
  pub anomaly_counts : List (String × ℕ)
  pub exchange_flags : List ExchangeFlag

pub record ReportData : Type 0 where
  pub date : ℕ
  pub quality : GateResult
  pub generated : Generated
  pub duplicates_found : ℕ
  pub execution_seconds : Option ℕ

-- A change that is shown, with a plus sign where it is positive.
pub data Change : Type 0 where
  price volume : ℤ → Bool → Change

pub record CoinLine : Type 0 where
  pub market : String
  pub trades : ℕ
  pub close : ℕ
  pub changes : List Change

-- The name, the markets, how often it was designated where that is shown, the sample, and
-- whether there are more markets than the sample has.
pub record FlagLine : Type 0 where
  pub name : String
  pub markets : ℕ
  pub repeated : Option ℕ
  pub sample : String
  pub more : Bool

pub data Block : Type 0 where
  report_header : ℕ → Block
  pipeline_summary : Emoji → Option ℕ → ℕ → ℕ → ℕ → Block
  divider : Block
  quality_issues : List (String × List Issue) → Block
  cdc_latency : Latency → Block
  top_coins : List CoinLine → Block
  market_alerts : ℕ → List (String × ℕ) → Block
  exchange_alerts : ℕ → List FlagLine → Block
  pipeline_quality : Emoji → Option ℕ → ℕ → ℕ → ℕ → Option ℕ → ℕ → ℕ → Block
  footer : Option ℕ → Block

-- The pass rate is in tenths of a percent.
abbrev pub quality_emoji : ℕ → Emoji
quality_emoji pass_rate =
    if pass_rate == 1000 then green else if leb 800 pass_rate then yellow else red

abbrev pub shown_change : Option ℤ → (ℤ → Bool → Change) → List Change
shown_change none made = []
shown_change (some v) made =
    if ltb_ℤ (pos 0) v then made v true ∷ [] else if ltb_ℤ v (pos 0) then made v false ∷ [] else []

abbrev pub coin_line : Summary → CoinLine
coin_line s = record {
  market = s.market;
  trades = s.trade_count;
  close = s.close_price;
  changes = shown_change s.close_change_pct price ++ shown_change s.volume_change_pct volume;
}

-- `EXCHANGE_FLAG_KO`; a flag that is not in it keeps its name.
abbrev pub exchange_flag_ko : String → String
exchange_flag_ko flag =
    if str_eq flag "TRADING_VOLUME_SOARING"
    then "거래량 급등"
    else if str_eq flag "DEPOSIT_AMOUNT_SOARING"
    then "입금량 급등"
    else if str_eq flag "GLOBAL_PRICE_DIFFERENCES"
    then "국내외 가격차"
    else if str_eq flag "PRICE_FLUCTUATIONS"
    then "가격 급변"
    else if str_eq flag "CONCENTRATION_OF_SMALL_ACCOUNTS"
    then "소수 계정 집중"
    else flag

abbrev pub flag_line : ExchangeFlag → FlagLine
flag_line f = record {
  name = exchange_flag_ko f.flag;
  markets = f.markets;
  repeated = if ltb (f.markets * 2) f.designations then some f.designations else none;
  sample = f.sample;
  more = ltb 5 f.markets;
}

abbrev pub sum_counts : List (String × ℕ) → ℕ
sum_counts [] = 0
sum_counts (c ∷ cs) = c.1 + sum_counts cs

abbrev pub sum_markets : List ExchangeFlag → ℕ
sum_markets [] = 0
sum_markets (f ∷ fs) = f.markets + sum_markets fs

-- `... or "-"`: a zero is shown as a missing value is.
abbrev pub or_dash : Option ℕ → Option ℕ
or_dash none = none
or_dash (some n) = if n == 0 then none else some n

abbrev pub is_shown : Option ℕ → Bool
is_shown none = false
is_shown (some n) = true

abbrev pub issues_block : List (String × List Issue) → List Block
issues_block [] = []
issues_block (c ∷ cs) = quality_issues (take 5 (c ∷ cs)) ∷ []

abbrev pub latency_block : Option Latency → List Block
latency_block none = []
latency_block (some l) = cdc_latency l ∷ []

abbrev pub coins_block : List Summary → List Block
coins_block [] = []
coins_block (s ∷ ss) = top_coins (map coin_line (take 5 (s ∷ ss))) ∷ []

abbrev pub alerts_block : List (String × ℕ) → List Block
alerts_block counts =
    if ltb 0 (sum_counts counts)
    then market_alerts (sum_counts counts) (keep_if (λ c. ltb 0 c.1) counts) ∷ []
    else []

abbrev pub flags_block : List ExchangeFlag → List Block
flags_block [] = []
flags_block (f ∷ fs) = exchange_alerts (sum_markets (f ∷ fs)) (map flag_line (f ∷ fs)) ∷ []

abbrev pub metrics_emoji : Option ℕ → Option ℕ → Emoji
metrics_emoji cells rp = if or_zero cells == 0 && is_shown (or_dash rp) then green else yellow

abbrev pub metrics_block : Option QualityMetrics → List Block
metrics_block none = []
metrics_block (some qm) =
    pipeline_quality (metrics_emoji qm.cells_below_99 qm.reconcile_pct) (or_dash qm.reconcile_pct)
      (or_zero qm.cells_below_99) (or_zero qm.repairs) (or_zero qm.rows_recovered)
      (or_dash qm.lag_p95_s) (or_zero qm.late_rows) (or_zero qm.shadow_alerts)
    ∷ []

abbrev pub footer_block : ℕ → Block
footer_block duplicates = footer (if ltb 0 duplicates then some duplicates else none)

-- `send_daily_report`: the blocks that it sends.
unfoldable pub daily_report : ReportData → List Block
daily_report d =
    let q = d.quality in
    let g = d.generated in
    report_header d.date
      ∷ pipeline_summary (quality_emoji (or_zero q.pass_rate)) d.execution_seconds q.total q.passed
          (or_zero q.pass_rate)
      ∷ divider
      ∷ issues_block q.failed_coins
    ++ (latency_block g.latency_stats
        ++ (coins_block g.summary
            ++ (alerts_block g.anomaly_counts
                ++ (flags_block g.exchange_flags
                    ++ (metrics_block g.quality_metrics
                        ++ (footer_block d.duplicates_found ∷ []))))))

abbrev pub nothing_generated : Generated
nothing_generated = record {
  summary = [];
  quality_metrics = none;
  latency_stats = none;
  anomaly_counts = [];
  exchange_flags = [];
}

-- `_send_report`: the gate's result, the generated report and the duplicates are pulled.
unfoldable pub send_report : ℕ → Option ℕ → GateResult → Option Generated → Option ℕ → List Block
send_report date seconds quality report dups = daily_report (record {
  date = date;
  quality = quality;
  generated = elim report [ none ↦ nothing_generated | some g ↦ g ];
  duplicates_found = or_zero dups;
  execution_seconds = seconds;
})
