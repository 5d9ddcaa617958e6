-- ===== src/Health/Checks.antt =====
-- airflow/dags/health_check.py, `_evaluate_health`: the names of the components that are unwell, from
-- the results of the checks. A missing result is `none`, and so is an empty one where the code
-- tests its truth; a missing key is `none` too. Milliseconds and seconds that the code compares as
-- floats are given in thousandths.
pub mod Stages
use crypto_cdc_pipeline.Base.{
  ℕ, ◌+◌, ◌&&◌, ◌||◌, ◌==◌, Bool, true, false, not, Option, none, some, List, [], ◌∷◌, ◌++◌, String,
  ltb, leb, if◌then◌else◌,
}

abbrev pub or_zero : Option ℕ → ℕ
or_zero none = 0
or_zero (some n) = n

abbrev pub or_else : ℕ → Option ℕ → ℕ
or_else d none = d
or_else d (some n) = n

-- `x is None or x > bound`
abbrev pub above_or_missing : ℕ → Option ℕ → Bool
above_or_missing bound none = true
above_or_missing bound (some n) = ltb bound n

-- `x is not None and x > bound`
abbrev pub above : ℕ → Option ℕ → Bool
above bound none = false
above bound (some n) = ltb bound n

pub record Backup : Type 0 where
  pub is_ok : Bool
  pub backup_age_days : Option ℕ
  pub parquet_age_days : Option ℕ
  pub remote_used_pct : Option ℕ

unfoldable pub backup_issues : Option Backup → List String
backup_issues none = []
backup_issues (some b) =
    if not b.is_ok
    then "Backup Freshness" ∷ []
    else (if above_or_missing 2 b.backup_age_days || above_or_missing 2 b.parquet_age_days
        then "Backup Freshness" ∷ []
        else [])
      ++ (if above 84 b.remote_used_pct then "Backup Volume" ∷ [] else [])

-- `over_max` and `rising`: the lists of groups are not empty.
pub record ConsumerLag : Type 0 where
  pub minutes_since_sample : Option ℕ
  pub over_max : Bool
  pub rising : Bool

unfoldable pub consumer_issues : Option ConsumerLag → List String
consumer_issues none = "Consumer Lag" ∷ []
consumer_issues (some c) =
    if above_or_missing 15 c.minutes_since_sample || (c.over_max || c.rising)
    then "Consumer Lag" ∷ []
    else []

abbrev pub any_stale : List (Option ℕ) → Bool
any_stale [] = false
any_stale (v ∷ vs) = above 2 v || any_stale vs

-- The ages of the marts, in days.
unfoldable pub mart_issues : Option (List (Option ℕ)) → List String
mart_issues none = []
mart_issues (some ages) = if any_stale ages then "Mart Freshness" ∷ [] else []

pub record Collector : Type 0 where
  pub lag_p95_ms : Option ℕ
  pub queue_max : Option ℕ
  pub minutes_since_sample : Option ℕ

unfoldable pub collector_issues : Option Collector → List String
collector_issues none = []
collector_issues (some c) =
    if above_or_missing 15 c.minutes_since_sample
      || (ltb 2000 (or_zero c.lag_p95_ms)
          || (ltb 500 (or_zero c.queue_max) && ltb 500 (or_zero c.lag_p95_ms)))
    then "Binance Collector Lag" ∷ []
    else []

pub record Binance : Type 0 where
  pub rows_60s : Option ℕ
  pub e2e_p95 : Option ℕ

unfoldable pub binance_issues : Option Binance → List String
binance_issues none = []
binance_issues (some b) =
    if or_zero b.rows_60s == 0
    then "Binance Ingest" ∷ []
    else if ltb 30000 (or_zero b.e2e_p95)
    then "Binance Ingest Lag" ∷ []
    else []

pub record Reconcile : Type 0 where
  pub symbols : Option ℕ
  pub mismatched : Option ℕ
  pub minutes_since_last : Option ℕ

unfoldable pub ledger_issues : Option Reconcile → List String
ledger_issues none = []
ledger_issues (some l) =
    if or_zero l.symbols == 0
    then []
    else if ltb 0 (or_zero l.mismatched)
    then "Ledger Reconcile" ∷ []
    else if ltb 120 (or_zero l.minutes_since_last)
    then "Ledger Reconcile Stale" ∷ []
    else []

pub record Parsing : Type 0 where
  pub parse_failures : Option ℕ
  pub prev : Option ℕ

-- `prev is not None and cur > int(prev)`
abbrev pub grew : Option ℕ → Option ℕ → Bool
grew (some cur) (some prev) = ltb prev cur
grew _ _ = false

unfoldable pub parse_issues : Option Parsing → List String
parse_issues none = []
parse_issues (some p) = if grew p.parse_failures p.prev then "CDC Parse Failures" ∷ [] else []

-- The argument is `busy_max_ms`.
unfoldable pub busy_issues : Option ℕ → List String
busy_issues busy = if above 500000 busy then "Flink Source Saturation" ∷ [] else []

pub record Inserts : Type 0 where
  pub inserts_10min : Option ℕ
  pub insert_p95 : Option ℕ
  pub insert_max : Option ℕ

unfoldable pub insert_issues : Option Inserts → List String
insert_issues none = []
insert_issues (some i) =
    if or_zero i.inserts_10min == 0
    then []
    else if ltb 60000 (or_zero i.insert_p95)
    then "ClickHouse Insert Latency" ∷ []
    else if ltb 5000000 (or_zero i.insert_max)
    then "ClickHouse Insert Stall" ∷ []
    else []

-- The argument is `missing_count`.
unfoldable pub coverage_issues : Option ℕ → List String
coverage_issues missing = if above 0 missing then "Market Coverage" ∷ [] else []

pub record IngestLag : Type 0 where
  pub rows_10min : Option ℕ
  pub lag_p50 : Option ℕ

unfoldable pub lag_issues : Option IngestLag → List String
lag_issues none = []
lag_issues (some l) =
    if ltb 0 (or_zero l.rows_10min) && ltb 60000 (or_zero l.lag_p50) then "Ingest Lag" ∷ [] else []

pub record Ingest : Type 0 where
  pub recent_count : Option ℕ
  pub minutes_since_last : Option ℕ

unfoldable pub ingest_issues : Option Ingest → List String
ingest_issues none = "ClickHouse" ∷ []
ingest_issues (some i) =
    if or_zero i.recent_count == 0 || ltb 15 (or_else 999 i.minutes_since_last)
    then "ClickHouse Ingest" ∷ []
    else []

-- The arguments of the next four: `healthy`, `active_markets`, `last_1min_count`, `healthy`, each
-- with its default where the key is missing.
unfoldable pub flink_issues : Option Bool → List String
flink_issues (some false) = "Flink Jobs" ∷ []
flink_issues _ = []

unfoldable pub kafka_issues : Option ℕ → List String
kafka_issues none = []
kafka_issues (some markets) = if ltb markets 5 then "Kafka/Pipeline" ∷ [] else []

unfoldable pub producer_issues : Option ℕ → List String
producer_issues none = []
producer_issues (some count) = if count == 0 then "Upbit Producer" ∷ [] else []

unfoldable pub connect_issues : Option Bool → List String
connect_issues (some false) = "Kafka Connect" ∷ []
connect_issues _ = []

pub record Results : Type 0 where
  pub backup : Option Backup
  pub consumer : Option ConsumerLag
  pub marts : Option (List (Option ℕ))
  pub collector : Option Collector
  pub binance : Option Binance
  pub ledger : Option Reconcile
  pub parsing : Option Parsing
  pub busy : Option ℕ
  pub inserts : Option Inserts
  pub coverage : Option ℕ
  pub lag : Option IngestLag
  pub ingest : Option Ingest
  pub flink : Option Bool
  pub kafka : Option ℕ
  pub trades : Option ℕ
  pub connectors : Option Bool

unfoldable pub unhealthy : Results → List String
unhealthy r =
    backup_issues r.backup
    ++ (consumer_issues r.consumer
        ++ (mart_issues r.marts
            ++ (collector_issues r.collector
                ++ (binance_issues r.binance
                    ++ (ledger_issues r.ledger
                        ++ (parse_issues r.parsing
                            ++ (busy_issues r.busy
                                ++ (insert_issues r.inserts
                                    ++ (coverage_issues r.coverage
                                        ++ (lag_issues r.lag
                                            ++ (ingest_issues r.ingest
                                                ++ (flink_issues r.flink
                                                    ++ (kafka_issues r.kafka
                                                        ++ (producer_issues r.trades
                                                            ++ connect_issues
                                                            r.connectors))))))))))))))
