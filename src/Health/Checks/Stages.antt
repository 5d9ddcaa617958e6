-- ===== src/Health/Checks/Stages.antt =====
-- airflow/dags/health_check.py, `INCIDENT_STAGE` and `_incident_stage`.
use text.Mathlib.Text.{starts_with}
use crypto_cdc_pipeline.Base.{
  ℕ, ◌≡◌, refl, Bool, true, false, Option, none, some, List, [], ◌∷◌, ◌++◌, String, str_eq,
  if◌then◌else◌, All, All-append,
}
use crypto_cdc_pipeline.Health.Checks.{
  Results, Backup, ConsumerLag, Collector, Binance, Reconcile, Parsing, Inserts, IngestLag, Ingest,
  backup_issues, consumer_issues, mart_issues, collector_issues, binance_issues, ledger_issues,
  parse_issues, busy_issues, insert_issues, coverage_issues, lag_issues, ingest_issues,
  flink_issues, kafka_issues, producer_issues, connect_issues, unhealthy,
}

pub record Entry : Type 0 where
  pub key : String
  pub stage : String
  pub component : String

abbrev pub entry : String → String → String → Entry
entry key stage component = record { key = key; stage = stage; component = component }

abbrev pub incident_table : List Entry
incident_table =
    entry "Producer Activity" "collect" "cdc-upbit-producer"
    ∷ entry "Binance Ingest" "collect" "cdc-binance-collector"
    ∷ entry "Market Coverage" "collect" "upbit-websocket"
    ∷ entry "Ingest Lag" "mysql" "crypto_db.crypto_trades"
    ∷ entry "Kafka Connect" "debezium" "mysql-cdc-connector"
    ∷ entry "Kafka Health" "kafka" "cdc-kafka-1"
    ∷ entry "CDC Parse Failures" "flink" "CDC Realtime Pipeline"
    ∷ entry "Flink Jobs" "flink" "jobmanager"
    ∷ entry "Flink Source Saturation" "flink" "kafka-source"
    ∷ entry "ClickHouse Insert Latency" "clickhouse" "cdc-clickhouse"
    ∷ entry "ClickHouse Ingest" "clickhouse" "cdc_pipeline.crypto_trades"
    ∷ entry "Ledger Reconcile Stale" "orchestration" "virtual-trader"
    ∷ entry "Mart Freshness" "orchestration" "dbt"
    ∷ entry "Backup Freshness" "backup" "oracle:/mnt/backup"
    ∷ entry "Consumer Lag" "kafka" "consumer-group"
    ∷ entry "Backup Volume" "backup" "oracle:/mnt/backup"
    ∷ entry "Ledger Reconcile" "collect" "virtual-trader"
    ∷ entry "ClickHouse Insert Stall" "clickhouse" "cdc-clickhouse"
    ∷ entry "ClickHouse" "clickhouse" "cdc-clickhouse"
    ∷ entry "Kafka/Pipeline" "kafka" "cdc-kafka-1"
    ∷ entry "Upbit Producer" "collect" "cdc-upbit-producer"
    ∷ entry "Binance Collector Lag" "collect" "cdc-binance-collector"
    ∷ []

-- The first entry whose key passes a test.
abbrev pub find_entry : (String → Bool) → List Entry → Option Entry
find_entry p [] = none
find_entry p (e ∷ es) = if p e.key then some e else find_entry p es

unfoldable pub incident_stage : String → String × String
incident_stage name = elim (find_entry (λ k. str_eq name k) incident_table) [
  | some e ↦ (e.stage, e.component)
  | none ↦ elim (find_entry (λ k. starts_with name k) incident_table) [
    | some e ↦ (e.stage, e.component)
    | none ↦ ("unknown", name)
  ]
]

abbrev pub HasStage : String → Type 0
HasStage name = str_eq (incident_stage name).0 "unknown" ≡ false

either :
    (b : Bool) (x y : List String)
    → All HasStage x
    → All HasStage y
    → All HasStage (if b then x else y)
either true x y hx hy = hx
either false x y hx hy = hy

joined : (xs ys : List String) → All HasStage xs → All HasStage ys → All HasStage (xs ++ ys)
joined = All-append HasStage

settled : (name : String) → HasStage name → All HasStage (name ∷ [])
settled name h = (h, tt)

backup_issues-HasStage : (o : Option Backup) → All HasStage (backup_issues o)
unfolding backup_issues incident_stage
backup_issues-HasStage none = tt
backup_issues-HasStage (some r) = search (either, joined, settled)

consumer_issues-HasStage : (o : Option ConsumerLag) → All HasStage (consumer_issues o)
unfolding consumer_issues incident_stage
consumer_issues-HasStage none = (refl, tt)
consumer_issues-HasStage (some r) = search (either, settled)

mart_issues-HasStage : (o : Option (List (Option ℕ))) → All HasStage (mart_issues o)
unfolding mart_issues incident_stage
mart_issues-HasStage none = tt
mart_issues-HasStage (some r) = search (either, settled)

collector_issues-HasStage : (o : Option Collector) → All HasStage (collector_issues o)
unfolding collector_issues incident_stage
collector_issues-HasStage none = tt
collector_issues-HasStage (some r) = search (either, settled)

binance_issues-HasStage : (o : Option Binance) → All HasStage (binance_issues o)
unfolding binance_issues incident_stage
binance_issues-HasStage none = tt
binance_issues-HasStage (some r) = search (either, settled)

ledger_issues-HasStage : (o : Option Reconcile) → All HasStage (ledger_issues o)
unfolding ledger_issues incident_stage
ledger_issues-HasStage none = tt
ledger_issues-HasStage (some r) = search (either, settled)

parse_issues-HasStage : (o : Option Parsing) → All HasStage (parse_issues o)
unfolding parse_issues incident_stage
parse_issues-HasStage none = tt
parse_issues-HasStage (some r) = search (either, settled)

insert_issues-HasStage : (o : Option Inserts) → All HasStage (insert_issues o)
unfolding insert_issues incident_stage
insert_issues-HasStage none = tt
insert_issues-HasStage (some r) = search (either, settled)

lag_issues-HasStage : (o : Option IngestLag) → All HasStage (lag_issues o)
unfolding lag_issues incident_stage
lag_issues-HasStage none = tt
lag_issues-HasStage (some r) = search (either, settled)

ingest_issues-HasStage : (o : Option Ingest) → All HasStage (ingest_issues o)
unfolding ingest_issues incident_stage
ingest_issues-HasStage none = (refl, tt)
ingest_issues-HasStage (some r) = search (either, settled)

kafka_issues-HasStage : (o : Option ℕ) → All HasStage (kafka_issues o)
unfolding kafka_issues incident_stage
kafka_issues-HasStage none = tt
kafka_issues-HasStage (some r) = search (either, settled)

producer_issues-HasStage : (o : Option ℕ) → All HasStage (producer_issues o)
unfolding producer_issues incident_stage
producer_issues-HasStage none = tt
producer_issues-HasStage (some r) = search (either, settled)

busy_issues-HasStage : (o : Option ℕ) → All HasStage (busy_issues o)
unfolding busy_issues incident_stage
busy_issues-HasStage o = search (either, settled)

coverage_issues-HasStage : (o : Option ℕ) → All HasStage (coverage_issues o)
unfolding coverage_issues incident_stage
coverage_issues-HasStage o = search (either, settled)

flink_issues-HasStage : (o : Option Bool) → All HasStage (flink_issues o)
unfolding flink_issues incident_stage
flink_issues-HasStage none = tt
flink_issues-HasStage (some true) = tt
flink_issues-HasStage (some false) = (refl, tt)

connect_issues-HasStage : (o : Option Bool) → All HasStage (connect_issues o)
unfolding connect_issues incident_stage
connect_issues-HasStage none = tt
connect_issues-HasStage (some true) = tt
connect_issues-HasStage (some false) = (refl, tt)

-- Whatever the checks give, every name that the health check can report has a stage in the table of
-- incidents, exactly or by a prefix: none is filed as "unknown".
pub unhealthy-HasStage : (r : Results) → All HasStage (unhealthy r)
unfolding unhealthy
unhealthy-HasStage r =
    All-append HasStage (backup_issues r.backup) _ (backup_issues-HasStage r.backup) (
      All-append HasStage (consumer_issues r.consumer) _ (consumer_issues-HasStage r.consumer) (
        All-append HasStage (mart_issues r.marts) _ (mart_issues-HasStage r.marts) (
          All-append HasStage (collector_issues r.collector) _
            (collector_issues-HasStage r.collector)
            (All-append HasStage (binance_issues r.binance) _ (binance_issues-HasStage r.binance) (
              All-append HasStage (ledger_issues r.ledger) _ (ledger_issues-HasStage r.ledger) (
                All-append HasStage (parse_issues r.parsing) _ (parse_issues-HasStage r.parsing) (
                  All-append HasStage (busy_issues r.busy) _ (busy_issues-HasStage r.busy) (
                    All-append HasStage (insert_issues r.inserts) _
                      (insert_issues-HasStage r.inserts)
                      (All-append HasStage (coverage_issues r.coverage) _
                        (coverage_issues-HasStage r.coverage)
                        (All-append HasStage (lag_issues r.lag) _ (lag_issues-HasStage r.lag) (
                          All-append HasStage (ingest_issues r.ingest) _
                            (ingest_issues-HasStage r.ingest)
                            (All-append HasStage (flink_issues r.flink) _
                              (flink_issues-HasStage r.flink)
                              (All-append HasStage (kafka_issues r.kafka) _
                                (kafka_issues-HasStage r.kafka)
                                (All-append HasStage (producer_issues r.trades) _
                                  (producer_issues-HasStage r.trades)
                                  (connect_issues-HasStage r.connectors)))))))))))))))
