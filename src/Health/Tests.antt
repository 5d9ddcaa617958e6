-- ===== src/Health/Tests.antt =====
-- The health check at concrete inputs.
use crypto_cdc_pipeline.Base.{ℕ, ◌≡◌, refl, true, none, List, [], ◌∷◌}
use crypto_cdc_pipeline.Base.Int.{◌-ℤ◌}
use crypto_cdc_pipeline.Health.Checks.{
  Results, unhealthy, backup_issues, consumer_issues, mart_issues, collector_issues, binance_issues,
  ledger_issues, parse_issues, busy_issues, insert_issues, coverage_issues, lag_issues,
  ingest_issues, flink_issues, kafka_issues, producer_issues, connect_issues,
}
use crypto_cdc_pipeline.Health.Checks.Stages.{incident_stage}
use crypto_cdc_pipeline.Health.Alerts.{
  Source, health_check, escalation, recovery, Row, first_seen, last_seen, incident_start,
  is_persistent, is_recovered, escalate_persistent,
}

-- Every check is without a result, as when all of its tasks failed.
abbrev no_results : Results
no_results = record {
  backup = none;
  consumer = none;
  marts = none;
  collector = none;
  binance = none;
  ledger = none;
  parsing = none;
  busy = none;
  inserts = none;
  coverage = none;
  lag = none;
  ingest = none;
  flink = none;
  kafka = none;
  trades = none;
  connectors = none;
}

-- Then only two of the checks are reported.
no_results_test : unhealthy no_results ≡ "Consumer Lag" ∷ "ClickHouse" ∷ []
unfolding unhealthy backup_issues consumer_issues mart_issues collector_issues binance_issues
    ledger_issues parse_issues busy_issues insert_issues coverage_issues lag_issues ingest_issues
    flink_issues kafka_issues producer_issues connect_issues
no_results_test = refl

prefix_test : incident_stage "Binance Ingest Lag" ≡ ("collect", "cdc-binance-collector")
unfolding incident_stage
prefix_test = refl

abbrev alert : Source → ℕ → Row
alert source t = record { fired_at = t; source = source; name = "Flink Jobs" }

abbrev lasting : List Row
lasting = alert health_check 100000 ∷ []

escalates_test :
    escalate_persistent (λ n. true) (λ n. true) 101800 ("Flink Jobs" ∷ []) lasting ≡ record {
      escalated = "Flink Jobs" ∷ [];
      recovered = [];
      table = alert health_check 100000 ∷ alert escalation 101800 ∷ [];
    }
unfolding escalate_persistent is_persistent is_recovered incident_start first_seen last_seen ◌-ℤ◌
escalates_test = refl

recovers_test :
    (escalate_persistent
      (λ n. true)
      (λ n. true)
      102400
      []
      (alert health_check 100000 ∷ alert escalation 101800 ∷ [])).recovered
    ≡ "Flink Jobs" ∷ []
unfolding escalate_persistent is_persistent is_recovered incident_start first_seen last_seen ◌-ℤ◌
recovers_test = refl

-- An alert five hours ago, of an incident that passed without an escalation, makes a fresh alert
-- look five hours old.
fresh_test :
    is_persistent 118000 "Flink Jobs" (alert health_check 100000 ∷ alert health_check 118000 ∷ [])
    ≡ true
unfolding is_persistent incident_start first_seen last_seen ◌-ℤ◌
fresh_test = refl

-- After a recovery, the hourly repetition of an alert starts the incident anew: it is escalated a
-- second time.
again_test :
    is_persistent 110800 "Flink Jobs" (
      alert health_check 100000
      ∷ alert recovery 104000
      ∷ alert health_check 105000
      ∷ alert escalation 106800
      ∷ alert health_check 108600
      ∷ [])
    ≡ true
unfolding is_persistent incident_start first_seen last_seen ◌-ℤ◌
again_test = refl
