-- ===== src/Health/Alerts.antt =====
-- airflow/dags/health_check.py: what is sent, and what is escalated. The table alert_events is a list of
-- rows, in the order of their insertion; times are in seconds, and the clocks of the database and
-- of the program agree.
pub mod Once
pub mod Escalation
use crypto_cdc_pipeline.Base.{
  ℕ, ◌+◌, ◌*◌, ◌&&◌, ◌||◌, ◌==◌, Bool, true, false, not, Option, none, some, List, [], ◌∷◌, ◌++◌,
  map, String, str_eq, ltb, leb, min, max, keep_if, is_empty, if◌then◌else◌,
}
use crypto_cdc_pipeline.Base.Int.{ℤ, pos, ◌-ℤ◌, leb_ℤ}

-- The values of `source` that the health check writes.
pub data Source : Type 0 where
  health_check escalation recovery : Source

abbrev pub source_rank : Source → ℕ
source_rank health_check = 0
source_rank escalation = 1
source_rank recovery = 2

pub record Row : Type 0 where
  pub fired_at : ℕ
  pub source : Source
  pub name : String

abbrev pub member : String → List String → Bool
member n [] = false
member n (m ∷ ms) = str_eq m n || member n ms

-- A row of this source and name, fired in the last `span` seconds.
abbrev pub matches : ℕ → ℕ → Source → String → Row → Bool
matches span now source name r =
    leb now (r.fired_at + span)
    && (source_rank r.source == source_rank source && str_eq r.name name)

abbrev pub rows_of : Source → ℕ → List String → List Row
rows_of source now [] = []
rows_of source now (n ∷ ns) =
    record { fired_at = now; source = source; name = n } ∷ rows_of source now ns

-- The names that were alerted within the hour.
abbrev pub recent : ℕ → List Row → String → Bool
recent now [] name = false
recent now (r ∷ rs) name = matches 3600 now health_check name r || recent now rs name

-- The deduplication of `_evaluate_health`; `lookup` says that the query succeeds.
unfoldable pub to_send : Bool → ℕ → List Row → List String → List String
to_send lookup now table names = keep_if (λ n. not (lookup && recent now table n)) names

-- One evaluation with these unhealthy names: what goes to Slack, and the table after the insert,
-- if `stored` says that it succeeds. What Slack answers is not looked at.
unfoldable pub notify : Bool → Bool → ℕ → List String → List Row → List String × List Row
notify lookup stored now names table =
    let sent = to_send lookup now table names in
    (sent, if stored then table ++ rows_of health_check now sent else table)

abbrev pub earlier : ℕ → Option ℕ → Option ℕ
earlier t none = some t
earlier t (some u) = some (min t u)

abbrev pub later : ℕ → Option ℕ → Option ℕ
later t none = some t
later t (some u) = some (max t u)

-- `first_seen` and `last_seen` of the rows of a source and a name in the last six hours.
unfoldable pub first_seen : ℕ → Source → String → List Row → Option ℕ
first_seen now source name [] = none
first_seen now source name (r ∷ rs) =
    let rest = first_seen now source name rs in
    if matches 21600 now source name r then earlier r.fired_at rest else rest

unfoldable pub last_seen : ℕ → Source → String → List Row → Option ℕ
last_seen now source name [] = none
last_seen now source name (r ∷ rs) =
    let rest = last_seen now source name rs in
    if matches 21600 now source name r then later r.fired_at rest else rest

-- `x is None or x < t`
abbrev pub before : Option ℕ → ℕ → Bool
before none t = true
before (some x) t = ltb x t

abbrev pub or_this : ℕ → Option ℕ → ℕ
or_this d none = d
or_this d (some t) = t

-- The start of the incident, from the first alert: the first one if there is no recovery, or it is
-- after the last one, else the last alert.
unfoldable pub incident_start : ℕ → String → List Row → ℕ → ℕ
incident_start now name table first =
    if before (last_seen now recovery name table) first
    then first
    else or_this first (last_seen now health_check name table)

unfoldable pub is_persistent : ℕ → String → List Row → Bool
is_persistent now name table = elim (first_seen now health_check name table) [
  | none ↦ false
  | some alert ↦
      let start = incident_start now name table alert in
      leb_ℤ (pos 1800) (pos now -ℤ pos start) && before (last_seen now escalation name table) start
]

-- An escalation after which no recovery was sent, of a name that is well now.
unfoldable pub is_recovered : ℕ → List String → String → List Row → Bool
is_recovered now unwell name table = elim (last_seen now escalation name table) [
  | none ↦ false
  | some esc ↦ before (last_seen now recovery name table) esc && not (member name unwell)
]

-- `sorted(CRITICAL_NAMES)`
abbrev pub critical_names : List String
critical_names =
    "Backup Freshness" ∷ "Backup Volume" ∷ "Binance Ingest" ∷ "ClickHouse Ingest" ∷ "Consumer Lag"
    ∷ "Flink Jobs" ∷ "Kafka Connect" ∷ "Kafka Health" ∷ "Mart Freshness" ∷ "Producer Activity"
    ∷ "Upbit Producer" ∷ []

-- The names of the rows of the last six hours, each once. The query leaves their order open.
abbrev pub seen_names : ℕ → List Row → List String
seen_names now [] = []
seen_names now (r ∷ rs) =
    let rest = seen_names now rs in
    if leb now (r.fired_at + 21600) && not (member r.name rest) then r.name ∷ rest else rest

-- What `escalate_persistent` returns, and the table after it. `takes_escalation n` and
-- `takes_recovery n` say that Slack takes the message about n.
pub record Escalated : Type 0 where
  pub escalated : List String
  pub recovered : List String
  pub table : List Row

unfoldable pub escalate_persistent :
    (String → Bool) → (String → Bool) → ℕ → List String → List Row → Escalated
escalate_persistent takes_escalation takes_recovery now unwell table =
    let up =
      keep_if (λ n. is_persistent now n table && takes_escalation n)
        (keep_if (λ n. member n unwell) critical_names) in
    let down =
      keep_if (λ n. is_recovered now unwell n table && takes_recovery n) (seen_names now table) in
    record {
      escalated = up;
      recovered = down;
      table = table ++ (rows_of escalation now up ++ rows_of recovery now down);
    }
