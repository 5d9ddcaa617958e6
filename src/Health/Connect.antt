-- ===== src/Health/Connect.antt =====
-- airflow/dags/health_check.py, `_check_kafka_connect`: the states of the connectors, and the restart of
-- what has failed. The REST API of Kafka Connect is a parameter.
pub mod Restarts
mod Tests
use crypto_cdc_pipeline.Base.{
  ℕ, suc, ◌+◌, ◌&&◌, Bool, true, false, not, Option, none, some, List, [], ◌∷◌, ◌++◌, String,
  str_eq, length, if◌then◌else◌,
}

pub record Task : Type 0 where
  pub id : Option ℕ
  pub state : Option String

pub record Status : Type 0 where
  pub connector : Option String
  pub tasks : List Task

-- A restart that was asked for: of one task, or of a connector with its tasks.
pub data Restart : Type 0 where
  of_task : String → ℕ → Restart
  of_connector : String → Restart

-- `connectors` and `status`: the JSON, or `none` for a RequestException. `accepts`: the POST of a
-- restart returns, whatever its HTTP status.
pub record Api : Type 0 where
  pub connectors : Option (List String)
  pub status : String → Option Status
  pub accepts : Restart → Bool

abbrev pub or_unknown : Option String → String
or_unknown none = "UNKNOWN"
or_unknown (some s) = s

abbrev pub or_index : ℕ → Option ℕ → ℕ
or_index i none = i
or_index i (some id) = id

abbrev pub has_failed : Task → Bool
has_failed t = str_eq (or_unknown t.state) "FAILED"

abbrev pub is_running : Option String → Bool
is_running s = str_eq (or_unknown s) "RUNNING"

-- The restarts asked for so far, and whether all of them returned.
abbrev pub Attempt : Type 0
Attempt = List Restart × Bool

abbrev pub ask : Api → Restart → Attempt
ask api r = (r ∷ [], api.accepts r)

-- What comes next is done if nothing was raised.
abbrev pub and_then : Attempt → Attempt → Attempt
and_then a b = if a.1 then (a.0 ++ b.0, b.1) else a

module _ (api : Api) where
  unfoldable pub restart_tasks : String → ℕ → List Task → Attempt
  restart_tasks name i [] = ([], true)
  restart_tasks name i (t ∷ ts) =
      let rest = restart_tasks name (suc i) ts in
      if has_failed t then and_then (ask api (of_task name (or_index i t.id))) rest else rest

  -- The turn of the loop for one connector whose status was read.
  unfoldable pub restart_one : String → Status → Attempt
  restart_one name s =
      and_then (restart_tasks name 0 s.tasks)
        (if is_running s.connector then ([], true) else ask api (of_connector name))

  -- The loop: the statuses that were read, the restarts, and whether nothing was raised.
  unfoldable pub visit : List String → List (String × Status) × Attempt
  visit [] = ([], ([], true))
  visit (name ∷ names) =
      let rest = visit names in
      elim (api.status name) [
        | none ↦ ([], ([], false))
        | some s ↦ ((name, s) ∷ rest.0, and_then (restart_one name s) rest.1)
      ]

abbrev pub all_tasks_run : List Task → Bool
all_tasks_run [] = true
all_tasks_run (t ∷ ts) = is_running t.state && all_tasks_run ts

abbrev pub all_run : List (String × Status) → Bool
all_run [] = true
all_run (s ∷ ss) = (is_running s.1.connector && all_tasks_run s.1.tasks) && all_run ss

-- The dictionary that is returned.
pub record Result : Type 0 where
  pub healthy : Bool
  pub connectors : List (String × Status)
  pub count : ℕ
  pub restarted : List Restart

abbrev pub failed_result : Result
failed_result = record { healthy = false; connectors = []; count = 0; restarted = [] }

-- The result, and the restarts that were asked for.
unfoldable pub check_kafka_connect : Api → Result × List Restart
check_kafka_connect api = elim api.connectors [
  | none ↦ (failed_result, [])
  | some names ↦
      let (statuses, (restarts, completed)) = visit api names in
      (
        if completed
            then record {
              healthy = all_run statuses;
              connectors = statuses;
              count = length names;
              restarted = restarts;
            }
            else failed_result,
        restarts,
      )
]
