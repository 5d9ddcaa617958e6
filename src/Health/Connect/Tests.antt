-- ===== src/Health/Connect/Tests.antt =====
-- The check of Kafka Connect at concrete inputs.
use crypto_cdc_pipeline.Base.{◌≡◌, refl, true, false, none, some, [], ◌∷◌, str_eq, if◌then◌else◌}
use crypto_cdc_pipeline.Health.Connect.{
  Status, Api, of_task, restart_tasks, restart_one, visit, check_kafka_connect,
}
use crypto_cdc_pipeline.Health.Connect.Restarts.{
  all_needed, all_statuses, all_up, check_kafka_connect-needed,
}

abbrev broken_task : Status
broken_task = record {
  connector = some "RUNNING";
  tasks = record { id = some 0; state = some "FAILED" } ∷ [];
}

abbrev rest_api : Api
rest_api = record {
  connectors = some ("mysql-cdc-connector" ∷ []);
  status = λ n. some broken_task;
  accepts = λ r. true;
}

abbrev good_task : Status
good_task = record {
  connector = some "RUNNING";
  tasks = record { id = some 0; state = some "RUNNING" } ∷ [];
}

abbrev good_api : Api
good_api = record {
  connectors = some ("mysql-cdc-connector" ∷ []);
  status = λ n. some good_task;
  accepts = λ r. true;
}

-- The second connector's status cannot be read.
abbrev half_api : Api
half_api = record rest_api {
  connectors = some ("mysql-cdc-connector" ∷ "sink" ∷ "other" ∷ []);
  status = λ n. if str_eq n "sink" then none else some broken_task;
}

half_test : check_kafka_connect half_api ≡ (
  record { healthy = false; connectors = []; count = 0; restarted = [] },
  of_task "mysql-cdc-connector" 0 ∷ [],
)
unfolding check_kafka_connect visit restart_one restart_tasks
half_test = refl

check_kafka_connect-needed_example : check_kafka_connect rest_api ≡ (
  record {
    healthy = all_up (λ n. broken_task) ("mysql-cdc-connector" ∷ []);
    connectors = all_statuses (λ n. broken_task) ("mysql-cdc-connector" ∷ []);
    count = 1;
    restarted = all_needed (λ n. broken_task) ("mysql-cdc-connector" ∷ []);
  },
  all_needed (λ n. broken_task) ("mysql-cdc-connector" ∷ []),
)
check_kafka_connect-needed_example =
    check_kafka_connect-needed rest_api (λ n. broken_task) ("mysql-cdc-connector" ∷ []) [] refl
      (refl, tt) tt (λ r. refl)

good_is_healthy : (check_kafka_connect good_api).0.healthy ≡ true
unfolding check_kafka_connect visit restart_one restart_tasks
good_is_healthy = refl
