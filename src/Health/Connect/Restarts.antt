-- ===== src/Health/Connect/Restarts.antt =====
-- When connectors and tasks are restarted.
use crypto_cdc_pipeline.Base.{
  ℕ, suc, ◌≡◌, refl, ◌&&◌, &&_split, Bool, true, false, Option, none, some, List, [], ◌∷◌, ◌++◌,
  length, String, str_eq, eq_iff, ◌∙◌, is_empty, All, arith, inl, inr, Bool-cases, Option-cases,
  if◌then◌else◌,
}
use crypto_cdc_pipeline.Health.Connect.{
  Task, Status, Restart, of_task, of_connector, Api, or_unknown, or_index, has_failed, is_running,
  restart_tasks, restart_one, visit, all_tasks_run, all_run, Result, failed_result,
  check_kafka_connect,
}

-- A state that the API tells, and that has this text.
abbrev pub is_state : String → Option String → Bool
is_state text none = false
is_state text (some s) = str_eq s text

-- The restarts that a list of tasks needs: of each whose state is FAILED.
abbrev pub needed_tasks : String → ℕ → List Task → List Restart
needed_tasks name i [] = []
needed_tasks name i (t ∷ ts) =
    if is_state "FAILED" t.state
    then of_task name (or_index i t.id) ∷ needed_tasks name (suc i) ts
    else needed_tasks name (suc i) ts

-- The restarts that a connector needs: then its own, unless its state is RUNNING.
abbrev pub needed : String → Status → List Restart
needed name s =
    needed_tasks name 0 s.tasks
    ++ (if is_state "RUNNING" s.connector then [] else of_connector name ∷ [])

abbrev pub all_needed : (String → Status) → List String → List Restart
all_needed status [] = []
all_needed status (n ∷ ns) = needed n (status n) ++ all_needed status ns

abbrev pub all_statuses : (String → Status) → List String → List (String × Status)
all_statuses status [] = []
all_statuses status (n ∷ ns) = (n, status n) ∷ all_statuses status ns

-- Every connector and every task has the state RUNNING.
abbrev pub tasks_up : List Task → Bool
tasks_up [] = true
tasks_up (t ∷ ts) = if is_state "RUNNING" t.state then tasks_up ts else false

abbrev pub all_up : (String → Status) → List String → Bool
all_up status [] = true
all_up status (n ∷ ns) =
    if is_state "RUNNING" (status n).connector
    then tasks_up (status n).tasks && all_up status ns
    else false

-- The first of the connectors that are left cannot be read, or none is left.
abbrev pub Ends : Api → List String → Type 0
Ends api [] = Unit
Ends api (n ∷ ns) = api.status n ≡ none

failed_is_state : (o : Option String) → str_eq (or_unknown o) "FAILED" ≡ is_state "FAILED" o
failed_is_state none = refl
failed_is_state (some s) = refl

running_is_state : (o : Option String) → is_running o ≡ is_state "RUNNING" o
running_is_state none = refl
running_is_state (some s) = refl

all_tasks_run-up : (ts : List Task) → all_tasks_run ts ≡ tasks_up ts
all_tasks_run-up [] = refl
all_tasks_run-up (t ∷ ts) = ground (arith, running_is_state t.state, all_tasks_run-up ts)

all_run-up :
    (status : String → Status) (ns : List String)
    → all_run (all_statuses status ns) ≡ all_up status ns
all_run-up status [] = refl
all_run-up status (n ∷ ns) = ground (
  arith,
  running_is_state (status n).connector,
  all_tasks_run-up (status n).tasks,
  all_run-up status ns,
)

module _ (api : Api) (accepted : (r : Restart) → api.accepts r ≡ true) where
  restart_tasks-needed :
      (name : String) (i : ℕ) (ts : List Task)
      → restart_tasks api name i ts ≡ (needed_tasks name i ts, true)
  unfolding restart_tasks
  restart_tasks-needed name i [] = refl
  restart_tasks-needed name i (t ∷ ts) =
      let same = failed_is_state t.state in
      elim (Bool-cases (is_state "FAILED" t.state)) [
        | inl e ↦
            rw
              (
                same ∙ e,
                e,
                accepted (of_task name (or_index i t.id)),
                restart_tasks-needed name (suc i) ts,
              )
              refl
        | inr e ↦ rw (same ∙ e, e) (restart_tasks-needed name (suc i) ts)
      ]

  restart_one-needed : (name : String) (s : Status) → restart_one api name s ≡ (needed name s, true)
  unfolding restart_one
  restart_one-needed name s =
      let same = running_is_state s.connector in
      elim (Bool-cases (is_state "RUNNING" s.connector)) [
        | inl e ↦ rw (same ∙ e, e, restart_tasks-needed name 0 s.tasks) refl
        | inr e ↦
            rw (same ∙ e, e, restart_tasks-needed name 0 s.tasks, accepted (of_connector name)) refl
      ]

  visit-needed :
      (status : String → Status) (names later : List String)
      → All (λ (n : String). api.status n ≡ some (status n)) names
      → Ends api later
      → visit api (names ++ later)
        ≡ (all_statuses status names, (all_needed status names, is_empty later))
  unfolding visit
  visit-needed status [] [] reads ends = refl
  visit-needed status [] (n ∷ ns) reads ends = rw (ends, visit) refl
  visit-needed status (n ∷ ns) later reads ends =
      rw
        (reads.0, visit, restart_one-needed n (status n), visit-needed status ns later reads.1 ends)
        refl

-- Where the list is answered, Kafka Connect takes the restarts, and the statuses of the first
-- connectors can be read, but not that of the one after them, if any: exactly their tasks with the
-- state FAILED are asked to restart, and those of them whose state is not RUNNING, in the order of the
-- list. If these are all connectors, that is reported, with `healthy` where the state of each of them and of
-- each of their tasks is RUNNING; if not, the check reports a failure without the restarts that it has made.
pub check_kafka_connect-needed :
    (api : Api) (status : String → Status) (names later : List String)
    → api.connectors ≡ some (names ++ later)
    → All (λ (n : String). api.status n ≡ some (status n)) names
    → Ends api later
    → ((r : Restart) → api.accepts r ≡ true)
    → check_kafka_connect api ≡ (
      if is_empty later
          then record {
            healthy = all_up status names;
            connectors = all_statuses status names;
            count = length (names ++ later);
            restarted = all_needed status names;
          }
          else record { healthy = false; connectors = []; count = 0; restarted = [] },
      all_needed status names,
    )
unfolding check_kafka_connect
check_kafka_connect-needed api status names later listed reads ends accepted =
    rw
      (
        listed,
        check_kafka_connect,
        visit-needed api accepted status names later reads ends,
        all_run-up status names,
      )
      refl

running_is_not_failed : (t : Task) → is_running t.state ≡ true → has_failed t ≡ false
running_is_not_failed t h = let e : or_unknown t.state ≡ "RUNNING" = (eq_iff _ _).0 h in rw e refl

restart_tasks-quiet :
    (api : Api) (name : String) (i : ℕ) (ts : List Task)
    → all_tasks_run ts ≡ true
    → restart_tasks api name i ts ≡ ([], true)
unfolding restart_tasks
restart_tasks-quiet api name i [] h = refl
restart_tasks-quiet api name i (t ∷ ts) h =
    let (here, others) = &&_split (is_running t.state) (all_tasks_run ts) h in
    rw (running_is_not_failed t here) (restart_tasks-quiet api name (suc i) ts others)

visit-quiet :
    (api : Api) (names : List String)
    → all_run (visit api names).0 ≡ true
    → (visit api names).1.0 ≡ []
unfolding visit restart_one
visit-quiet api [] h = refl
visit-quiet api (n ∷ ns) h = go (api.status n) refl (visit-quiet api ns)
  where
    go :
        (o : Option Status)
        → api.status n ≡ o
        → (all_run (visit api ns).0 ≡ true → (visit api ns).1.0 ≡ [])
        → (visit api (n ∷ ns)).1.0 ≡ []
    go none e ih = rw (e, visit) refl
    go (some s) e ih =
        let h' : all_run ((n, s) ∷ (visit api ns).0) ≡ true = (rw (e, visit) at h) in
        let (here, others) =
          &&_split (is_running s.connector && all_tasks_run s.tasks) (all_run (visit api ns).0)
            h' in
        let (runs, tasks) = &&_split (is_running s.connector) (all_tasks_run s.tasks) here in
        rw (e, visit, restart_one, restart_tasks-quiet api n 0 s.tasks tasks, runs) (ih others)

healthy_if :
    (completed : Bool) (r : Result)
    → (if completed then r else failed_result).healthy ≡ true
    → r.healthy ≡ true
healthy_if true r h = h
healthy_if false r h = cc

-- Nothing is restarted by a check that reports "healthy", whatever the API answers.
pub check_kafka_connect-quiet :
    (api : Api) → (check_kafka_connect api).0.healthy ≡ true → (check_kafka_connect api).1 ≡ []
unfolding check_kafka_connect
check_kafka_connect-quiet api h = elim (Option-cases api.connectors) [
  | inl e ↦ rw (e, check_kafka_connect) refl
  | inr (names, e) ↦
      rw (e, check_kafka_connect)
        (visit-quiet api names
          (healthy_if (visit api names).1.1 _ (rw (e, check_kafka_connect) at h)))
]
