-- ===== src/Slack/Callbacks.antt =====
-- airflow/plugins/callbacks/slack_callbacks.py: what a failed, a finished and a late task send.
pub mod Forms
use crypto_cdc_pipeline.Base.{
  ℕ, ◌&&◌, ◌||◌, ◌==◌, Bool, true, false, not, Option, none, some, List, [], ◌∷◌, ◌++◌, keep_if,
  leb, take, is_empty, map, if◌then◌else◌,
}
use crypto_cdc_pipeline.Slack.{Text, Posted, Sent, send_slack_message}

-- What the callbacks read in the context, each where it is there: the DAG, the task with its
-- log, the date of the run and the exception.
pub record Context : Type 0 where
  pub dag_id : Option Text
  pub task : Option (Text × Text)
  pub execution_date : Option Text
  pub error : Option Text

-- A block, without its fixed words.
pub data Notice : Type 0 where
  task_failed : Text → Text → Notice
  details : Text → Text → Text → Text → Notice
  view_log : Text → Notice
  dag_completed : Text → Text → Notice
  sla_miss : Notice
  late_tasks : Text → Text → Notice

abbrev pub or_text : Text → Option Text → Text
or_text other none = other
or_text other (some t) = t

abbrev pub task_id_of : Text → Option (Text × Text) → Text
task_id_of unknown none = unknown
task_id_of unknown (some t) = t.0

abbrev pub log_url_of : Option (Text × Text) → Text
log_url_of none = []
log_url_of (some t) = t.1

-- `unknown`, `now` and `no_info` are the words for what is missing.
unfoldable pub task_failure_callback :
    Option Text → Posted → Text → Text → Text → Context → Sent (List Notice)
task_failure_callback url answer unknown now no_info c =
    let dag = or_text unknown c.dag_id in
    let task = task_id_of unknown c.task in
    send_slack_message url answer (
      task_failed dag task
      ∷ details dag task (or_text now c.execution_date) (take 300 (or_text no_info c.error))
      ∷ view_log (log_url_of c.task)
      ∷ [])

unfoldable pub task_success_callback :
    Option Text → Posted → Text → Text → Context → Sent (List Notice)
task_success_callback url answer unknown now c =
    send_slack_message url answer
      (dag_completed (or_text unknown c.dag_id) (or_text now c.execution_date) ∷ [])

-- Where `splitlines` ends a line, and what `strip` takes off, of the characters below U+0100.
abbrev pub is_line_end : ℕ → Bool
is_line_end c = (leb 10 c && leb c 13) || (leb 28 c && leb c 30) || c == 133

abbrev pub is_space : ℕ → Bool
is_space c = (leb 9 c && leb c 13) || (leb 28 c && leb c 32) || c == 133 || c == 160

-- The lines from a point on; that of `\r\n` may come with an empty line, which is dropped.
abbrev pub lines_from : Text → Text → List Text
lines_from line [] = if is_empty line then [] else line ∷ []
lines_from line (c ∷ cs) =
    let more = lines_from (line ++ (c ∷ [])) cs in
    let next = lines_from [] cs in if is_line_end c then line ∷ next else more

abbrev pub strip_left : Text → Text
strip_left [] = []
strip_left (c ∷ cs) = let rest = strip_left cs in if is_space c then rest else c ∷ cs

abbrev pub strip_right : Text → Text
strip_right [] = []
strip_right (c ∷ cs) =
    let rest = strip_right cs in if is_empty rest && is_space c then [] else c ∷ rest

abbrev pub strip : Text → Text
strip t = strip_right (strip_left t)

-- The late tasks as Airflow gives them: one text, or objects with their ids.
pub data TaskList : Type 0 where
  text : Text → TaskList
  objects : List Text → TaskList

abbrev pub stripped_lines : List Text → List Text
stripped_lines ls = keep_if (λ t. not (is_empty t)) (map strip ls)

abbrev pub task_names_of : TaskList → List Text
task_names_of (text t) = stripped_lines (lines_from [] t)
task_names_of (objects ids) = ids

-- `', '.join(names)`
abbrev pub join_names : List Text → Text
join_names [] = []
join_names (n ∷ []) = n
join_names (n ∷ m ∷ ns) = n ++ (44 ∷ 32 ∷ join_names (m ∷ ns))

unfoldable pub sla_miss_callback : Option Text → Posted → Text → TaskList → Sent (List Notice)
sla_miss_callback url answer dag tasks =
    send_slack_message url answer
      (sla_miss ∷ late_tasks dag (join_names (task_names_of tasks)) ∷ [])
