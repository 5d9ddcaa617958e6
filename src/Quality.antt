-- ===== src/Quality.antt =====
-- airflow/dags/quality_alerts.py, `_judge`: the rules of the data quality, of which each is told
-- once a day. The answer to the query of a rule is an argument; a message is its key.
pub mod Once
mod Tests
use crypto_cdc_pipeline.Base.{
  ℕ, zero, suc, ◌+◌, ◌&&◌, ◌||◌, ◌==◌, Bool, true, false, String, str_eq, Option, none, some, List,
  [], ◌∷◌, ◌++◌, ltb, if◌then◌else◌,
}

-- What the query of a rule gives: an exception, no row, a row that the test of the rule raises
-- on (a missing value, say), or a row of a day, with whether it violates the rule.
pub data Answer : Type 0 where
  query_error no_row bad_row : Answer
  row : ℕ → Bool → Answer

-- `quality:<name>:<day>`
abbrev pub Key : Type 0
Key = String × ℕ

abbrev pub same : Key → Key → Bool
same a b = str_eq a.0 b.0 && a.1 == b.1

-- `SELECT count() ... WHERE dedup_key = ...`
abbrev pub count : Key → List Key → ℕ
count k [] = 0
count k (x ∷ xs) = if same x k then suc (count k xs) else count k xs

abbrev pub raises : List (String × Answer) → Bool
raises [] = false
raises ((name, bad_row) ∷ rs) = true
raises ((name, query_error) ∷ rs) = raises rs
raises ((name, no_row) ∷ rs) = raises rs
raises ((name, row day violated) ∷ rs) = raises rs

abbrev pub skipped_of : List (String × Answer) → List String
skipped_of [] = []
skipped_of ((name, query_error) ∷ rs) = name ∷ skipped_of rs
skipped_of ((name, no_row) ∷ rs) = name ∷ skipped_of rs
skipped_of ((name, bad_row) ∷ rs) = skipped_of rs
skipped_of ((name, row day violated) ∷ rs) = skipped_of rs

abbrev pub checked_of : List (String × Answer) → ℕ
checked_of [] = 0
checked_of ((name, query_error) ∷ rs) = checked_of rs
checked_of ((name, no_row) ∷ rs) = checked_of rs
checked_of ((name, bad_row) ∷ rs) = suc (checked_of rs)
checked_of ((name, row day violated) ∷ rs) = suc (checked_of rs)

-- The violations that alert_events does not have.
abbrev pub fired_of : List (String × Answer) → List Key → List Key
fired_of [] table = []
fired_of ((name, query_error) ∷ rs) table = fired_of rs table
fired_of ((name, no_row) ∷ rs) table = fired_of rs table
fired_of ((name, bad_row) ∷ rs) table = fired_of rs table
fired_of ((name, row day violated) ∷ rs) table =
    let rest = fired_of rs table in
    if violated
    then (if ltb 0 (count (name, day) table) then rest else (name, day) ∷ rest)
    else rest

pub record Judged : Type 0 where
  pub checked : ℕ
  pub fired : List Key
  pub skipped : List String

-- What `_judge` returns, what it sends, and alert_events after it: an exception on a row ends
-- it before anything is sent; `stores` is whether the INSERT succeeds, which comes last.
pub record Outcome : Type 0 where
  pub returned : Option Judged
  pub sent : List Key
  pub table : List Key

unfoldable pub judge_quality : Bool → List (String × Answer) → List Key → Outcome
judge_quality stores rules table =
    let fired = fired_of rules table in
    let j : Judged = record {
      checked = checked_of rules;
      fired = fired;
      skipped = skipped_of rules;
    } in
    if raises rules
    then record { returned = none; sent = []; table = table }
    else if stores
    then record { returned = some j; sent = fired; table = fired ++ table }
    else record {
      returned = elim fired [ [] ↦ some j | ◌∷◌ k ks ↦ none ];
      sent = fired;
      table = table;
    }
