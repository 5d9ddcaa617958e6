-- ===== src/Schema/Run.antt =====
-- `sample` and `main` of scripts/ops/validate-topic-schemas.py: the contracts of schemas/, each
-- against some messages of its topic. What kafka-console-consumer prints is a parameter.
pub mod Exit
use crypto_cdc_pipeline.Base.{
  ℕ, suc, Bool, true, false, not, ◌&&◌, ◌||◌, String, str_eq, Option, none, some, List, [], ◌∷◌,
  ◌++◌, map, length, take, is_empty, ◌==◌, if◌then◌else◌,
}
use crypto_cdc_pipeline.Schema.Values.{Json}
use crypto_cdc_pipeline.Schema.{Schema, Violation, check}

-- A line of the consumer: empty, `null` (a tombstone), not JSON, or a message.
pub data Line : Type 0 where
  blank tombstone undecodable : Line
  message : Json → Line

abbrev pub rows_of : List Line → List Json
rows_of [] = []
rows_of (blank ∷ ls) = rows_of ls
rows_of (tombstone ∷ ls) = rows_of ls
rows_of (undecodable ∷ ls) = rows_of ls
rows_of (message j ∷ ls) = j ∷ rows_of ls

-- A file of schemas/: its name without `.json`, and its schema.
abbrev pub Contract : Type 0
Contract = String × Schema

pub data Status : Type 0 where
  no_sample violation ok : Status

pub record Entry : Type 0 where
  pub topic : String
  pub status : Status
  pub checked : ℕ
  pub violations : ℕ
  pub detail : List (ℕ × Violation)

-- The violations of the messages, each with the number of its message.
abbrev pub check_all : Schema → ℕ → List Json → List (ℕ × Violation)
check_all s i [] = []
check_all s i (m ∷ ms) = map (λ (e : Violation). (i, e)) (check s m []) ++ check_all s (suc i) ms

-- `--topic`; an empty one is none.
abbrev pub wanted : Option String → String → Bool
wanted none t = true
wanted (some a) t = str_eq a "" || str_eq a t

-- What is recorded of a topic, from its messages and their violations.
abbrev pub entry_from : String → List Json → List (ℕ × Violation) → Entry
entry_from t [] errs = record {
  topic = t;
  status = no_sample;
  checked = 0;
  violations = 0;
  detail = [];
}
entry_from t (m ∷ ms) [] = record {
  topic = t;
  status = ok;
  checked = length (m ∷ ms);
  violations = 0;
  detail = [];
}
entry_from t (m ∷ ms) (e ∷ es) = record {
  topic = t;
  status = violation;
  checked = length (m ∷ ms);
  violations = length (e ∷ es);
  detail = take 6 (e ∷ es);
}

module _ (consume : String → Bool → List Line) where
  -- From the end of the topic and, where that gives nothing, from its beginning.
  abbrev pub messages_of : String → List Json
  messages_of t =
      let latest = rows_of (consume t false) in
      if is_empty latest then rows_of (consume t true) else latest

  abbrev pub entry_of : Contract → Entry
  entry_of c = let ms = messages_of c.0 in entry_from c.0 ms (check_all c.1 0 ms)

  -- `records`, in the order of the files.
  abbrev pub records_of : Option String → List Contract → List Entry
  records_of only [] = []
  records_of only (c ∷ cs) =
      let rest = records_of only cs in if wanted only c.0 then entry_of c ∷ rest else rest

abbrev pub failed_of : List Entry → ℕ
failed_of [] = 0
failed_of (e ∷ es) = elim e.status [
  | no_sample ↦ failed_of es
  | violation ↦ suc (failed_of es)
  | ok ↦ failed_of es
]

-- The exit code; `recording` is `--record`, `stores` whether its INSERT succeeds.
unfoldable pub exit_code :
    (String → Bool → List Line) → Option String → Bool → Bool → List Contract → ℕ
exit_code consume only recording stores contracts =
    let records = records_of consume only contracts in
    let code = if failed_of records == 0 then 0 else 1 in
    if recording && not (is_empty records) then (if stores then code else 2) else code
