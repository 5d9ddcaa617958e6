-- ===== src/Slack.antt =====
-- airflow/plugins/callbacks/slack_callbacks.py: what is sent to Slack. A text is the list of its
-- code points where its length matters.
pub mod Report
pub mod Chunks
pub mod AfterGate
pub mod Callbacks
mod Tests
use crypto_cdc_pipeline.Base.{
  ℕ, zero, suc, ◌+◌, ◌&&◌, Bool, true, false, Option, none, some, List, [], ◌∷◌, ◌++◌, ltb, length,
  take, if◌then◌else◌,
}

abbrev pub Text : Type 0
Text = List ℕ

-- What becomes of a request: 2xx, or a RequestException, a bad status among them.
pub data Posted : Type 0 where
  accepted request_exception : Posted

pub data Sent (A : Type 0) : Type 0 where
  not_configured : Sent A
  delivered : A → Sent A
  failed : A → Sent A

abbrev posted : {A : Type 0} → A → Posted → Sent A
posted payload accepted = delivered payload
posted payload request_exception = failed payload

-- `_send_slack_message`: an empty URL counts as none.
unfoldable pub send_slack_message : {A : Type 0} → Option Text → Posted → A → Sent A
send_slack_message none answer payload = not_configured
send_slack_message (some []) answer payload = not_configured
send_slack_message (some (u ∷ us)) answer payload = posted payload answer

-- A block of text.
pub data Block : Type 0 where
  header section : Text → Block

-- `"\n".join(lines)`
abbrev pub join : List Text → Text
join [] = []
join (l ∷ []) = l
join (l ∷ m ∷ ls) = l ++ (10 ∷ join (m ∷ ls))

-- `send_critical_alert`, with its answer.
unfoldable pub send_critical_alert :
    Option Text → Posted → Text → List Text → Bool × Sent (List Block)
send_critical_alert url answer title lines =
    let sent =
      send_slack_message url answer (header title ∷ section (take 2900 (join lines)) ∷ []) in
    (elim sent [ not_configured ↦ false | delivered _ ↦ true | failed _ ↦ false ], sent)

-- A component that is not healthy.
pub record Component : Type 0 where
  pub name : Text
  pub message : Text

abbrev pub fields_of : List Component → List (Text × Text)
fields_of [] = []
fields_of (c ∷ cs) = (c.name, c.message) ∷ fields_of cs

-- `send_health_alert`: the fields of the section under the header.
unfoldable pub send_health_alert : Option Text → Posted → List Component → Sent (List (Text × Text))
send_health_alert url answer comps = send_slack_message url answer (take 10 (fields_of comps))

abbrev pub has_lines : List Text → Bool
has_lines [] = false
has_lines (l ∷ ls) = true

-- The loop of `send_text_report`: the lines, the lines gathered and their size.
abbrev pub chunks : List Text → List Text → ℕ → List (List Text)
chunks [] chunk size = if has_lines chunk then chunk ∷ [] else []
chunks (line ∷ lines) chunk size =
    if ltb 2800 (size + length line + 1) && has_lines chunk
    then chunk ∷ chunks lines (line ∷ []) (length line + 1)
    else chunks lines (chunk ++ (line ∷ [])) (size + length line + 1)

abbrev pub sections : List (List Text) → List Block
sections [] = []
sections (c ∷ cs) = section (join c) ∷ sections cs

unfoldable pub text_blocks : Text → List Text → List Block
text_blocks title lines = take 50 (header (take 150 title) ∷ sections (chunks lines [] 0))

-- `send_text_report`
unfoldable pub send_text_report : Option Text → Posted → Text → List Text → Sent (List Block)
send_text_report url answer title lines = send_slack_message url answer (text_blocks title lines)
