-- ===== src/Slack/Tests.antt =====
-- What is sent to Slack, at concrete inputs.
use crypto_cdc_pipeline.Base.{
  ℕ, ◌≡◌, ◌≢◌, ◌≤◌, refl, false, none, some, List, [], ◌∷◌, length, take, All, arith,
}
use crypto_cdc_pipeline.Daily.{
  dict, validate_coin, Answers, GateResult, gate_result, quality_gate, returned,
}
use crypto_cdc_pipeline.Slack.{delivered, not_configured}
use crypto_cdc_pipeline.Slack.Callbacks.{
  Context, task_failed, details, view_log, sla_miss, late_tasks, text, task_failure_callback,
  task_success_callback, sla_miss_callback,
}
use crypto_cdc_pipeline.Slack.{
  Text, header, section, sections, text_blocks, accepted, request_exception, delivered, failed,
  send_slack_message, send_critical_alert, send_health_alert, send_text_report, Component,
}
use crypto_cdc_pipeline.Slack.Chunks.{joined, Fits, text_blocks-whole}
use crypto_cdc_pipeline.Slack.Report.{Emoji, red, footer, send_report, Block as ReportBlock}
use crypto_cdc_pipeline.Slack.AfterGate.{framed, send_report_after_gate}

abbrev lines : List Text
lines = (65 ∷ []) ∷ (66 ∷ 67 ∷ []) ∷ []

text_blocks-whole_example :
    (cs : List (List Text)) × (text_blocks (72 ∷ []) lines
      ≡ header (take 150 (72 ∷ [])) ∷ sections cs)
    × (joined cs ≡ lines)
    × All Fits cs
text_blocks-whole_example = text_blocks-whole (72 ∷ []) lines (omega arith)

sent_test :
    send_text_report (some (104 ∷ [])) accepted (72 ∷ []) lines
    ≡ delivered (header (72 ∷ []) ∷ section (65 ∷ 10 ∷ 66 ∷ 67 ∷ []) ∷ [])
unfolding send_text_report send_slack_message text_blocks
sent_test = refl

-- An error of the request is the end of the message: nobody is told.
error_test :
    send_critical_alert (some (104 ∷ [])) request_exception (72 ∷ []) []
    ≡ (false, failed (header (72 ∷ []) ∷ section [] ∷ []))
unfolding send_critical_alert send_slack_message
error_test = refl

abbrev part : ℕ → Component
part n = record { name = n ∷ []; message = [] }

-- The eleventh component is left out.
eleven_test :
    send_health_alert (some (104 ∷ [])) accepted (
      part 1
      ∷ part 2
      ∷ part 3
      ∷ part 4
      ∷ part 5
      ∷ part 6
      ∷ part 7
      ∷ part 8
      ∷ part 9
      ∷ part 10
      ∷ part 11
      ∷ [])
    ≡ send_health_alert (some (104 ∷ [])) accepted (
        part 1
        ∷ part 2
        ∷ part 3
        ∷ part 4
        ∷ part 5
        ∷ part 6
        ∷ part 7
        ∷ part 8
        ∷ part 9
        ∷ part 10
        ∷ [])
unfolding send_health_alert send_slack_message
eleven_test = refl

abbrev good : Answers
good = record { count_result = some 5000; null_result = none; latency_result = none }

abbrev passed : GateResult
passed = gate_result (dict (validate_coin "KRW-BTC" 20000 good) ∷ []) 0

gate_test : quality_gate (dict (validate_coin "KRW-BTC" 20000 good) ∷ []) none ≡ returned passed
unfolding quality_gate validate_coin
gate_test = refl

send_report_after_gate_example :
    (e : Emoji) × (blocks : List ReportBlock) × (send_report 20000 none passed none none
      ≡ framed 20000 none e passed blocks (footer none))
    × (e ≢ red)
    × (length (framed 20000 none e passed blocks (footer none)) ≤ 10)
send_report_after_gate_example =
    send_report_after_gate (dict (validate_coin "KRW-BTC" 20000 good)) [] none passed 20000 none
      none gate_test

abbrev context : Context
context = record {
  dag_id = some (100 ∷ []);
  task = none;
  execution_date = none;
  error = some (69 ∷ []);
}

failure_test :
    task_failure_callback (some (104 ∷ [])) accepted (117 ∷ []) (110 ∷ []) (45 ∷ []) context
    ≡ delivered (
        task_failed (100 ∷ []) (117 ∷ [])
        ∷ details (100 ∷ []) (117 ∷ []) (110 ∷ []) (69 ∷ [])
        ∷ view_log []
        ∷ [])
unfolding task_failure_callback send_slack_message
failure_test = refl

success_test : task_success_callback none accepted (117 ∷ []) (110 ∷ []) context ≡ not_configured
unfolding task_success_callback send_slack_message
success_test = refl

late_test :
    sla_miss_callback (some (104 ∷ [])) accepted (100 ∷ []) (text (97 ∷ 32 ∷ 10 ∷ 10 ∷ 98 ∷ []))
    ≡ delivered (sla_miss ∷ late_tasks (100 ∷ []) (97 ∷ 44 ∷ 32 ∷ 98 ∷ []) ∷ [])
unfolding sla_miss_callback send_slack_message
late_test = refl
