-- ===== src/Notify.antt =====
-- airflow/dags/market_alerts_notify.py, `_notify`: the rises of a market's alert level, each told
-- once for a market, a type, a level and an hour. The rows of its SQL are an argument.
pub mod Exactly
mod Tests
use crypto_cdc_pipeline.Base.{
  ℕ, suc, ◌+◌, ◌&&◌, ◌||◌, ◌==◌, Bool, true, false, not, String, str_eq, Option, none, some, List,
  [], ◌∷◌, ◌++◌, ltb, length, take, is_empty, if◌then◌else◌,
}

-- A row of market_alerts, as far as the key of its message goes: market, type, level, hour.
pub record Rise : Type 0 where
  pub market : String
  pub alert_type : String
  pub level : ℕ
  pub hour : ℕ

-- `market_alert:<market>:<type>:L<level>:<hour>`, equal where its parts are.
abbrev pub same : Rise → Rise → Bool
same a b =
    str_eq a.market b.market
    && str_eq a.alert_type b.alert_type
    && a.level == b.level
    && a.hour == b.hour

-- `SELECT count() ... WHERE dedup_key = ...`, and how often a key is in a list.
abbrev pub count : Rise → List Rise → ℕ
count k [] = 0
count k (x ∷ xs) = if same x k then suc (count k xs) else count k xs

-- The loop: `seen` are the keys of this run, `table` is alert_events.
abbrev pub fired_of : List Rise → List Rise → List Rise → List Rise
fired_of [] seen table = []
fired_of (r ∷ rs) seen table =
    let rest = fired_of rs seen table in
    let more = r ∷ fired_of rs (r ∷ seen) table in
    if ltb 0 (count r seen) then rest else if ltb 0 (count r table) then rest else more

-- What `_notify` returns, `none` for an exception: the numbers of the rows and of the fired; what a
-- message has told; alert_events.
pub record Outcome : Type 0 where
  pub returned : Option (ℕ × ℕ)
  pub sent : List Rise
  pub table : List Rise

-- A run: whether the queries answer, the rows, whether Slack takes the message (an error of the
-- request is logged and swallowed), and whether the INSERT, which comes last, succeeds.
pub record Run : Type 0 where
  pub answers : Bool
  pub rows : List Rise
  pub delivered : Bool
  pub stores : Bool

-- `send_health_alert`: the message has the first ten fields.
abbrev pub sent_of : Run → List Rise → List Rise
sent_of r fired = if r.delivered then take 10 fired else []

unfoldable pub notify : Run → List Rise → Outcome
notify r table =
    let fired = fired_of r.rows [] table in
    let result = some (length r.rows, length fired) in
    if not r.answers
    then record { returned = none; sent = []; table = table }
    else if is_empty fired
    then record { returned = result; sent = []; table = table }
    else if r.stores
    then record { returned = result; sent = sent_of r fired; table = fired ++ table }
    else record { returned = none; sent = sent_of r fired; table = table }
