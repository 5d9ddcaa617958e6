-- ===== src/Reconcile.antt =====
-- airflow/dags/reconcile_trades.py: the hourly candles of the exchange, against which the stored
-- trades are compared. The exchange is a parameter that answers each attempt at each market; a
-- day is a number, and a candle keeps of its time the day and the hour.
pub mod Fetch
mod Tests
use crypto_cdc_pipeline.Base.{
  ℕ, zero, suc, ◌+◌, ◌*◌, ◌==◌, ◌&&◌, ◌||◌, not, Bool, true, false, String, Option, none, some,
  List, [], ◌∷◌, ◌++◌, ltb, leb, length, map, keep_if, if◌then◌else◌,
}

pub record Candle : Type 0 where
  pub day : ℕ
  pub hour : ℕ
  pub volume : ℕ
  pub amount : ℕ

-- What a request comes to: an exception of it; or a status, and what `resp.json()` gives, where it
-- does not raise.
pub data Reply : Type 0 where
  no_reply : Reply
  reply : ℕ → Option (List Candle) → Reply

-- The answer of the exchange to an attempt at a market.
abbrev pub Exchange : Type 0
Exchange = String → ℕ → Reply

abbrev pub is_busy : Reply → Bool
is_busy no_reply = false
is_busy (reply status body) = status == 429

-- What the loop over the attempts leaves: from this attempt on, with so many more after it.
abbrev pub last_reply : Exchange → String → ℕ → ℕ → Reply
last_reply api market attempt zero = api market attempt
last_reply api market attempt (suc left) =
    let later = last_reply api market (suc attempt) left in
    if is_busy (api market attempt) then later else api market attempt

-- A market's turn: the candles are there, the market is counted as failed, or an exception ends
-- the task.
pub data Turn : Type 0 where
  fetched : List Candle → Turn
  refused aborted : Turn

abbrev pub body_of : Option (List Candle) → Turn
body_of none = aborted
body_of (some cs) = fetched cs

abbrev pub turn_of : Reply → Turn
turn_of no_reply = aborted
turn_of (reply status body) = let read = body_of body in if status == 200 then read else refused

-- The four attempts at a market.
unfoldable pub fetch_market : Exchange → String → Turn
fetch_market api market = turn_of (last_reply api market 0 3)

abbrev pub rows_of : ℕ → String → Turn → List (String × Candle)
rows_of day market (fetched cs) = map (λ c. (market, c)) (keep_if (λ c. c.day == day) cs)
rows_of day market refused = []
rows_of day market aborted = []

abbrev pub is_refused : Turn → Bool
is_refused refused = true
is_refused (fetched cs) = false
is_refused aborted = false

abbrev pub is_aborted : Turn → Bool
is_aborted aborted = true
is_aborted (fetched cs) = false
is_aborted refused = false

abbrev pub fetch_rows : Exchange → ℕ → List String → List (String × Candle)
fetch_rows api day [] = []
fetch_rows api day (m ∷ ms) = rows_of day m (fetch_market api m) ++ fetch_rows api day ms

abbrev pub fetch_failed : Exchange → List String → List String
fetch_failed api [] = []
fetch_failed api (m ∷ ms) =
    let rest = fetch_failed api ms in if is_refused (fetch_market api m) then m ∷ rest else rest

abbrev pub aborts : Exchange → List String → Bool
aborts api [] = false
aborts api (m ∷ ms) = is_aborted (fetch_market api m) || aborts api ms

-- `escaped` is an exception of a request, of a body or of the INSERT; `raised` the task's own.
pub data Result : Type 0 where
  summary : ℕ → ℕ → List String → Result
  raised : List String → Result
  escaped : Result

abbrev pub no_rows : List (String × Candle) → Bool
no_rows [] = true
no_rows (x ∷ xs) = false

-- `_fetch_hourly_candles` on the list of the markets, with the rows that it inserts; whether the
-- INSERT succeeds where it is sent.
unfoldable pub fetch_hourly_candles :
    Exchange → Bool → ℕ → List String → List (String × Candle) × Result
fetch_hourly_candles api stores day markets =
    let rows = fetch_rows api day markets in
    let failed = fetch_failed api markets in
    if aborts api markets
    then ([], escaped)
    else if not (no_rows rows) && not stores
    then ([], escaped)
    else (
      rows,
      if ltb (length markets) (20 * length failed)
          then raised failed
          else summary (length markets) (length rows) failed,
    )

-- What the comparison gives for a day; without cells the aggregates are zero.
pub record Compared : Type 0 where
  pub cells : ℕ
  pub cells_below : ℕ

pub data Verdict : Type 0 where
  passed alerted : Verdict

-- `_summarize`, with whether the dbt task succeeded.
unfoldable pub summarize : Bool → Compared → Verdict
summarize dbt_succeeded c = if not dbt_succeeded || ltb 0 c.cells_below then alerted else passed

-- A market's listing date in upbit_market_master: the day, where it comes from, and how many
-- daily candles were looked at.
pub data Origin : Type 0 where
  daily_candle_first before_window unknown : Origin

pub record Listing : Type 0 where
  pub listing_date_est : Option ℕ
  pub source : Origin
  pub lookback_days : ℕ

abbrev pub least : ℕ → List ℕ → ℕ
least d [] = d
least d (e ∷ es) = let l = least e es in if leb d l then d else l

-- The three attempts at the daily candles.
abbrev pub daily_candles : (ℕ → Option (List ℕ)) → ℕ → ℕ → Option (List ℕ)
daily_candles api attempt zero = none
daily_candles api attempt (suc left) =
    let later = daily_candles api (suc attempt) left in
    elim (api attempt) [ none ↦ later | some days ↦ some days ]

abbrev pub listing_of : Option (List ℕ) → Listing
listing_of none = record { listing_date_est = none; source = unknown; lookback_days = 0 }
listing_of (some []) = record { listing_date_est = none; source = unknown; lookback_days = 0 }
listing_of (some (d ∷ ds)) = record {
  listing_date_est = some (least d ds);
  source = if ltb (length (d ∷ ds)) 200 then daily_candle_first else before_window;
  lookback_days = length (d ∷ ds);
}

-- `_fetch_market_master`, for one market: a date that is known is not asked for again.
unfoldable pub fetch_listing : Option Listing → (ℕ → Option (List ℕ)) → Listing
fetch_listing none api = listing_of (daily_candles api 0 3)
fetch_listing (some k) api = elim k.listing_date_est [
  | none ↦ listing_of (daily_candles api 0 3)
  | some _ ↦ k
]
