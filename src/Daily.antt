-- ===== src/Daily.antt =====
-- airflow/dags/daily_pipeline.py: the checks of each coin, the duplicates of the day and the
-- gate before the report. Percentages are in tenths, as the gate rounds them; a share of null
-- prices is in hundredths. A day is its number since 1970.
pub mod Gate
pub mod Slices
mod Tests
use crypto_cdc_pipeline.Base.{
  ℕ, zero, suc, ◌+◌, ◌-◌, ◌*◌, ◌/◌, ◌%◌, min, String, ◌&&◌, ◌||◌, ◌==◌, Bool, true, false, not,
  Option, none, some, List, [], ◌∷◌, ◌++◌, ltb, leb, length, map, keep_if, if◌then◌else◌,
}

-- `_get_target_date`: a date given by hand goes before the one of the schedule.
unfoldable pub get_target_date : Option ℕ → ℕ → ℕ
get_target_date none ds = ds
get_target_date (some conf_date) ds = conf_date

-- `_kst_day_bounds_ms`: midnight in Korea is nine hours before that of UTC.
unfoldable pub kst_day_bounds_ms : ℕ → ℕ × ℕ
kst_day_bounds_ms day = let ms0 = day * 86400000 - 32400000 in (ms0, ms0 + 86400000)

pub data Issue : Type 0 where
  no_trades : Issue
  low_trade_count : ℕ → Issue
  null_price_ratio : ℕ → Issue
  high_latency_events : ℕ → Issue
  duplicates : ℕ → Issue

-- What the three queries of a coin give; a missing value counts as 0.
pub record Answers : Type 0 where
  pub count_result : Option ℕ
  pub null_result : Option ℕ
  pub latency_result : Option ℕ

pub record Result : Type 0 where
  pub coin : String
  pub date : ℕ
  pub trade_count : ℕ
  pub null_pct : ℕ
  pub high_latency_count : ℕ
  pub passed : Bool
  pub issues : List Issue

abbrev pub or_zero : Option ℕ → ℕ
or_zero none = 0
or_zero (some n) = n

abbrev pub count_issues : ℕ → List Issue
count_issues n = if n == 0 then no_trades ∷ [] else if ltb n 100 then low_trade_count n ∷ [] else []

abbrev pub null_issues : ℕ → List Issue
null_issues pct = if ltb 100 pct then null_price_ratio pct ∷ [] else []

abbrev pub latency_issues : ℕ → List Issue
latency_issues n = if ltb 100 n then high_latency_events n ∷ [] else []

abbrev pub is_empty : List Issue → Bool
is_empty [] = true
is_empty (i ∷ is) = false

-- `_validate_coin`
unfoldable pub validate_coin : String → ℕ → Answers → Result
validate_coin coin date a =
    let found =
      count_issues (or_zero a.count_result)
      ++ (null_issues (or_zero a.null_result) ++ latency_issues (or_zero a.latency_result)) in
    record {
      coin = coin;
      date = date;
      trade_count = or_zero a.count_result;
      null_pct = or_zero a.null_result;
      high_latency_count = or_zero a.latency_result;
      passed = is_empty found;
      issues = found;
    }

-- What a mapped task left for the gate: a dictionary, or something else.
pub data Pulled : Type 0 where
  dict : Result → Pulled
  other : Pulled

-- What the gate returns. The early return has neither a pass rate nor duplicates.
pub record GateResult : Type 0 where
  pub passed : ℕ
  pub failed : ℕ
  pub total : ℕ
  pub failed_coins : List (String × List Issue)
  pub pass_rate : Option ℕ
  pub duplicate_rows : Option ℕ

pub data Outcome : Type 0 where
  returned : GateResult → Outcome
  below_rate : GateResult → Outcome
  has_duplicates : ℕ → Outcome

-- `round(a / b * 100, 1)` in tenths, a tie going to the even one.
abbrev pub round_parts : ℕ → ℕ → ℕ → ℕ
round_parts q r b =
    if ltb (2 * r) b then q else if ltb b (2 * r) then q + 1 else if q % 2 == 0 then q else q + 1

abbrev pub round_half_even : ℕ → ℕ → ℕ
round_half_even a b = round_parts (a / b) (a % b) b

abbrev pub rate : ℕ → ℕ → ℕ
rate passed total = round_half_even (1000 * passed) total

abbrev pub count_passed : List Pulled → ℕ
count_passed [] = 0
count_passed (other ∷ rs) = count_passed rs
count_passed (dict r ∷ rs) = if r.passed then suc (count_passed rs) else count_passed rs

abbrev pub failed_of : List Pulled → List (String × List Issue)
failed_of [] = []
failed_of (other ∷ rs) = failed_of rs
failed_of (dict r ∷ rs) = if r.passed then failed_of rs else (r.coin, r.issues) ∷ failed_of rs

-- The result before the last two tests.
abbrev pub gate_result : List Pulled → ℕ → GateResult
gate_result results dup_rows =
    let extra = if ltb 0 dup_rows then 1 else 0 in
    record {
      passed = count_passed results;
      failed = length (failed_of results) + extra;
      total = length results + extra;
      failed_coins =
          failed_of results
          ++ (if ltb 0 dup_rows then ("DEDUP", duplicates dup_rows ∷ []) ∷ [] else []);
      pass_rate = some (rate (count_passed results) (length results + extra));
      duplicate_rows = some dup_rows;
    }

-- `_quality_gate`; QUALITY_GATE_MIN_PASS_RATE is 90.0.
unfoldable pub quality_gate : List Pulled → Option ℕ → Outcome
quality_gate [] dups = returned (record {
  passed = 0;
  failed = 0;
  total = 0;
  failed_coins = [];
  pass_rate = none;
  duplicate_rows = none;
})
quality_gate (r ∷ rs) dups =
    let g = gate_result (r ∷ rs) (or_zero dups) in
    if ltb 0 g.total && ltb (rate g.passed g.total) 900
    then below_rate g
    else if ltb 0 (or_zero dups)
    then has_duplicates (or_zero dups)
    else returned g

-- A row of the trades: when it was traded, and its key of source_ts and trade_id.
pub record Row : Type 0 where
  pub upbit_timestamp : ℕ
  pub source_ts : ℕ
  pub trade_id : ℕ

abbrev pub same_key : Row → Row → Bool
same_key r s = r.source_ts == s.source_ts && r.trade_id == s.trade_id

abbrev pub has_key : Row → List Row → Bool
has_key r [] = false
has_key r (s ∷ ss) = same_key s r || has_key r ss

-- `uniqExact(source_ts, trade_id)`
abbrev pub uniq_exact : List Row → ℕ
uniq_exact [] = 0
uniq_exact (r ∷ rs) = if has_key r rs then uniq_exact rs else suc (uniq_exact rs)

-- The query over `upbit_timestamp >= h0 AND upbit_timestamp < h1`.
abbrev pub between : ℕ → ℕ → Row → Bool
between h0 h1 r = leb h0 r.upbit_timestamp && ltb r.upbit_timestamp h1

unfoldable pub dup_rows : ℕ → ℕ → List Row → ℕ
dup_rows h0 h1 rows = let found = keep_if (between h0 h1) rows in length found - uniq_exact found

-- The loop over `range(ms0, ms1, hour_ms)`, of so many steps from h0.
abbrev pub sum_slices : ℕ → ℕ → ℕ → List Row → ℕ
sum_slices zero h0 ms1 rows = 0
sum_slices (suc n) h0 ms1 rows =
    dup_rows h0 (min (h0 + 3600000) ms1) rows + sum_slices n (h0 + 3600000) ms1 rows

-- `_check_duplicates`: the range has the length that Python gives it.
unfoldable pub check_duplicates : ℕ → List Row → ℕ
check_duplicates day rows =
    let (ms0, ms1) = kst_day_bounds_ms day in
    sum_slices ((ms1 - ms0 + 3599999) / 3600000) ms0 ms1 rows
