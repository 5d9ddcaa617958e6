-- ===== src/Health/Coverage.antt =====
-- airflow/dags/health_check.py, `coverage_verdict` and `_check_market_coverage`: the markets whose
-- last trade of the exchange is not stored. Times are milliseconds.
pub mod Shown
mod Tests
use crypto_cdc_pipeline.Base.{
  ℕ, zero, suc, ◌+◌, ◌-◌, ◌&&◌, Bool, true, false, not, String, str_eq, Option, none, some, List,
  [], ◌∷◌, ◌++◌, ltb, leb, length, take, if◌then◌else◌,
}
use crypto_cdc_pipeline.Daily.{round_half_even}

-- A row of dim_market_state_scd; a row without `is_tradable` counts as tradable.
pub record State : Type 0 where
  pub market_state : String
  pub is_tradable : Bool

-- The market, how many seconds it is behind, whether any trade of it is stored, its state.
pub record Missing : Type 0 where
  pub market : String
  pub behind_s : ℕ
  pub ours : Bool
  pub state : Option String

pub record Coverage : Type 0 where
  pub checked : ℕ
  pub missing : List Missing
  pub missing_count : ℕ
  pub excluded : List String
  pub state_known : ℕ

abbrev pub find {ℓ} : {A : Type ℓ} → String → List (String × A) → Option A
find m [] = none
find m (x ∷ xs) = if str_eq x.0 m then some x.1 else find m xs

-- `coverage_verdict`, whether to exclude.
unfoldable pub coverage_verdict : Option State → Bool
coverage_verdict none = false
coverage_verdict (some s) = not s.is_tradable

abbrev pub last_of : Option ℕ → ℕ
last_of none = 0
last_of (some ms) = ms

abbrev pub is_known : Option ℕ → Bool
is_known none = false
is_known (some ms) = true

abbrev pub state_name : Option State → Option String
state_name none = none
state_name (some s) = some s.market_state

-- The tests of the loop on a market of the exchange, whose last trade there was at `ex_ms`.
abbrev pub is_behind : ℕ → Option ℕ → ℕ → Bool
is_behind now ours ex_ms =
    not (ltb (ex_ms + 86400000) now) && (ltb (last_of ours) ex_ms && ltb (ex_ms + 60000) now)

abbrev pub entry : ℕ → String → ℕ → Option ℕ → Option State → Missing
entry now market ex_ms ours st = record {
  market = market;
  behind_s = round_half_even (now - ex_ms) 1000;
  ours = is_known ours;
  state = state_name st;
}

-- The loop over the markets of the exchange: those that miss trades, and those left out.
abbrev pub coverage_loop :
    ℕ → List (String × ℕ) → List (String × State) → List (String × ℕ) → List Missing × List String
coverage_loop now ours states [] = ([], [])
coverage_loop now ours states (x ∷ xs) =
    let (missing, excluded) = coverage_loop now ours states xs in
    if is_behind now (find x.0 ours) x.1
    then (if coverage_verdict (find x.0 states)
        then (missing, x.0 ∷ excluded)
        else (entry now x.0 x.1 (find x.0 ours) (find x.0 states) ∷ missing, excluded))
    else (missing, excluded)

-- `missing.sort(key=lambda x: -x["behind_s"])`, which is stable.
abbrev pub insert_missing : Missing → List Missing → List Missing
insert_missing x [] = x ∷ []
insert_missing x (y ∷ ys) =
    if leb y.behind_s x.behind_s then x ∷ y ∷ ys else y ∷ insert_missing x ys

abbrev pub sort_missing : List Missing → List Missing
sort_missing [] = []
sort_missing (x ∷ xs) = insert_missing x (sort_missing xs)

-- `_check_market_coverage`
unfoldable pub check_market_coverage :
    ℕ → List (String × ℕ) → List (String × ℕ) → List (String × State) → Coverage
check_market_coverage now exchange ours states =
    let (missing, excluded) = coverage_loop now ours states exchange in
    record {
      checked = length exchange;
      missing = take 20 (sort_missing missing);
      missing_count = length missing;
      excluded = excluded;
      state_known = length states;
    }
