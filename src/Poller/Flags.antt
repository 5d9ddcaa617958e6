-- ===== src/Poller/Flags.antt =====
-- scripts/labels/poll_market_events.py: the warning flags of the markets, every minute.
pub mod Kept
pub mod Steady
use crypto_cdc_pipeline.Base.{
  ℕ, Bool, true, false, not, ◌&&◌, ◌==◌, String, Option, none, some, List, [], ◌∷◌, ◌++◌, ltb,
  length, is_empty, if◌then◌else◌,
}
use crypto_cdc_pipeline.Poller.{same_bool}
use crypto_cdc_pipeline.Poller.Dicts.{Dict, get, has, put}

pub data Flag : Type 0 where
  warning price_fluctuations trading_volume_soaring deposit_amount_soaring global_price_differences
        concentration_of_small_accounts :
      Flag

abbrev pub flag_index : Flag → ℕ
flag_index warning = 0
flag_index price_fluctuations = 1
flag_index trading_volume_soaring = 2
flag_index deposit_amount_soaring = 3
flag_index global_price_differences = 4
flag_index concentration_of_small_accounts = 5

-- `WARNING` and FLAGS, in the order of the dict of a market.
abbrev pub all_flags : List Flag
all_flags =
    warning ∷ price_fluctuations ∷ trading_volume_soaring ∷ deposit_amount_soaring
    ∷ global_price_differences ∷ concentration_of_small_accounts ∷ []

-- The dict of a market, which has all flags.
abbrev pub Flags : Type 0
Flags = Flag → Bool

-- An entry of the answer: its market, whether that starts with `KRW-`, and its market_event,
-- nothing where it is missing or empty.
abbrev pub Entry : Type 0
Entry = String × Bool × Option Flags

abbrev pub fetch_loop : List Entry → Dict Flags → Dict Flags
fetch_loop [] cur = cur
fetch_loop ((m, krw, none) ∷ es) cur = fetch_loop es cur
fetch_loop ((m, krw, some ev) ∷ es) cur =
    let kept = fetch_loop es (put m ev cur) in
    let rest = fetch_loop es cur in if krw then kept else rest

-- A row of upbit_market_events; its kind is whether it is a snapshot's.
pub record FlagRow : Type 0 where
  pub observed_at : ℕ
  pub market : String
  pub flag : Flag
  pub state : Bool
  pub is_snapshot : Bool

abbrev pub set_flags : ℕ → String → Flags → List Flag → List FlagRow
set_flags now k fl [] = []
set_flags now k fl (f ∷ fs) =
    let rest = set_flags now k fl fs in
    if fl f
    then record { observed_at = now; market = k; flag = f; state = true; is_snapshot = true } ∷ rest
    else rest

abbrev pub snapshot_rows : ℕ → Dict Flags → List FlagRow
snapshot_rows now [] = []
snapshot_rows now ((k, fl) ∷ cur) = set_flags now k fl all_flags ++ snapshot_rows now cur

-- `prev.get(mk, {}).get(f, False)`
abbrev pub flag_of : Option Flags → Flag → Bool
flag_of none f = false
flag_of (some fl) f = fl f

abbrev pub changed_flags : ℕ → String → Option Flags → Flags → List Flag → List FlagRow
changed_flags now k before fl [] = []
changed_flags now k before fl (f ∷ fs) =
    let rest = changed_flags now k before fl fs in
    if same_bool (fl f) (flag_of before f)
    then rest
    else record { observed_at = now; market = k; flag = f; state = fl f; is_snapshot = false }
      ∷ rest

abbrev pub transition_rows : ℕ → Dict Flags → Dict Flags → List FlagRow
transition_rows now prev [] = []
transition_rows now prev ((k, fl) ∷ cur) =
    changed_flags now k (get k prev) fl all_flags ++ transition_rows now prev cur

-- The state file and the rows of the table, the latest run first.
pub record FlagWorld : Type 0 where
  pub file : Option (Dict Flags)
  pub table : List FlagRow

-- A run: its option and its time, the answer (`none`: an exception), whether the INSERT
-- succeeds, and whether the rest, which ends with the state file, is done.
pub record FlagRun : Type 0 where
  pub force : Bool
  pub now : ℕ
  pub answer : Option (List Entry)
  pub stores : Bool
  pub replaces : Bool

abbrev pub rows_of : FlagRun → Option (Dict Flags) → Dict Flags → List FlagRow
rows_of r none cur = snapshot_rows r.now cur
rows_of r (some prev) cur =
    (if r.force then snapshot_rows r.now cur else []) ++ transition_rows r.now prev cur

-- Whether `main` returns, and the world after it.
unfoldable pub poll_flags : FlagRun → FlagWorld → Bool × FlagWorld
poll_flags r w = elim r.answer [
  | none ↦ (false, w)
  | some entries ↦
      let cur = fetch_loop entries [] in
      let rows = rows_of r w.file cur in
      if ltb (length cur) 200
      then (false, w)
      else if not r.stores && not (is_empty rows)
      then (false, w)
      else if r.replaces
      then (true, record { file = some cur; table = rows ++ w.table })
      else (false, record w { table = rows ++ w.table })
]
