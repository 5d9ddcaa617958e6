-- ===== src/Poller.antt =====
-- scripts/labels: the pollers that keep what the exchange says of its markets. This module is
-- poll_market_state.py, every ten minutes.
pub mod Dicts
pub mod Flags
pub mod Notices
pub mod Replay
mod Tests
use crypto_cdc_pipeline.Base.{
  ℕ, Bool, true, false, not, ◌&&◌, ◌==◌, String, str_eq, Option, none, some, List, [], ◌∷◌, ◌++◌,
  ltb, length, map, is_empty, if◌then◌else◌,
}
use crypto_cdc_pipeline.Poller.Dicts.{Dict, get, has, set_default, map_values}

-- A ticker as it is received; the delisting date is its year, month and day.
pub record Ticker : Type 0 where
  pub market_state : Option String
  pub is_trading_suspended : Bool
  pub delisting_date : Option (ℕ × ℕ × ℕ)

-- What is kept of a market.
pub record Row : Type 0 where
  pub state : String
  pub suspended : Bool
  pub delisting : Option (ℕ × ℕ × ℕ)

abbrev pub to_row : Ticker → Row
to_row m = record {
  state = elim m.market_state [ none ↦ "UNKNOWN" | some s ↦ if str_eq s "" then "UNKNOWN" else s ];
  suspended = m.is_trading_suspended;
  delisting = m.delisting_date;
}

abbrev pub same_bool : Bool → Bool → Bool
same_bool true b = b
same_bool false b = not b

abbrev pub same_date : Option (ℕ × ℕ × ℕ) → Option (ℕ × ℕ × ℕ) → Bool
same_date none none = true
same_date (some (y, m, d)) (some (z, n, e)) = (y == z) && (m == n) && (d == e)
same_date none (some b) = false
same_date (some a) none = false

-- `prev.get(market) != v` is its negation.
abbrev pub same_row : Option Row → Row → Bool
same_row none v = false
same_row (some p) v =
    str_eq p.state v.state && same_bool p.suspended v.suspended && same_date p.delisting v.delisting

-- What the socket gives: a ticker of a market, or an exception, a timeout or a message without
-- a code.
pub data Received : Type 0 where
  ticker : String → Ticker → Received
  failed : Received

-- The loop of `snapshot`: until there is a ticker of each code, or an exception.
abbrev pub snapshot : ℕ → List Received → Dict Ticker → Dict Ticker
snapshot codes [] got = got
snapshot codes (failed ∷ rs) got = got
snapshot codes (ticker c m ∷ rs) got =
    let rest = snapshot codes rs (set_default c m got) in
    if ltb (length got) codes then rest else got

pub data Kind : Type 0 where
  initial transition gone : Kind

-- A row of upbit_market_state_events.
pub record Event : Type 0 where
  pub observed_at : ℕ
  pub market : String
  pub kind : Kind
  pub row : Row

-- The state file: not there, not JSON, or what the last run wrote.
pub data File : Type 0 where
  absent broken : File
  saved : Dict Row → File

abbrev pub prev_of : Bool → File → Dict Row
prev_of force absent = []
prev_of force broken = []
prev_of force (saved s) = if force then [] else s

abbrev pub changed_of : ℕ → Dict Row → Dict Row → List Event
changed_of now prev [] = []
changed_of now prev ((k, v) ∷ cur) =
    let rest = changed_of now prev cur in
    if same_row (get k prev) v
    then rest
    else record {
      observed_at = now;
      market = k;
      kind = if is_empty prev then initial else transition;
      row = v;
    }
      ∷ rest

-- The markets of `prev` that `cur` does not have.
abbrev pub gone_of : ℕ → Dict Row → Dict Row → List Event
gone_of now [] cur = []
gone_of now ((k, v) ∷ prev) cur =
    let rest = gone_of now prev cur in
    if has k cur
    then rest
    else record {
      observed_at = now;
      market = k;
      kind = gone;
      row = record { state = "DELISTED"; suspended = true; delisting = v.delisting };
    }
      ∷ rest

-- The state file, the rows of the table, the latest run first, and the heartbeats.
pub record World : Type 0 where
  pub file : File
  pub table : List Event
  pub beats : List ℕ

-- A run: its options, its time, the number of the codes and what the socket gives (`none`: an
-- exception of the list or of the connection), whether the INSERT, the writing of the state
-- file and the heartbeat succeed.
pub record Run : Type 0 where
  pub force : Bool
  pub dry : Bool
  pub now : ℕ
  pub answer : Option (ℕ × List Received)
  pub stores : Bool
  pub writes : Bool
  pub beats : Bool

-- What `main` returns, `none` for an exception, and the world after it.
unfoldable pub poll : Run → World → Option ℕ × World
poll r w = elim r.answer [
  | none ↦ (none, w)
  | some a ↦
      let got = snapshot a.0 a.1 [] in
      let cur : Dict Row = map_values to_row got in
      let prev = prev_of r.force w.file in
      let rows = changed_of r.now prev cur ++ gone_of r.now prev cur in
      if is_empty got
      then (some 1, w)
      else if r.dry
      then (some 0, w)
      else if not r.stores && not (is_empty rows)
      then (none, w)
      else if not r.writes
      then (none, record w { table = rows ++ w.table; file = broken })
      else if r.beats
      then (some 0, record w { table = rows ++ w.table; file = saved cur; beats = r.now ∷ w.beats })
      else (none, record w { table = rows ++ w.table; file = saved cur })
]
