-- ===== src/Poller/Tests.antt =====
-- The pollers of the markets at concrete inputs.
use crypto_cdc_pipeline.Base.{
  ℕ, ◌≤◌, ◌<◌, subst, arith, Bool, true, false, ◌≡◌, refl, String, Option, none, some, List, [],
  ◌∷◌, ◌++◌, map, ◌==◌, not, if◌then◌else◌,
}
use crypto_cdc_pipeline.Poller.Dicts.{get}
use crypto_cdc_pipeline.Poller.{Ticker, Received, ticker, failed, gone, prev_of, Run, poll}
use crypto_cdc_pipeline.Poller.Replay.{last_event, listed, start, poll_all, poll_all-replays}
use crypto_cdc_pipeline.Poller.Flags.{
  warning, flag_index, Flags, Entry, FlagRun, flag_of, poll_flags,
}
use crypto_cdc_pipeline.Poller.Flags.Kept.{last_state, shown}
use crypto_cdc_pipeline.Poller.Flags.Steady.{
  saved_of, poll_flags_all, new_world, poll_flags_all-replays,
}
use crypto_cdc_pipeline.Poller.Notices.{mem, poll_notices}
use crypto_cdc_pipeline.Poller.Notices.Fresh.{BringsNew, poll_notices-mem}

abbrev active : Ticker
active = record {
  market_state = some "ACTIVE";
  is_trading_suspended = false;
  delisting_date = none;
}

abbrev halted : Ticker
halted = record active { is_trading_suspended = true; delisting_date = some (2026, 10, 1) }

abbrev run_of : ℕ → ℕ → List Received → Run
run_of now codes rs = record {
  force = false;
  dry = false;
  now = now;
  answer = some (codes, rs);
  stores = true;
  writes = true;
  beats = true;
}

abbrev two_runs : List Run
two_runs =
    run_of 1 2 (ticker "KRW-BTC" active ∷ ticker "KRW-XRP" active ∷ [])
    ∷ run_of 2 2 (ticker "KRW-XRP" halted ∷ failed ∷ [])
    ∷ []

-- A market of which no ticker came in time is written as delisted.
partial_test :
    last_event "KRW-BTC" (poll_all two_runs start).table
    ≡ some (record {
      observed_at = 2;
      market = "KRW-BTC";
      kind = gone;
      row = record { state = "DELISTED"; suspended = true; delisting = none };
    })
unfolding poll
partial_test = refl

poll_all-replays_example :
    listed (last_event "KRW-XRP" (poll_all two_runs start).table)
    ≡ get "KRW-XRP" (prev_of false (poll_all two_runs start).file)
poll_all-replays_example = poll_all-replays two_runs ((refl, refl), ((refl, refl), tt)) "KRW-XRP"

abbrev no_flag : Flags
no_flag f = false

abbrev only_warning : Flags
only_warning f = flag_index f == 0

abbrev join : String → String → String
join String.[] t = t
join (String.◌∷◌ c s) t = String.◌∷◌ c (join s t)

abbrev letters : List String
letters =
    "A" ∷ "B" ∷ "C" ∷ "D" ∷ "E" ∷ "F" ∷ "G" ∷ "H" ∷ "I" ∷ "J" ∷ "K" ∷ "L" ∷ "M" ∷ "N" ∷ "O" ∷ []

abbrev entries_of : Flags → List String → List Entry
entries_of fl [] = []
entries_of fl (x ∷ xs) = map (λ (y : String). (join x y, true, some fl)) letters ++ entries_of fl xs

abbrev flag_run : ℕ → List Entry → FlagRun
flag_run now es = record {
  force = false;
  now = now;
  answer = some es;
  stores = true;
  replaces = true;
}

abbrev flag_runs : List FlagRun
flag_runs = flag_run 1 (entries_of only_warning letters) ∷ []

poll_flags_all-replays_example :
    shown (last_state "AB" warning (poll_flags_all flag_runs new_world).table)
    ≡ flag_of (get "AB" (saved_of (poll_flags_all flag_runs new_world).file)) warning
poll_flags_all-replays_example = poll_flags_all-replays flag_runs refl "AB" warning

-- A market that is missing once and comes back without its flag keeps it in the table.
away_test :
    last_state "OO" warning
      (poll_flags_all
        (flag_run 1 (entries_of only_warning letters)
          ∷ flag_run 2 (
              entries_of no_flag (
                "A" ∷ "B" ∷ "C" ∷ "D" ∷ "E" ∷ "F" ∷ "G" ∷ "H" ∷ "I" ∷ "J" ∷ "K" ∷ "L" ∷ "M" ∷ "N"
                ∷ []))
          ∷ flag_run 3 (entries_of no_flag letters)
          ∷ [])
        new_world).table
    ≡ some true
unfolding poll_flags
away_test = refl

-- The second page fails after the first one.
abbrev notice_page : ℕ → Option (List ℕ)
notice_page p = if p == 1 then some (109 ∷ 108 ∷ 107 ∷ []) else none

abbrev has_body : ℕ → Bool
has_body n = not (n == 108)

poll_notices_test :
    poll_notices notice_page has_body false true (105 ∷ 106 ∷ 107 ∷ [])
    ≡ 109 ∷ 107 ∷ 105 ∷ 106 ∷ 107 ∷ []
unfolding poll_notices
poll_notices_test = refl

-- The first page brings a new notice, and the second a missed one.
abbrev two_pages : ℕ → Option (List ℕ)
two_pages p = if p == 2 then some (104 ∷ 101 ∷ []) else notice_page p

poll_notices-mem_example :
    mem 101 (poll_notices two_pages has_body false true (105 ∷ 106 ∷ 107 ∷ [])) ≡ true
poll_notices-mem_example =
    poll_notices-mem two_pages has_body false (105 ∷ 106 ∷ 107 ∷ []) 2 101 (104 ∷ 101 ∷ [])
      (omega arith) (omega arith) first_is_new refl refl refl
  where
    first_is_new : (p : ℕ) → 1 ≤ p → p < 2 → BringsNew two_pages (105 ∷ 106 ∷ 107 ∷ []) p
    first_is_new p above below =
        let is_one : 1 ≡ p = omega (arith, above, below) in
        subst (BringsNew two_pages (105 ∷ 106 ∷ 107 ∷ [])) is_one
          (109 ∷ 108 ∷ 107 ∷ [], refl, 109, refl, refl)
