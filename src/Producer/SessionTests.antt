-- ===== src/Producer/SessionTests.antt =====
-- The session and the gap-fill at concrete inputs.
use crypto_cdc_pipeline.Base.{
  ℕ, zero, suc, ◌+◌, ◌-◌, ◌/◌, ◌&&◌, leb, ltb, take, keep_if, ◌*◌, ◌≡◌, inl, inr, refl, map, true,
  false, none, some, List, [], ◌∷◌, ◌++◌, String, arith, All, length,
}
use crypto_cdc_pipeline.Base.Int.{ℤ, pos, negsuc, pos_part, ◌-ℤ◌, ◌+ℤ◌, ◌≤ℤ◌}
use crypto_cdc_pipeline.Producer.GapFill.{
  Tick, GapRow, ticks, too_many, http_error, Api, query, attempt, scan_page, fetch_pages,
  fetch_gap_rows,
}
use crypto_cdc_pipeline.Producer.GapFill.Complete.{all_wanted}
use crypto_cdc_pipeline.Producer.GapFill.Ordered.{is_below, Documents}
use crypto_cdc_pipeline.Producer.GapFill.Pages.{Fits, Listed, fetch_gap_rows_complete}
use crypto_cdc_pipeline.Producer.Writer.{Env, Writer, committed}
use crypto_cdc_pipeline.Producer.Fill.{gap_fill}
use crypto_cdc_pipeline.Producer.Fill.Whole.{rest_of, gap_fill_whole}
use crypto_cdc_pipeline.Producer.Session.{
  Raw, parse_trade, Config, flushed, subscribed, gap_filled, Session, open_fill, on_open,
  on_failure, tick_timers, Event, opened, received, timed_out, broken, step, run,
}
use crypto_cdc_pipeline.Producer.Session.Newest.{IsBelow}
use crypto_cdc_pipeline.Producer.Session.Windows.{reconnect-covers}

abbrev a_trade : ℕ → ℕ → Tick ℕ
a_trade ms id = record {
  timestamp = ms;
  trade_price = 3;
  trade_volume = 2;
  ask_bid = "BID";
  sequential_id = id;
}

abbrev newest_first : List (Tick ℕ)
newest_first = a_trade 1700000009000 3 ∷ a_trade 1700000005000 2 ∷ a_trade 1700000001000 1 ∷ []

-- The first attempt is refused with 429.
abbrev api : Api ℕ
api q zero = too_many
api q (suc k) = ticks newest_first

fetch_test :
    fetch_gap_rows ◌*◌ api 1700000020000 (pos 1700000004000) 1700000008000 ("KRW-BTC" ∷ []) ≡ (
      record {
        market = "KRW-BTC";
        price = 3;
        volume = 2;
        amount = 6;
        ask_bid = "BID";
        upbit_timestamp = 1700000005000;
        sequential_id = 2;
        ingest_source = "gapfill";
        stream_type = "REALTIME";
      }
          ∷ [],
      1,
    )
unfolding fetch_gap_rows fetch_pages scan_page attempt
fetch_test = refl

-- At a window that ends on the next day of UTC, `daysAgo` is -1.
query_test : (query 86399000 86401000 "KRW-BTC" none).days_ago ≡ negsuc 0
unfolding ◌-ℤ◌
query_test = refl

-- 1,200 trades, one a millisecond, at an API that gives nothing past the second.
abbrev many : ℕ → List (Tick ℕ)
many zero = []
many (suc n) = a_trade (1700000000000 + n) (suc n) ∷ many n

abbrev paged : Api ℕ
paged q zero = too_many
paged q (suc k) =
    let start = (1700000020000 / 86400000 - pos_part q.days_ago) * 86400000 in
    ticks (
      take q.count (
        keep_if
          (λ (t : Tick ℕ).
            leb start (t.timestamp + 0)
            && ltb t.timestamp (start + q.to * 1000 + 0)
            && is_below q.cursor t)
          (many 1200)))

paged-Documents : Documents paged 0 0 1700000020000 (λ m. many 1200)
paged-Documents m d s n cursor d_le s_lt n_le = inr (inl refl, inl refl)

many-Listed : Listed 0 0 1700000020000 (pos 1700000000100) 1700000001000 (λ m. many 1200) "KRW-BTC"
many-Listed = (refl, refl)

window-Fits : Fits 0 0 1700000020000 (pos 1700000000100) 1700000001000
unfolding ◌+ℤ◌
window-Fits = (omega arith, omega arith, omega arith, omega arith)

-- The window takes two pages.
pages_test :
    length
      (fetch_gap_rows ◌*◌ paged 1700000020000 (pos 1700000000100) 1700000001000 ("KRW-BTC" ∷ [])).0
    ≡ 900
unfolding fetch_gap_rows fetch_pages scan_page attempt ◌-ℤ◌
pages_test = refl

fetch_gap_rows_complete_example :
    let rows = all_wanted ◌*◌ (pos 1700000000100) 1700000001000 (λ m. many 1200) ("KRW-BTC" ∷ []) in
    fetch_gap_rows ◌*◌ paged 1700000020000 (pos 1700000000100) 1700000001000 ("KRW-BTC" ∷ [])
    ≡ (rows, length rows)
fetch_gap_rows_complete_example =
    fetch_gap_rows_complete ◌*◌ paged 0 0 1700000020000 (pos 1700000000100) 1700000001000
      (λ m. many 1200) ("KRW-BTC" ∷ []) paged-Documents window-Fits (many-Listed, tt)

abbrev env : Env (GapRow ℕ)
env = record {
  batch_size = 500;
  max_batches = 5;
  warn_rows = 100000;
  db = λ n rows. committed (length rows);
}

abbrev writer : Writer (GapRow ℕ)
writer = record {
  buffer = [];
  stats = record {
    received = 0;
    inserted = 0;
    duplicates = pos 0;
    errors = 0;
    last_report = 0;
    last_buffer_warn = 0;
    buffer_depth = 0;
  };
  log = [];
  calls = 0;
}

gap_fill_whole_example :
    let rows = all_wanted ◌*◌ (pos 1700000000100) 1700000001000 (λ m. many 1200) ("KRW-BTC" ∷ []) in
    let (r, w') =
      gap_fill ◌*◌
        (λ r. r)
        env
        paged
        1700000020000
        "reconnect"
        (pos 1700000000100)
        1700000001000
        ("KRW-BTC" ∷ [])
        writer in
    (rest_of r ≡ some (length rows)) × (w'.log ≡ [] ++ map (λ r. r) rows) × (w'.buffer ≡ [])
gap_fill_whole_example =
    gap_fill_whole (λ r. r) env ◌*◌ paged 0 0 1700000020000 "reconnect" (pos 1700000000100)
      1700000001000 (λ m. many 1200) ("KRW-BTC" ∷ []) writer paged-Documents window-Fits
      (many-Listed, tt) (λ n rows. (length rows, refl)) (omega arith)

abbrev closed_api : Api ℕ
closed_api q k = http_error

abbrev cfg : Config
cfg = record {
  gapfill_enabled = true;
  margin = 2000;
  startup_max = 1800000;
  batch_interval = 2000;
  refresh_interval = 300000;
  auto_refresh = true;
}

abbrev message : ℕ → Raw ℕ
message ms = record {
  cd = some "KRW-BTC";
  tp = some 3;
  tv = some 2;
  ab = some "ASK";
  ttms = some ms;
  sid = some 7;
  bap = none;
  bas = none;
  bbp = none;
  bbs = none;
  st = none;
}

abbrev markets : List String
markets = "KRW-BTC" ∷ []

abbrev fresh : Session
fresh = record {
  markets = markets;
  connected = false;
  last_event_ms = none;
  disconnected_ms = none;
  pending_startup_fill = none;
  last_flush = 0;
  last_report = 0;
  last_market_refresh = 0;
}

abbrev morning : List (Event ℕ)
morning = opened 10000 ∷ received 11000 none (some (message 10900)) ∷ timed_out 13000 none ∷ []

morning_state : (run ◌*◌ cfg morning fresh).1.last_event_ms ≡ some 10900
unfolding run step on_open open_fill tick_timers parse_trade ◌-ℤ◌
morning_state = refl

morning_pending : (run ◌*◌ cfg morning fresh).1.pending_startup_fill ≡ none
unfolding run step on_open open_fill tick_timers parse_trade ◌-ℤ◌
morning_pending = refl

-- A message without its time breaks the connection.
bad_message_test :
    step ◌*◌ cfg
      (received 500 none (some (record (message 0) { ttms = none })))
      (record fresh { connected = true })
    ≡ (flushed ∷ [], record fresh { disconnected_ms = some 500 })
unfolding step on_failure parse_trade
bad_message_test = refl

reconnect-covers_example :
    let (effects, s) = run ◌*◌ cfg morning fresh in
    let s' = (run ◌*◌ cfg (map broken (20000 ∷ 25000 ∷ [])) s).1 in
    All (IsBelow (some 10900)) effects
    × (lo : ℤ) × ((step ◌*◌ cfg (opened 30000) s').0
        ≡ subscribed s.markets ∷ gap_filled "reconnect" lo 32000 s.markets ∷ [])
    × (lo ≤ℤ pos 10900 -ℤ pos 2000)
    × (lo ≤ℤ pos 25000 -ℤ pos 2000)
reconnect-covers_example =
    reconnect-covers ◌*◌ cfg morning fresh 10900 20000 30000 (25000 ∷ []) refl morning_pending
      morning_state
