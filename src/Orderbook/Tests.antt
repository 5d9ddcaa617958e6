-- ===== src/Orderbook/Tests.antt =====
-- The collector of order books at concrete inputs.
use crypto_cdc_pipeline.Base.{◌+◌, ◌≡◌, refl, true, false, none, some, List, [], ◌∷◌}
use crypto_cdc_pipeline.Orderbook.{
  Collector, kept, raised, found, fetch_markets, Event, accepted, book, delivered, refreshed,
  failed, taken, buffer_full, refused, on_book, retry, on_failure, step, run,
}
use crypto_cdc_pipeline.Orderbook.Guard.{IsGuarded, run-IsGuarded}
use crypto_cdc_pipeline.Orderbook.Accounts.{accounted, escapes, run-accounted}

abbrev start : Collector
start = record {
  markets = "KRW-BTC" ∷ [];
  connected = false;
  backoff = 1;
  queue = 0;
  stats = record {
    received = 0;
    produced = 0;
    delivery_errors = 0;
    buffer_errors = 0;
    bytes = 0;
    reconnects = 0;
  };
}

abbrev busy : List Event
busy =
    failed
    ∷ accepted
    ∷ book 900 taken taken
    ∷ book 900 buffer_full buffer_full
    ∷ book 900 refused taken
    ∷ delivered false
    ∷ book 900 buffer_full refused
    ∷ []

-- The last book is lost, in no count, and its exception breaks the connection.
run_test : run busy start ≡ record start {
  backoff = 2;
  stats = record {
    received = 4;
    produced = 1;
    delivery_errors = 2;
    buffer_errors = 2;
    bytes = 3600;
    reconnects = 2;
  };
}
unfolding run step on_book retry on_failure
run_test = refl

fetch_test :
    (fetch_markets [] false (some ("KRW-BTC" ∷ [])) ≡ kept)
    × (fetch_markets [] true (some ("KRW-BTC" ∷ [])) ≡ found ("KRW-BTC" ∷ []))
    × (fetch_markets [] true none ≡ raised)
unfolding fetch_markets
fetch_test = (refl, refl, refl)

run-accounted_example :
    (run busy start).stats.received ≡ accounted (run busy start) + escapes busy start
run-accounted_example = run-accounted busy start refl

-- A reply of one market is not taken over.
run-IsGuarded_example :
    IsGuarded start (run (accepted ∷ refreshed (some ("KRW-ETH" ∷ [])) ∷ []) start)
run-IsGuarded_example = run-IsGuarded (accepted ∷ refreshed (some ("KRW-ETH" ∷ [])) ∷ []) start
