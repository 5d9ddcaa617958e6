-- ===== src/Trader/Api/Tests.antt =====
-- The connection of the trader at concrete inputs.
use crypto_cdc_pipeline.Base.{◌≡◌, refl, true, false, List, [], ◌∷◌}
use crypto_cdc_pipeline.Trader.Api.{
  Api, Event, call, reply, timeout, closed_cleanly, run_pass, timed_out, ws_closed, reader_ended,
  make_call, connect_pass, step, run,
}
use crypto_cdc_pipeline.Trader.Api.Stuck.{IsDead, count_results, closed_cleanly-stuck}
use crypto_cdc_pipeline.Trader.Api.Calls.{IsCounted, run-IsCounted}

abbrev start : Api
start = record {
  connected = false;
  reading = false;
  subscribed = false;
  pending = [];
  reconnects = 0;
  errors = 0;
  calls = 0;
  replies = [];
}

abbrev up : Api
up = record start { connected = true; reading = true; subscribed = true; reconnects = 1 }

abbrev busy : List Event
busy = call 1 ∷ call 2 ∷ timeout 1 ∷ reply 1 ∷ run_pass true true ∷ []

-- The late reply of a call that was given up ends the reader, and with it the other call.
late_test : (run busy up).replies ≡ (2, ws_closed) ∷ (1, timed_out) ∷ []
unfolding step make_call reader_ended connect_pass
late_test = refl

-- A connection on which the log-on failed counts as connected: nothing logs on again.
unlogged_test : (run (run_pass true false ∷ run_pass true true ∷ []) start).subscribed ≡ false
unfolding step connect_pass
unlogged_test = refl

closed_cleanly-stuck_example :
    IsDead (run busy (step closed_cleanly up))
    × ((run busy (step closed_cleanly up)).reconnects ≡ up.reconnects)
    × (count_results (run busy (step closed_cleanly up)).replies ≡ count_results up.replies)
closed_cleanly-stuck_example = closed_cleanly-stuck up busy refl

run-IsCounted_example : IsCounted (run busy up)
run-IsCounted_example = run-IsCounted busy up refl
