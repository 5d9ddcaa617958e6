-- ===== src/Binance/Tests.antt =====
-- The collector at concrete inputs.
use crypto_cdc_pipeline.Base.{
  ◌≡◌, refl, true, List, [], ◌∷◌, ◌++◌, drop, length, String, arith, All,
}
use crypto_cdc_pipeline.Base.Int.{◌-ℤ◌}
use crypto_cdc_pipeline.Binance.{
  Config, Conn, make_conn, zero_stats, Event, accepted, frame, timeout, failed, handed_over, chunks,
  chunks_loop, refresh, step, run, leave, next_turn, on_timeout, on_frame, on_failure,
}
use crypto_cdc_pipeline.Binance.Refresh.{carried, regrouped, refresh-carried}

abbrev cfg : Config
cfg = record { streams_per_conn = 2; reconnect_before = 82800; idle_limit = 4 }

abbrev symbols : List String
symbols = "ADAUSDT" ∷ "BTCUSDT" ∷ "ETHUSDT" ∷ []

chunks_test : chunks symbols 2 ≡ ("ADAUSDT" ∷ "BTCUSDT" ∷ []) ∷ ("ETHUSDT" ∷ []) ∷ []
unfolding chunks_loop
chunks_test = refl

abbrev conns : List Conn
conns = make_conn ("ADAUSDT" ∷ "BTCUSDT" ∷ []) ∷ make_conn ("ETHUSDT" ∷ []) ∷ []

-- The list shrinks to one group: the second connection keeps a symbol that is gone.
shrink_test : carried (refresh cfg ("BTCUSDT" ∷ []) (symbols, conns)).1 ≡ "BTCUSDT" ∷ "ETHUSDT" ∷ []
unfolding refresh chunks_loop
shrink_test = refl

refresh-carried_example :
    let (symbols', conns') = refresh cfg ("BTCUSDT" ∷ []) (symbols, conns) in
    let groups = chunks ("BTCUSDT" ∷ []) 2 in
    (symbols' ≡ "BTCUSDT" ∷ [])
    × (carried conns' ≡ ("BTCUSDT" ∷ []) ++ carried (drop (length groups) conns))
    × All (λ (c : Conn). c.resubscribe ≡ true) (regrouped groups conns conns')
refresh-carried_example = refresh-carried cfg ("BTCUSDT" ∷ []) symbols conns (omega arith) refl

abbrev fresh : Conn
fresh = make_conn symbols

abbrev events : List Event
events = failed ∷ failed ∷ accepted 100 ∷ frame 101 handed_over ∷ timeout 131 ∷ []

run_test : run cfg events fresh ≡ record fresh {
  connected = true;
  opened = 100;
  idle_timeouts = 1;
  stats = record zero_stats { recv = 1; reconnects = 2 };
}
unfolding run next_turn on_timeout on_frame on_failure ◌-ℤ◌
run_test = refl

leave_test : (leave (record fresh { connected = true })).stats.reconnects ≡ 1
unfolding leave
leave_test = refl

step_test : (step cfg failed fresh).backoff ≡ 2
unfolding step
step_test = refl

abbrev up : Conn
up = record fresh { connected = true }
