-- ===== src/Trader/Main/Tests.antt =====
-- The main loop at concrete times.
use crypto_cdc_pipeline.Base.{
  ℕ, ◌+◌, ◌<◌, ◌≡◌, ◌⊎◌, ◌++◌, refl, Bool, true, false, List, [], ◌∷◌, arith,
}
use crypto_cdc_pipeline.Trader.Main.{
  snapshot, reconcile, check_reset, cycle, stats, Job, adopt, timed, Config, Tick, now_of, works,
  tick, start,
}
use crypto_cdc_pipeline.Trader.Main.Timers.{
  timed_index, Began, runs_of, Spaced, jobs-Spaced, after, last_now, tick_overdue,
}

abbrev config : Config
config = record { cycle_sec = 3600; stats_interval = 300; started = 1000000 }

-- Adopting takes 1 s, the snapshot 3 s, any other job none.
abbrev took : Job → ℕ
took adopt = 1
took (timed snapshot) = 3
took (timed reconcile) = 0
took (timed check_reset) = 0
took (timed cycle) = 0
took (timed stats) = 0

abbrev at : Bool → ℕ → Tick
at connects opened = record { connects = connects; opened = opened; took = took; stays = connects }

abbrev ticks : List Tick
ticks =
    at false 1000001 ∷ at true 1000010 ∷ at true 1000600 ∷ at true 1000611 ∷ at true 1003611 ∷ []

abbrev resets : List Began
resets =
    record { now = 1000011; begins = 1000014; late = 3 }
    ∷ record { now = 1000611; begins = 1000611; late = 3 }
    ∷ record { now = 1003611; begins = 1003614; late = 3 }
    ∷ []

runs_test : runs_of config check_reset ticks (start 1000000) ≡ resets
unfolding tick
runs_test = refl

jobs-Spaced_example : Spaced 600 0 (runs_of config check_reset ticks (start 1000000))
jobs-Spaced_example = jobs-Spaced config 1000000 ticks check_reset

-- The socket is there at the last of the ticks, since the one before has left it.
works_last : works (at true 1004000) (after config ticks (start 1000000)) ≡ true
unfolding tick
works_last = refl

tick_overdue_example :
    let s = after config ticks (start 1000000) in
    let runs = runs_of config cycle (ticks ++ at true 1004000 ∷ []) (start 1000000) in
    (now_of (at true 1004000) s < last_now 0 runs + 3600)
    ⊎ ((timed_index cycle ≡ 1) × (now_of (at true 1004000) s < 1000000 + 120))
tick_overdue_example =
    tick_overdue config 1000000 ticks (at true 1004000) cycle works_last (omega arith)
