-- ===== src/Notify/Tests.antt =====
-- The notices of the alert levels at concrete inputs.
use crypto_cdc_pipeline.Base.{ℕ, ◌+◌, ◌≡◌, refl, true, false, List, [], ◌∷◌, ltb, if◌then◌else◌}
use crypto_cdc_pipeline.Notify.{Rise, Run, count, notify}
use crypto_cdc_pipeline.Notify.Exactly.{all_sent, all_missed, table_after, candidates, told-once}

abbrev zil : Rise
zil = record { market = "KRW-ZIL"; alert_type = "PRICE_24H"; level = 1; hour = 7 }

abbrev rise : ℕ → Rise
rise hour = record { market = "KRW-XRP"; alert_type = "SPIKE"; level = 2; hour = hour }

-- The rise of 07:32 and of 07:34, in overlapping windows, and eleven others after it.
abbrev others : List Rise
others =
    rise 0
    ∷ rise 1
    ∷ rise 2
    ∷ rise 3
    ∷ rise 4
    ∷ rise 5
    ∷ rise 6
    ∷ rise 7
    ∷ rise 8
    ∷ rise 9
    ∷ rise 10
    ∷ []

abbrev runs : List Run
runs =
    record { answers = true; rows = zil ∷ zil ∷ others; delivered = true; stores = true }
    ∷ record { answers = false; rows = []; delivered = true; stores = true }
    ∷ record { answers = true; rows = zil ∷ []; delivered = true; stores = true }
    ∷ []

-- The eleventh and the twelfth are in alert_events, and are never sent.
missed_test : all_missed runs [] ≡ rise 9 ∷ rise 10 ∷ []
unfolding notify
missed_test = refl

told-once_example :
    let once : ℕ = if ltb 0 (candidates zil runs) then 1 else 0 in
    (count zil (table_after runs []) ≡ once)
    × (count zil (all_sent runs []) + count zil (all_missed runs []) ≡ once)
told-once_example = told-once runs (refl, (refl, (refl, tt))) zil
