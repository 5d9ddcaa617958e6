-- ===== src/Daily/Tests.antt =====
-- The daily pipeline at concrete inputs.
use crypto_cdc_pipeline.Base.{
  ℕ, ◌*◌, ◌+◌, ◌≡◌, ◌≤◌, ◌↔◌, refl, none, some, List, [], ◌∷◌, length, String,
}
use crypto_cdc_pipeline.Daily.{
  Answers, Row, or_zero, get_target_date, kst_day_bounds_ms, dup_rows, check_duplicates, GateResult,
  quality_gate, returned, below_rate, gate_result, dict, validate_coin, low_trade_count,
  null_price_ratio,
}
use crypto_cdc_pipeline.Daily.Gate.{validate_coins, count_healthy, quality_gate-healthy}
use crypto_cdc_pipeline.Daily.Slices.{Once, check_duplicates-whole}

abbrev good : Answers
good = record { count_result = some 5000; null_result = some 3; latency_result = none }

abbrev thin : Answers
thin = record { count_result = some 99; null_result = some 101; latency_result = some 100 }

thin_issues :
    (validate_coin "KRW-X" 20000 thin).issues ≡ low_trade_count 99 ∷ null_price_ratio 101 ∷ []
unfolding validate_coin
thin_issues = refl

abbrev coins : List (String × Answers)
coins = ("KRW-X", thin) ∷ []

quality_gate-healthy_example :
    ((g : GateResult) × (quality_gate (validate_coins 20000 (("KRW-BTC", good) ∷ coins)) none
        ≡ returned g))
    ↔ ((or_zero none ≡ 0)
        × (1799 * length {A = String × Answers} (("KRW-BTC", good) ∷ coins)
            ≤ 2000 * count_healthy (("KRW-BTC", good) ∷ coins)))
quality_gate-healthy_example = quality_gate-healthy 20000 ("KRW-BTC", good) coins none

target_test : get_target_date (some 19999) 20000 ≡ 19999
unfolding get_target_date
target_test = refl

-- Without results the duplicates are not looked at.
empty_test :
    quality_gate [] (some 7)
    ≡ returned (record {
      passed = 0;
      failed = 0;
      total = 0;
      failed_coins = [];
      pass_rate = none;
      duplicate_rows = none;
    })
unfolding quality_gate
empty_test = refl

duplicate_test :
    quality_gate (dict (validate_coin "KRW-BTC" 20000 good) ∷ []) (some 1)
    ≡ below_rate (gate_result (dict (validate_coin "KRW-BTC" 20000 good) ∷ []) 1)
unfolding quality_gate validate_coin
duplicate_test = refl

abbrev row : ℕ → ℕ → Row
row t id = record { upbit_timestamp = t; source_ts = t + 5; trade_id = id }

abbrev rows : List Row
rows = row 50000000 1 ∷ row 50000000 1 ∷ row 57600000 2 ∷ row 60000000 2 ∷ []

rows-Once : Once rows
rows-Once = (
  ((λ _. refl), ((λ e. cc), ((λ e. cc), tt))),
  (((λ e. cc), ((λ e. cc), tt)), (((λ e. cc), tt), (tt, tt))),
)

check_duplicates-whole_example :
    check_duplicates 1 rows ≡ dup_rows (kst_day_bounds_ms 1).0 (kst_day_bounds_ms 1).1 rows
check_duplicates-whole_example = check_duplicates-whole 1 rows rows-Once
