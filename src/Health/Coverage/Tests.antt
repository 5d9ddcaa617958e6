-- ===== src/Health/Coverage/Tests.antt =====
-- The coverage check at concrete inputs.
use crypto_cdc_pipeline.Base.{ℕ, ◌≡◌, ◌↔◌, refl, false, String, some, List, [], ◌∷◌}
use crypto_cdc_pipeline.Reconcile.Fetch.{In}
use crypto_cdc_pipeline.Health.Checks.{coverage_issues}
use crypto_cdc_pipeline.Health.Coverage.{State, check_market_coverage, coverage_verdict}
use crypto_cdc_pipeline.Health.Coverage.Shown.{IsMissing, Descending, coverage_told}

abbrev exchange : List (String × ℕ)
exchange = ("KRW-A", 90000000) ∷ ("KRW-B", 99930000) ∷ ("KRW-C", 99000000) ∷ []

abbrev ours : List (String × ℕ)
ours = ("KRW-B", 99930000) ∷ []

abbrev states : List (String × State)
states = ("KRW-C", record { market_state = "DELISTED"; is_tradable = false }) ∷ []

-- The first is 10000 seconds behind, the second complete, the third not traded any more.
count_test : (check_market_coverage 100000000 exchange ours states).missing_count ≡ 1
unfolding check_market_coverage coverage_verdict
count_test = refl

coverage_told_example :
    ((coverage_issues (some (check_market_coverage 100000000 exchange ours states).missing_count)
        ≡ "Market Coverage" ∷ [])
      ↔ ((x : String × ℕ) × In x exchange × IsMissing 100000000 ours states x))
    × Descending (check_market_coverage 100000000 exchange ours states).missing
coverage_told_example = coverage_told 100000000 exchange ours states
