-- ===== src/Reconcile/Tests.antt =====
-- The fetch of the candles at concrete inputs.
use crypto_cdc_pipeline.Base.{
  ℕ, true, false, inl, inr, Bool-cases, String, Option, some, List, ◌≡◌, refl, str_eq, ◌==◌, none,
  [], ◌∷◌, ◌<◌, arith, if◌then◌else◌,
}
use crypto_cdc_pipeline.Reconcile.{
  Candle, no_reply, reply, escaped, Exchange, fetch_market, fetch_hourly_candles, summary, raised,
  summarize, passed, fetch_listing, daily_candle_first,
}
use crypto_cdc_pipeline.Reconcile.Fetch.{
  In, first, later, Gives, Readable, fetch_hourly_candles-complete,
}

abbrev candle : ℕ → ℕ → Candle
candle d h = record { day = d; hour = h; volume = 1; amount = 9 }

-- Bitcoin is refused once; the other market is not found.
abbrev api : Exchange
api m k =
    if str_eq m "KRW-BTC"
    then (if k == 0
        then reply 429 none
        else reply 200 (some (candle 20000 5 ∷ candle 19999 23 ∷ [])))
    else reply 404 none

fetch_test :
    fetch_hourly_candles api true 20000 ("KRW-BTC" ∷ "KRW-X" ∷ [])
    ≡ (("KRW-BTC", candle 20000 5) ∷ [], raised ("KRW-X" ∷ []))
unfolding fetch_hourly_candles fetch_market
fetch_test = refl

-- A timeout at another market, or an INSERT that fails: nothing is inserted.
abbrev broken : Exchange
broken m k = if str_eq m "KRW-X" then no_reply else api m k

broken_test : fetch_hourly_candles broken true 20000 ("KRW-BTC" ∷ "KRW-X" ∷ []) ≡ ([], escaped)
unfolding fetch_hourly_candles fetch_market
broken_test = refl

unstored_test : fetch_hourly_candles api false 20000 ("KRW-BTC" ∷ []) ≡ ([], escaped)
unfolding fetch_hourly_candles fetch_market
unstored_test = refl

-- Without markets, and without cells to compare, all is well.
nothing_test : fetch_hourly_candles api true 20000 [] ≡ ([], summary 0 0 [])
unfolding fetch_hourly_candles
nothing_test = refl

no_cells_test : summarize true (record { cells = 0; cells_below = 0 }) ≡ passed
unfolding summarize
no_cells_test = refl

listing_test :
    fetch_listing none (λ k. if k == 0 then none else some (20000 ∷ 19998 ∷ 19999 ∷ []))
    ≡ record { listing_date_est = some 19998; source = daily_candle_first; lookback_days = 3 }
unfolding fetch_listing
listing_test = refl

btc-Gives : Gives api "KRW-BTC" (candle 20000 5 ∷ candle 19999 23 ∷ [])
btc-Gives = (1, omega arith, too_many, refl)
  where
    too_many : (j : ℕ) → j < 1 → (body : Option (List Candle)) × (api "KRW-BTC" j ≡ reply 429 body)
    too_many j lt = let e : (j == 0) ≡ true = ground (arith, lt) in (none, rw e refl)

api-Readable : (m : String) → Readable api m
api-Readable m k lt = elim (Bool-cases (str_eq m "KRW-BTC")) [
  | inl btc ↦ elim (Bool-cases (k == 0)) [ inl e ↦ rw (btc, e) refl | inr e ↦ rw (btc, e) refl ]
  | inr other ↦ rw other refl
]

fetch_hourly_candles-complete_example :
    In
      ("KRW-BTC", candle 20000 5)
      (fetch_hourly_candles api true 20000 ("KRW-X" ∷ "KRW-BTC" ∷ [])).0
fetch_hourly_candles-complete_example =
    fetch_hourly_candles-complete api true 20000 ("KRW-X" ∷ "KRW-BTC" ∷ []) "KRW-BTC"
      (candle 20000 5 ∷ candle 19999 23 ∷ []) (candle 20000 5)
      (api-Readable "KRW-X", (api-Readable "KRW-BTC", tt)) refl (later first) btc-Gives first refl
