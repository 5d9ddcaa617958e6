-- ===== src/Trader/Reconcile/Tests.antt =====
-- The comparison of the trader's ledger with the exchange at concrete inputs.
use mathlib.Core.List.Perm
use crypto_cdc_pipeline.Base.{
  ℕ, ◌≡◌, refl, String, str_eq, true, false, none, List, [], ◌∷◌, if◌then◌else◌,
}
use crypto_cdc_pipeline.Trader.Ledger.{Order, Fill}
use crypto_cdc_pipeline.Trader.Reconcile.{ExOrder, my_summary, compare_ledger}
use crypto_cdc_pipeline.Trader.Reconcile.Agrees.{compare_ledger-agrees}

abbrev decimal : String → ℕ
decimal s = if str_eq s "2.0" then 20 else if str_eq s "1.0" then 10 else 0

abbrev order : ℕ → String → String → Order
order id status executed = record {
  order_id = id;
  fixed = record {
    symbol = "BTCUSDT";
    client_order_id = "mkr_1";
    side = "BUY";
    order_type = "LIMIT";
    time_in_force = none;
    price = "7.0";
    strategy = "maker-probe";
    created_ms = 5;
  };
  live = record {
    orig_qty = "2.0";
    executed_qty = executed;
    cum_quote_qty = "0";
    status = status;
    last_exec_type = "NEW";
    reject_reason = none;
    updated_ms = 6;
    last_exec_id = 1;
  };
  fill_count = 0;
  version = 1;
  reset_epoch = 0;
}

abbrev fill : Fill
fill = record {
  symbol = "BTCUSDT";
  fill_id = 9;
  order_id = 1;
  side = "BUY";
  price = "7.0";
  qty = "2.0";
  quote_qty = "14.0";
  commission = "0";
  commission_asset = none;
  is_maker = false;
  filled_ms = 12;
  exec_id = 40;
  strategy = "taker-ioc";
}

abbrev told : String → String → ExOrder
told status executed = record { status = status; executed_qty = executed }

-- A row of an earlier epoch, and one of the day before.
abbrev left_out : List Order
left_out =
    record (order 3 "FILLED" "1.0") { reset_epoch = 7 }
    ∷ record (order 4 "NEW" "1.0") {
      fixed = record ((order 4 "NEW" "1.0").fixed) { created_ms = 3 };
    }
    ∷ []

compare_ledger-agrees_example :
    compare_ledger decimal (told "CANCELED" "0" ∷ told "FILLED" "2.0" ∷ []) ("2.0" ∷ []) (
      my_summary decimal "BTCUSDT" 4 0
        (order 1 "FILLED" "2.0" ∷ order 2 "CANCELED" "0" ∷ left_out)
        (fill ∷ []))
    ≡ (false, [])
compare_ledger-agrees_example =
    compare_ledger-agrees decimal "BTCUSDT" 4 0
      (order 1 "FILLED" "2.0" ∷ order 2 "CANCELED" "0" ∷ left_out) (fill ∷ [])
      (told "CANCELED" "0" ∷ told "FILLED" "2.0" ∷ []) ("2.0" ∷ [])
      (Perm.swap (told "FILLED" "2.0") (told "CANCELED" "0") []) (Perm.refl ("2.0" ∷ []))

-- An order that the ledger has not heard of the end of.
late_test :
    compare_ledger decimal
      (told "FILLED" "2.0" ∷ [])
      ("2.0" ∷ [])
      (my_summary decimal "BTCUSDT" 4 0 (order 1 "NEW" "0" ∷ []) [])
    ≡ (true, "filled" ∷ "open" ∷ "exec_qty" ∷ "trades" ∷ "trade_qty" ∷ [])
unfolding compare_ledger my_summary
late_test = refl
