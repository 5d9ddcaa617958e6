-- ===== src/Trader/Tests.antt =====
-- Runs of the trader, and its theorems at concrete inputs. A unit is a hundredth.
use crypto_cdc_pipeline.Base.{◌≡◌, refl, true, false, none, some, List, [], ◌∷◌, arith, All}
use crypto_cdc_pipeline.Base.Int.{pos, negsuc, ◌-ℤ◌}
use crypto_cdc_pipeline.Trader.Plan.{
  SymbolFilters, Plan, maker_order, taker_order, unwind_order, quantize, maker_plans, unwind_plans,
  plan_orders,
}
use crypto_cdc_pipeline.Trader.Plan.Sound.{IsSound, plan_orders-IsSound}
use crypto_cdc_pipeline.Trader.Ledger.Positions.{snapshot_positions, position_of}
use crypto_cdc_pipeline.Trader.Ledger.{
  Report, OrderRow, Order, Fill, Ledger, upsert_order, find_order, fill_row_from_report,
  strategy_of,
}
use crypto_cdc_pipeline.Trader.Ledger.Upsert.{live_of, upsert_order_comm}
use crypto_cdc_pipeline.Trader.Ledger.Fills.{fill_of, has_fill}
use crypto_cdc_pipeline.Trader.Events.{
  Event, execution_report, other, Trader, MysqlUp, on_event, deliver, on_event-redelivered,
}
use crypto_cdc_pipeline.Trader.Cycle.{
  Config, Market, Cycle, cycle, cycle_symbol, trade_symbol, place_all, place, amend_keep_priority,
  cancel, amend_then_cancel,
}

-- tick 0.01, step 0.05, at least 5
abbrev filters : SymbolFilters
filters = record { tick_size = 1; step_size = 5; min_notional = 500; amend_allowed = true }

-- 20 at an ask of 7.00 is 2.857..., so 2.85.
abbrev planned : List Plan
planned = maker_order 690 285 ∷ taker_order 700 285 ∷ unwind_order 695 120 ∷ []

plan_orders-planned : plan_orders 100 filters 695 700 (pos 123) 2000 5 ≡ some planned
unfolding plan_orders quantize maker_plans unwind_plans ◌-ℤ◌
plan_orders-planned = refl

no_ask : plan_orders 100 filters 695 0 (pos 0) 2000 5 ≡ none
unfolding plan_orders quantize
no_ask = refl

abbrev coarse : SymbolFilters
coarse = record filters { tick_size = 5 }

abbrev coarsely_planned : List Plan
coarsely_planned = maker_order 670 285 ∷ taker_order 700 285 ∷ unwind_order 695 120 ∷ []

plan_orders-coarse : plan_orders 100 coarse 695 700 (pos 123) 2000 5 ≡ some coarsely_planned
unfolding plan_orders quantize maker_plans unwind_plans ◌-ℤ◌
plan_orders-coarse = refl

plan_orders-IsSound_example : All (IsSound 100 coarse 695 700 (pos 123) 2000 5) coarsely_planned
plan_orders-IsSound_example =
    plan_orders-IsSound 100 coarse 695 700 (pos 123) 2000 5 coarsely_planned refl refl
      plan_orders-coarse

abbrev report : Report
report = record {
  order_id = 1;
  symbol = "BTCUSDT";
  orig_client_id = none;
  client_id = "ioc_20260919_BTCUSDT_1_5";
  side = "BUY";
  order_type = "LIMIT";
  time_in_force = some "IOC";
  price = "7.00";
  orig_qty = "2.85";
  executed_qty = "2.85";
  cum_quote_qty = "19.95";
  status = "FILLED";
  exec_type = "TRADE";
  reject_reason = none;
  created_ms = 10;
  event_ms = 12;
  exec_id = 40;
  trade_id = pos 9;
  last_price = "7.00";
  last_qty = "2.85";
  last_quote_qty = "19.95";
  commission = none;
  commission_asset = none;
  is_maker = false;
  trade_ms = 12;
}

strategy_test : strategy_of "ioc_20260919_BTCUSDT_1_5" ≡ "taker-ioc"
unfolding strategy_of
strategy_test = refl

abbrev newer : Report
newer = record report {
  status = "EXPIRED";
  exec_type = "EXPIRED";
  exec_id = 41;
  trade_id = negsuc 0;
}

abbrev row : OrderRow
row = record {
  order_id = 1;
  fixed = record {
    symbol = "BTCUSDT";
    client_order_id = "a";
    side = "BUY";
    order_type = "LIMIT";
    time_in_force = none;
    price = "7.00";
    strategy = "maker-probe";
    created_ms = 10;
  };
  live = record {
    orig_qty = "2";
    executed_qty = "0";
    cum_quote_qty = "0";
    status = "NEW";
    last_exec_type = "NEW";
    reject_reason = none;
    updated_ms = 11;
    last_exec_id = 50;
  };
}

abbrev row' : OrderRow
row' = record row { live = record (row.live) { status = "FILLED"; last_exec_id = 51 } }

upsert_order_comm_example :
    live_of (find_order 1 (upsert_order row 0 0 (upsert_order row' 1 0 [])))
    ≡ live_of (find_order 1 (upsert_order row' 1 0 (upsert_order row 0 0 [])))
upsert_order_comm_example = upsert_order_comm row row' 0 1 0 1 [] (omega arith)

abbrev stored : Order
stored = record {
  order_id = 1;
  fixed = row.fixed;
  live = row.live;
  fill_count = 0;
  version = 1;
  reset_epoch = 3;
}

abbrev filled : Order
filled = record stored { order_id = 2; live = record (row.live) { status = "FILLED" } }

abbrev ledger : Ledger
ledger = record { orders = stored ∷ filled ∷ []; fills = []; epoch = 3 }

stored_found : find_order 1 ledger.orders ≡ some stored
unfolding find_order
stored_found = refl

abbrev late_fill : Fill
late_fill = record {
  symbol = "BTCUSDT";
  fill_id = 9;
  order_id = 1;
  side = "BUY";
  price = "7.00";
  qty = "2.85";
  quote_qty = "19.95";
  commission = "0";
  commission_asset = none;
  is_maker = false;
  filled_ms = 12;
  exec_id = 40;
  strategy = "taker-ioc";
}

report_fills : fill_of report ≡ some late_fill
unfolding fill_row_from_report strategy_of
report_fills = refl

no_fills : has_fill late_fill [] ≡ false
unfolding has_fill
no_fills = refl

abbrev older_ledger : Ledger
older_ledger = record ledger { epoch = 4 }

abbrev trader : Trader
trader = record {
  ledger = ledger;
  recorded = [];
  stats = record { events = 0; dup_events = 0; fills = 0; errors = 0 };
}

abbrev up : MysqlUp
up = record { recording = true; applying = true }

abbrev half_up : MysqlUp
half_up = record { recording = true; applying = false }

-- Another event, and one that MySQL does not take.
abbrev between : List (Event × MysqlUp)
between =
    (other "balanceUpdate" 13, up)
    ∷ (execution_report report, record { recording = false; applying = false })
    ∷ []

on_event-redelivered_example :
    let before = deliver between (on_event (execution_report newer) up trader) in
    let again = on_event (execution_report newer) half_up before in
    (again.ledger ≡ before.ledger) × (again.recorded ≡ before.recorded)
on_event-redelivered_example =
    on_event-redelivered (execution_report newer) up half_up between trader refl

abbrev config : Config
config = record { one = 100; notional = 2000; maker_ticks = 5; max_orders = 288 }

abbrev market : Market
market = record {
  filters = λ s. some filters;
  orders_today = λ s. 287;
  net_qty = λ s. pos 123;
  book_ticker = λ s. some (695, 700);
  answer = λ r. some 77;
}

abbrev idle : Cycle
idle = record { requests = []; tasks = []; orders = 0; errors = 0 }

abbrev after : Cycle
after = record {
  requests =
      record { symbol = "BTCUSDT"; plan = maker_order 690 285; number = 288 }
      ∷ record { symbol = "BTCUSDT"; plan = taker_order 700 285; number = 289 }
      ∷ record { symbol = "BTCUSDT"; plan = unwind_order 695 120; number = 290 }
      ∷ [];
  tasks = record { symbol = "BTCUSDT"; order_id = 77; qty = 285; price = 690 } ∷ [];
  orders = 3;
  errors = 0;
}

cycle-after : cycle config market ("BTCUSDT" ∷ []) idle ≡ some after
unfolding cycle cycle_symbol trade_symbol place_all place plan_orders quantize maker_plans
    unwind_plans ◌-ℤ◌
cycle-after = refl

amended :
    amend_then_cancel 100 (some filters) true true 285 690
    ≡ some (amend_keep_priority 140 ∷ cancel ∷ [])
unfolding amend_then_cancel quantize
amended = refl

-- An asset that is spent keeps its row of the day.
spent_test :
    position_of 20000 "BTC" (
      snapshot_positions 1728003600000 1 (record { asset = "BTC"; free = 0; locked = 0 } ∷ []) (
        snapshot_positions 1728000000000 1
          (record { asset = "BTC"; free = 5; locked = 0 } ∷ [])
          []))
    ≡ some (record {
      as_of_day = 20000;
      asset = "BTC";
      free = 5;
      locked = 0;
      snapshot_ms = 1728000000000;
      reset_epoch = 1;
    })
unfolding snapshot_positions
spent_test = refl
