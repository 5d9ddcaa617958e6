-- ===== src/Trader/Reconcile.antt =====
-- virtual-trader/trader.py, `compare_ledger`, `my_summary` and `net_qty`: the ledger against what
-- the exchange tells of the day. A decimal text is read by a parameter, as whole units of the
-- smallest decimal; `net_qty` is a sum of signed units.
pub mod Agrees
mod Tests
use crypto_cdc_pipeline.Base.{
  ℕ, zero, suc, ◌+◌, ◌&&◌, ◌||◌, ◌==◌, Bool, true, false, not, String, str_eq, List, [], ◌∷◌, ◌++◌,
  leb, length, map, keep_if, if◌then◌else◌,
}
use crypto_cdc_pipeline.Base.Int.{ℤ, pos, ◌+ℤ◌, ◌-ℤ◌}
use crypto_cdc_pipeline.Trader.Ledger.{Order, Orders, Fill}

-- What allOrders tells of an order.
pub record ExOrder : Type 0 where
  pub status : String
  pub executed_qty : String

pub record Summary : Type 0 where
  pub orders : ℕ
  pub filled : ℕ
  pub canceled : ℕ
  pub opened : ℕ
  pub exec_qty : ℕ
  pub trades : ℕ
  pub trade_qty : ℕ

abbrev pub count_if {ℓ} : {A : Type ℓ} → (A → Bool) → List A → ℕ
count_if p [] = 0
count_if p (x ∷ xs) = if p x then suc (count_if p xs) else count_if p xs

abbrev pub sum_of {ℓ} : {A : Type ℓ} → (A → ℕ) → List A → ℕ
sum_of f [] = 0
sum_of f (x ∷ xs) = f x + sum_of f xs

-- The tests of `compare_ledger` on the exchange's status.
abbrev pub is_filled : String → Bool
is_filled s = str_eq s "FILLED"

abbrev pub is_canceled : String → Bool
is_canceled s =
    str_eq s "CANCELED" || str_eq s "EXPIRED" || str_eq s "EXPIRED_IN_MATCH" || str_eq s "REJECTED"

abbrev pub is_opened : String → Bool
is_opened s = str_eq s "NEW" || str_eq s "PARTIALLY_FILLED" || str_eq s "PENDING_NEW"

-- The WHERE of the two SELECTs of `my_summary`.
abbrev pub orders_of : String → ℕ → ℕ → Orders → Orders
orders_of symbol day_start epoch orders =
    keep_if
      (λ o.
        str_eq o.fixed.symbol symbol && leb day_start o.fixed.created_ms && o.reset_epoch == epoch)
      orders

abbrev pub fills_of : String → ℕ → List Fill → List Fill
fills_of symbol day_start fills =
    keep_if (λ f. str_eq f.symbol symbol && leb day_start f.filled_ms) fills

-- `status IN (...)`, and `COALESCE(SUM(status IN (...)), 0)`.
abbrev pub status_in : List String → String → Bool
status_in [] s = false
status_in (x ∷ xs) s = str_eq s x || status_in xs s

abbrev pub sum_status : List String → Orders → ℕ
sum_status names [] = 0
sum_status names (o ∷ os) = (if status_in names o.live.status then 1 else 0) + sum_status names os

abbrev differs : String → ℕ → ℕ → List String
differs name a b = if a == b then [] else name ∷ []

-- The names that the detail of `compare_ledger` starts its parts with.
abbrev pub diffs : Summary → Summary → List String
diffs ex my =
    differs "orders" ex.orders my.orders
    ++ (differs "filled" ex.filled my.filled
        ++ (differs "canceled" ex.canceled my.canceled
            ++ (differs "open" ex.opened my.opened
                ++ (differs "exec_qty" ex.exec_qty my.exec_qty
                    ++ (differs "trades" ex.trades my.trades
                        ++ differs "trade_qty" ex.trade_qty my.trade_qty)))))

abbrev pub some_diff : List String → Bool
some_diff [] = false
some_diff (d ∷ ds) = true

module _ (decimal : String → ℕ) where
  -- `ex`: the seven numbers of the exchange's orders and of the quantities of its trades.
  abbrev pub summarize : List ExOrder → List String → Summary
  summarize os qs = record {
    orders = length os;
    filled = count_if (λ o. is_filled o.status) os;
    canceled = count_if (λ o. is_canceled o.status) os;
    opened = count_if (λ o. is_opened o.status) os;
    exec_qty = sum_of (λ o. decimal o.executed_qty) os;
    trades = length qs;
    trade_qty = sum_of decimal qs;
  }

  unfoldable pub my_summary : String → ℕ → ℕ → Orders → List Fill → Summary
  my_summary symbol day_start epoch orders fills =
      let os = orders_of symbol day_start epoch orders in
      let fs = fills_of symbol day_start fills in
      record {
        orders = length os;
        filled = sum_status ("FILLED" ∷ []) os;
        canceled = sum_status ("CANCELED" ∷ "EXPIRED" ∷ "EXPIRED_IN_MATCH" ∷ "REJECTED" ∷ []) os;
        opened = sum_status ("NEW" ∷ "PARTIALLY_FILLED" ∷ "PENDING_NEW" ∷ []) os;
        exec_qty = sum_of (λ o. decimal o.live.executed_qty) os;
        trades = length fs;
        trade_qty = sum_of (λ f. decimal f.qty) fs;
      }

  -- `compare_ledger`: whether there is a mismatch, and where.
  unfoldable pub compare_ledger : List ExOrder → List String → Summary → Bool × List String
  compare_ledger ex_orders ex_trades my =
      let ds = diffs (summarize ex_orders ex_trades) my in (some_diff ds, ds)
