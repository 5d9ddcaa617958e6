-- ===== src/Trader/Ledger/Fills.antt =====
-- Fills: inserted once per key, and counted on the order only when the report is the newest.
use crypto_cdc_pipeline.Base.{
  ℕ, ◌+◌, ◌≤◌, ◌≡◌, ◌&&◌, ◌==◌, Bool, true, false, Option, some, List, [], ◌∷◌, arith,
  if◌then◌else◌, length, str_eq,
}
use crypto_cdc_pipeline.Trader.Ledger.{
  Report, OrderRow, Order, Orders, Fill, Ledger, update_order, upsert_order, find_order,
  insert_fill, apply_report, order_row_from_report, fill_row_from_report, strategy_of, or_text,
}

-- Is there a fill with this key?
unfoldable pub has_fill : Fill → List Fill → Bool
has_fill fill [] = false
has_fill fill (g ∷ gs) =
    if g.fill_id == fill.fill_id && str_eq g.symbol fill.symbol then true else has_fill fill gs

pub length-insert_fill :
    (fill : Fill) (gs : List Fill)
    → length (insert_fill fill gs) ≡ (if has_fill fill gs then length gs else length gs + 1)
unfolding insert_fill has_fill
length-insert_fill fill [] = ground arith
length-insert_fill fill (g ∷ gs) = ground (arith, length-insert_fill fill gs)

upsert_order-stale :
    (row : OrderRow) (n epoch : ℕ) (os : Orders) (o : Order)
    → find_order row.order_id os ≡ some o
    → row.live.last_exec_id ≤ o.live.last_exec_id
    → upsert_order row n epoch os ≡ os
unfolding upsert_order update_order find_order
upsert_order-stale row n epoch [] o h old = cc
upsert_order-stale row n epoch (p ∷ os) o h old =
    ground (arith, upsert_order-stale row n epoch os o)

abbrev pub fill_of : Report → Option Fill
fill_of ev = fill_row_from_report ev (strategy_of (or_text ev.orig_client_id ev.client_id))

-- A fill whose report arrives after a newer report of its order is stored in virtual_fills, and the
-- order's row stays as it is: its `fill_count` does not count the fill.
pub apply_report-late_fill :
    (ev : Report) (l : Ledger) (o : Order) (fill : Fill)
    → find_order ev.order_id l.orders ≡ some o
    → ev.exec_id ≤ o.live.last_exec_id
    → fill_of ev ≡ some fill
    → has_fill fill l.fills ≡ false
    → let l' = apply_report ev l in (l'.orders ≡ l.orders) × (length l'.fills ≡ length l.fills + 1)
unfolding apply_report order_row_from_report
apply_report-late_fill ev l o fill h old f fresh = (
  upsert_order-stale (row ev) _ l.epoch l.orders o h old,
  rw f (rw (length-insert_fill fill l.fills) (rw fresh)),
)
  where
    row : Report → OrderRow
    row e = order_row_from_report e (strategy_of (or_text e.orig_client_id e.client_id))
