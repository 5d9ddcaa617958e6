-- ===== src/Trader/Ledger/Upsert.antt =====
-- The upsert of orders: idempotent, and independent of the order of arrival where that matters.
use crypto_cdc_pipeline.Base.{
  ℕ, ◌≡◌, ◌≢◌, refl, ◌==◌, Option, none, some, [], ◌∷◌, arith, if◌then◌else◌,
}
use crypto_cdc_pipeline.Trader.Ledger.{
  Live, OrderRow, Order, Orders, update_order, upsert_order, find_order,
}

abbrev inserted : OrderRow → ℕ → ℕ → Order
inserted row n epoch = record {
  order_id = row.order_id;
  fixed = row.fixed;
  live = row.live;
  fill_count = n;
  version = 1;
  reset_epoch = epoch;
}

abbrev upserted : OrderRow → ℕ → ℕ → Option Order → Order
upserted row n epoch none = inserted row n epoch
upserted row n epoch (some o) = update_order row n o

-- The upsert changes the row of its key and no other.
pub find_order-upsert_order :
    (row : OrderRow) (n epoch id : ℕ) (os : Orders)
    → find_order id (upsert_order row n epoch os) ≡ (
        if row.order_id == id
        then some (upserted row n epoch (find_order id os))
        else find_order id os)
unfolding find_order upsert_order update_order
find_order-upsert_order row n epoch id [] = refl
find_order-upsert_order row n epoch id (o ∷ os) =
    ground (arith, find_order-upsert_order row n epoch id os)

-- A report that arrives again changes nothing: the second upsert of the same row leaves the table.
pub upsert_order-idempotent :
    (row : OrderRow) (n n' epoch : ℕ) (os : Orders)
    → upsert_order row n' epoch (upsert_order row n epoch os) ≡ upsert_order row n epoch os
unfolding upsert_order update_order
upsert_order-idempotent row n n' epoch [] = ground arith
upsert_order-idempotent row n n' epoch (o ∷ os) =
    ground (arith, upsert_order-idempotent row n n' epoch os)

abbrev pub live_of : Option Order → Option Live
live_of none = none
live_of (some o) = some o.live

-- Two reports of different executions leave the same status and quantities whichever comes first.
pub upsert_order_comm :
    (a b : OrderRow) (n m epoch id : ℕ) (os : Orders)
    → a.live.last_exec_id ≢ b.live.last_exec_id
    → live_of (find_order id (upsert_order a n epoch (upsert_order b m epoch os)))
      ≡ live_of (find_order id (upsert_order b m epoch (upsert_order a n epoch os)))
unfolding update_order
upsert_order_comm a b n m epoch id os ne = simp find_order-upsert_order (ground arith)
