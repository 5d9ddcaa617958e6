-- ===== src/Trader/Ledger/Reset.antt =====
-- What a reset deletes and what it keeps.
use crypto_cdc_pipeline.Base.{
  ℕ, ◌+◌, ◌≤◌, ◌<◌, ◌≡◌, ◌≢◌, refl, ◌==◌, false, not, Option, none, some, List, [], ◌∷◌, arith, All,
  keep_if, Bool-cases, Option-cases, some-eq, inl, inr,
}
use crypto_cdc_pipeline.Trader.Ledger.{
  Report, OrderRow, Order, Orders, Fill, Ledger, update_order, upsert_order, find_order, in_epoch,
  apply_report, apply_reset,
}

-- Every order is of the current epoch or of an earlier one.
abbrev pub IsDated : Ledger → Type 0
IsDated l = All (λ (o : Order). o.reset_epoch ≤ l.epoch) l.orders

upsert_order-IsDated :
    (row : OrderRow) (n epoch : ℕ) (os : Orders)
    → All (λ (o : Order). o.reset_epoch ≤ epoch) os
    → All (λ (o : Order). o.reset_epoch ≤ epoch) (upsert_order row n epoch os)
unfolding upsert_order update_order
upsert_order-IsDated row n epoch [] h = (omega arith, tt)
upsert_order-IsDated row n epoch (o ∷ os) h =
    ground (arith, upsert_order-IsDated row n epoch os h.1)

pub apply_report-IsDated : (ev : Report) (l : Ledger) → IsDated l → IsDated (apply_report ev l)
unfolding apply_report
apply_report-IsDated ev l h = upsert_order-IsDated _ _ l.epoch l.orders h

older :
    (epoch : ℕ) (os : Orders)
    → All (λ (o : Order). o.reset_epoch ≤ epoch) os
    → All
        (λ (o : Order). o.reset_epoch < epoch + 1)
        (keep_if (λ o. not (o.reset_epoch == epoch)) os)
older epoch [] h = tt
older epoch (o ∷ os) h = ground (arith, older epoch os h.1)

find_order-keep_if :
    (epoch id : ℕ) (os : Orders) (o : Order)
    → find_order id os ≡ some o
    → o.reset_epoch ≢ epoch
    → find_order id (keep_if (λ o. not (o.reset_epoch == epoch)) os) ≡ some o
unfolding find_order
find_order-keep_if epoch id [] o h ne = cc
find_order-keep_if epoch id (p ∷ os) o h ne = ground (arith, find_order-keep_if epoch id os o)

find_order-in_epoch :
    (epoch id : ℕ) (os : Orders) (o : Order)
    → in_epoch epoch os id ≡ false
    → find_order id os ≡ some o
    → o.reset_epoch ≢ epoch
unfolding find_order in_epoch
find_order-in_epoch epoch id [] o h f = cc
find_order-in_epoch epoch id (p ∷ os) o h f = ground (arith, find_order-in_epoch epoch id os o)

abbrev pub epoch_of : Option Order → Option ℕ
epoch_of none = none
epoch_of (some o) = some o.reset_epoch

-- The order of this fill is unknown, or of another epoch than the current one.
abbrev pub Outlives : Ledger → Fill → Type 0
Outlives l g = epoch_of (find_order g.order_id l.orders) ≢ some l.epoch

find_order-Outlives :
    (l : Ledger) (g : Fill) → in_epoch l.epoch l.orders g.order_id ≡ false → Outlives l g
find_order-Outlives l g stays e = elim (Option-cases (find_order g.order_id l.orders)) [
  | inl unknown ↦ cc
  | inr (o, f) ↦ find_order-in_epoch l.epoch g.order_id l.orders o stays f (some-eq (rw f at e))
]

fills_kept :
    (l : Ledger) (gs : List Fill)
    → All (Outlives l) (keep_if (λ g. not (in_epoch l.epoch l.orders g.order_id)) gs)
fills_kept l [] = tt
fills_kept l (g ∷ gs) = elim (Bool-cases (in_epoch l.epoch l.orders g.order_id)) [
  | inl gone ↦ rw gone (fills_kept l gs)
  | inr stays ↦ rw stays (find_order-Outlives l g stays, fills_kept l gs)
]

-- A reset starts a new epoch: the orders that are left are of older epochs, and no fill of a
-- deleted order is left.
pub apply_reset-clears :
    (l : Ledger)
    → IsDated l
    → let l' = apply_reset l in
      (l'.epoch ≡ l.epoch + 1)
      × All (λ (o : Order). o.reset_epoch < l'.epoch) l'.orders
      × All (Outlives l) l'.fills
unfolding apply_reset
apply_reset-clears l h = (refl, older l.epoch l.orders h, fills_kept l l.fills)

-- A reset leaves the row of every order of another epoch as it was.
pub apply_reset-keeps :
    (l : Ledger) (id : ℕ) (o : Order)
    → find_order id l.orders ≡ some o
    → o.reset_epoch ≢ l.epoch
    → find_order id (apply_reset l).orders ≡ some o
unfolding apply_reset
apply_reset-keeps l id o = find_order-keep_if l.epoch id l.orders o
