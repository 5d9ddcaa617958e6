-- ===== src/Trader/Plan.antt =====
-- virtual-trader/trader.py, the pure functions: `SymbolFilters`, `quantize` and `plan_orders`.
-- A `Decimal` amount is a whole number of units, and `one` is the number of units in 1. Products and
-- quotients are taken as exact: the 28 digits of Python's context are not modelled.
pub mod Sound
use crypto_cdc_pipeline.Base.{
  ℕ, zero, suc, ◌+◌, ◌*◌, ◌/◌, ◌||◌, ◌&&◌, ◌==◌, Bool, true, false, Option, none, some, List, [],
  ◌∷◌, ◌++◌, ltb, leb, if◌then◌else◌, ◌>>=◌,
}
use crypto_cdc_pipeline.Base.Int.{ℤ, pos, negsuc, pos_part, ◌-ℤ◌, ltb_ℤ, leb_ℤ}

pub record SymbolFilters : Type 0 where
  pub tick_size : ℕ
  pub step_size : ℕ
  pub min_notional : ℕ
  pub amend_allowed : Bool

pub data Strategy : Type 0 where
  maker_probe taker_ioc unwind : Strategy

pub data Side : Type 0 where
  buy sell : Side

pub data TimeInForce : Type 0 where
  gtc ioc : TimeInForce

pub record Plan : Type 0 where
  pub strategy : Strategy
  pub side : Side
  pub tif : TimeInForce
  pub price : ℕ
  pub qty : ℕ

abbrev pub neg : ℕ → ℤ
neg zero = pos 0
neg (suc n) = negsuc n

abbrev pub maker_order : ℕ → ℕ → Plan
maker_order price qty = record {
  strategy = maker_probe;
  side = buy;
  tif = gtc;
  price = price;
  qty = qty;
}

abbrev pub taker_order : ℕ → ℕ → Plan
taker_order price qty = record {
  strategy = taker_ioc;
  side = buy;
  tif = ioc;
  price = price;
  qty = qty;
}

abbrev pub unwind_order : ℕ → ℕ → Plan
unwind_order price qty = record {
  strategy = unwind;
  side = sell;
  tif = ioc;
  price = price;
  qty = qty;
}

-- `quantize (value / den) step`: towards zero, to a multiple of the step; a division by zero raises.
unfoldable pub quantize : ℤ → ℕ → ℕ → Option ℤ
quantize (pos n) den step = if den * step == 0 then none else some (pos (n / (den * step) * step))
quantize (negsuc n) den step =
    if den * step == 0 then none else some (neg (suc n / (den * step) * step))

module _ (one : ℕ) where
  -- Rule A, for the quantized price.
  unfoldable pub maker_plans : SymbolFilters → ℕ → ℤ → List Plan
  maker_plans f qty maker_px =
      if ltb_ℤ (pos 0) maker_px && leb (f.min_notional * one) (qty * pos_part maker_px)
      then maker_order (pos_part maker_px) qty ∷ []
      else []

  -- Rule C, for the quantized net quantity.
  unfoldable pub unwind_plans : SymbolFilters → ℕ → ℤ → List Plan
  unwind_plans f bid amount =
      if ltb_ℤ (pos 0) amount && leb (f.min_notional * one) (pos_part amount * bid)
      then unwind_order bid (pos_part amount) ∷ []
      else []

  -- `none` is the exception of a division by zero.
  unfoldable pub plan_orders : SymbolFilters → ℕ → ℕ → ℤ → ℕ → ℕ → Option (List Plan)
  plan_orders f bid ask net_qty notional maker_ticks = do
    qty ← quantize (pos (notional * one)) ask f.step_size
    if leb_ℤ qty (pos 0) || ltb (pos_part qty * ask) (f.min_notional * one) then some [] else do
      maker_px ← quantize (pos bid -ℤ pos (f.tick_size * maker_ticks)) 1 f.tick_size
      amount ← if ltb_ℤ (pos 0) net_qty then quantize net_qty 1 f.step_size else some (pos 0)
      some (
          maker_plans f (pos_part qty) maker_px
          ++ taker_order ask (pos_part qty) ∷ unwind_plans f bid amount)
