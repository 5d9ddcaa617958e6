-- ===== src/Trader/Cycle.antt =====
-- virtual-trader/trader.py, `Trader.cycle`, `place`, `amend_then_cancel` and `check_reset`.
-- The exchange's replies, and what the ledger's queries return, are parameters.
pub mod Bounds
pub mod Decisions
use crypto_cdc_pipeline.Base.{
  ℕ, zero, suc, ◌+◌, ◌*◌, ◌≤◌, ◌&&◌, ◌||◌, ◌==◌, Bool, true, false, not, Option, none, some, String,
  str_eq, List, [], ◌∷◌, ◌++◌, ltb, leb, length, if◌then◌else◌,
}
use crypto_cdc_pipeline.Base.Int.{ℤ, pos, pos_part, ltb_ℤ}
use crypto_cdc_pipeline.Trader.Plan.{
  SymbolFilters, Plan, Strategy, maker_probe, taker_ioc, unwind, quantize, plan_orders,
}
use crypto_cdc_pipeline.Trader.Ledger.{Order, Orders, Ledger, apply_reset}

-- The settings, and the number of units in 1.
pub record Config : Type 0 where
  pub one : ℕ
  pub notional : ℕ
  pub maker_ticks : ℕ
  pub max_orders : ℕ

-- An `order.place` request: the n-th order of the day for its symbol.
pub record Request : Type 0 where
  pub symbol : String
  pub plan : Plan
  pub number : ℕ

-- A scheduled `amend_then_cancel`.
pub record Task : Type 0 where
  pub symbol : String
  pub order_id : ℕ
  pub qty : ℕ
  pub price : ℕ

-- What one cycle has done so far: the requests it sent, in order, the tasks it started, and the
-- counters `stats.orders` and `stats.errors`.
pub record Cycle : Type 0 where
  pub requests : List Request
  pub tasks : List Task
  pub orders : ℕ
  pub errors : ℕ

-- What the cycle sees: the filters that are loaded, today's orders, the net quantity, the book
-- ticker (bid and ask, or a failed request), and the exchange's answer to a request: an order id,
-- or a failure.
pub record Market : Type 0 where
  pub filters : String → Option SymbolFilters
  pub orders_today : String → ℕ
  pub net_qty : String → ℤ
  pub book_ticker : String → Option (ℕ × ℕ)
  pub answer : Request → Option ℕ

abbrev pub is_maker_probe : Strategy → Bool
is_maker_probe maker_probe = true
is_maker_probe _ = false

-- `place`, and the task that a placed maker probe starts.
unfoldable pub place : Request → Option ℕ → Cycle → Cycle
place r none c = record c { requests = c.requests ++ r ∷ []; errors = c.errors + 1 }
place r (some id) c = record c {
  requests = c.requests ++ r ∷ [];
  orders = c.orders + 1;
  tasks =
      c.tasks
      ++ (if is_maker_probe r.plan.strategy
          then record { symbol = r.symbol; order_id = id; qty = r.plan.qty; price = r.plan.price }
            ∷ []
          else []);
}

module _ (config : Config) (market : Market) where
  -- `for p in plan_orders(...)`, from the order number n on.
  unfoldable pub place_all : String → ℕ → List Plan → Cycle → Cycle
  place_all symbol n [] c = c
  place_all symbol n (p ∷ plans) c =
      let r : Request = record { symbol = symbol; plan = p; number = n + 1 } in
      place_all symbol (n + 1) plans (place r (market.answer r) c)

  abbrev pub plans_for : SymbolFilters → ℕ → ℕ → ℤ → Option (List Plan)
  plans_for f bid ask net_qty =
      plan_orders config.one f bid ask net_qty config.notional config.maker_ticks

  -- The part of the loop body after the guards; `none` is an exception, which ends the cycle.
  unfoldable pub trade_symbol : String → SymbolFilters → Option (ℕ × ℕ) → Cycle → Option Cycle
  trade_symbol symbol f none c = some (record c { errors = c.errors + 1 })
  trade_symbol symbol f (some (bid, ask)) c = elim (plans_for f bid ask (market.net_qty symbol)) [
    | none ↦ none
    | some plans ↦ some (place_all symbol (market.orders_today symbol) plans c)
  ]

  -- The loop body for one symbol: no filters or a full day skip it. The log of the cap is left out.
  unfoldable pub cycle_symbol : String → Option SymbolFilters → Cycle → Option Cycle
  cycle_symbol symbol none c = some c
  cycle_symbol symbol (some f) c =
      if leb config.max_orders (market.orders_today symbol)
      then some c
      else trade_symbol symbol f (market.book_ticker symbol) c

  unfoldable pub cycle : List String → Cycle → Option Cycle
  cycle [] c = some c
  cycle (symbol ∷ symbols) c = elim (cycle_symbol symbol (market.filters symbol) c) [
    | none ↦ none
    | some c' ↦ cycle symbols c'
  ]

-- What `amend_then_cancel` asks of the exchange.
pub data Change : Type 0 where
  amend_keep_priority : ℕ → Change
  cancel : Change

-- The tail of `amend_then_cancel`, after the second `is_open`.
abbrev pub then_cancel : Bool → List Change
then_cancel true = cancel ∷ []
then_cancel false = []

-- The requests of `amend_then_cancel`: `open_first` and `open_last` are what `is_open` returns after
-- the first wait and before the cancel. A failed request is counted and changes nothing else.
-- `none` is an exception: no filters for the symbol (`KeyError`), or a step of 0.
unfoldable pub amend_then_cancel :
    ℕ → Option SymbolFilters → Bool → Bool → ℕ → ℕ → Option (List Change)
amend_then_cancel one filters false open_last qty price = some []
amend_then_cancel one none true open_last qty price = none
amend_then_cancel one (some f) true open_last qty price = elim (quantize (pos qty) 2 f.step_size) [
  | none ↦ none
  | some half ↦
      if f.amend_allowed && ltb_ℤ (pos 0) half && leb (f.min_notional * one) (pos_part half * price)
      then some (amend_keep_priority (pos_part half) ∷ then_cancel open_last)
      else some (then_cancel open_last)
]

-- `order.status` on the exchange: found, "-2013" (no such order), or another failure.
pub data StatusReply : Type 0 where
  found absent failed : StatusReply

abbrev pub is_absent : StatusReply → Bool
is_absent absent = true
is_absent _ = false

abbrev pub is_working : String → Bool
is_working status = str_eq status "NEW" || str_eq status "PARTIALLY_FILLED"

-- `open_orders()[0]`
unfoldable pub first_open : ℕ → Orders → Option Order
first_open epoch [] = none
first_open epoch (o ∷ os) =
    if is_working o.live.status && o.reset_epoch == epoch then some o else first_open epoch os

abbrev pub later_filled : Order → Option Order → Option Order
later_filled o none = some o
later_filled o (some p) = if ltb o.live.updated_ms p.live.updated_ms then some p else some o

-- `last_filled`: the newest by `updated_ms`; of equal ones MySQL may return any, here the first.
unfoldable pub last_filled : String → ℕ → Orders → Option Order
last_filled symbol epoch [] = none
last_filled symbol epoch (o ∷ os) =
    let rest = last_filled symbol epoch os in
    if str_eq o.fixed.symbol symbol && str_eq o.live.status "FILLED" && o.reset_epoch == epoch
    then later_filled o rest
    else rest

-- `check_reset`, with the exchange's reply for each order id. The event that `apply_reset` writes
-- is left out.
unfoldable pub check_reset : (ℕ → StatusReply) → Ledger → Ledger
check_reset reply l = elim (first_open l.epoch l.orders) [
  | none ↦ l
  | some o ↦
      if not (is_absent (reply o.order_id))
      then l
      else elim (last_filled o.fixed.symbol l.epoch l.orders) [
        | none ↦ l
        | some f ↦ if is_absent (reply f.order_id) then apply_reset l else l
      ]
]
