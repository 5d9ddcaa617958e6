-- ===== src/Trader/Ledger.antt =====
-- virtual-trader/trader.py, `order_row_from_report`, `fill_row_from_report`, `dedup_key`, the SQL
-- statements and `Ledger`: execution reports become rows of the MySQL ledger. The statements run one
-- by one (autocommit). Decimals that are only copied stay the exchange's texts.
pub mod Upsert
pub mod Reset
pub mod Fills
pub mod Positions
use Prim.Native.Char.{code}
use Prim.Native.String
use crypto_cdc_pipeline.Base.{
  ℕ, ◌+◌, ◌&&◌, ◌||◌, ◌==◌, Bool, true, false, not, Option, none, some, String, str_eq, List, [],
  ◌∷◌, ◌++◌, ltb, leb, length, keep_if, if◌then◌else◌,
}
use crypto_cdc_pipeline.Base.Int.{ℤ, pos, ltb_ℤ, pos_part}

-- The fields of an executionReport that the ledger reads, under the names of `order_row_from_report`.
-- `orig_client_id` is `C`, `client_id` is `c`; `trade_id` is `t`, -1 where it is missing.
pub record Report : Type 0 where
  pub order_id : ℕ
  pub symbol : String
  pub orig_client_id : Option String
  pub client_id : String
  pub side : String
  pub order_type : String
  pub time_in_force : Option String
  pub price : String
  pub orig_qty : String
  pub executed_qty : String
  pub cum_quote_qty : String
  pub status : String
  pub exec_type : String
  pub reject_reason : Option String
  pub created_ms : ℕ
  pub event_ms : ℕ
  pub exec_id : ℕ
  pub trade_id : ℤ
  pub last_price : String
  pub last_qty : String
  pub last_quote_qty : String
  pub commission : Option String
  pub commission_asset : Option String
  pub is_maker : Bool
  pub trade_ms : ℕ

-- The columns that `UPSERT_ORDER` overwrites.
pub record Live : Type 0 where
  pub orig_qty : String
  pub executed_qty : String
  pub cum_quote_qty : String
  pub status : String
  pub last_exec_type : String
  pub reject_reason : Option String
  pub updated_ms : ℕ
  pub last_exec_id : ℕ

-- The columns that it writes only when it inserts.
pub record Fixed : Type 0 where
  pub symbol : String
  pub client_order_id : String
  pub side : String
  pub order_type : String
  pub time_in_force : Option String
  pub price : String
  pub strategy : String
  pub created_ms : ℕ

-- The values of `UPSERT_ORDER`, and a row of virtual_orders.
pub record OrderRow : Type 0 where
  pub order_id : ℕ
  pub fixed : Fixed
  pub live : Live

pub record Order : Type 0 where
  pub order_id : ℕ
  pub fixed : Fixed
  pub live : Live
  pub fill_count : ℕ
  pub version : ℕ
  pub reset_epoch : ℕ

pub record Fill : Type 0 where
  pub symbol : String
  pub fill_id : ℕ
  pub order_id : ℕ
  pub side : String
  pub price : String
  pub qty : String
  pub quote_qty : String
  pub commission : String
  pub commission_asset : Option String
  pub is_maker : Bool
  pub filled_ms : ℕ
  pub exec_id : ℕ
  pub strategy : String

-- `a or b` on texts: the empty text is false.
abbrev pub or_text : Option String → String → String
or_text none b = b
or_text (some a) b = if str_eq a "" then b else a

-- `cid.split('_')[0]`
unfoldable pub before_underscore : String → String
before_underscore String.[] = ""
before_underscore (String.◌∷◌ c s) =
    if code c == b'_' then "" else String.◌∷◌ c (before_underscore s)

unfoldable pub strategy_of : String → String
unfolding before_underscore
strategy_of cid =
    let prefix = before_underscore cid in
    if str_eq cid ""
    then "unknown"
    else if str_eq prefix "mkr"
    then "maker-probe"
    else if str_eq prefix "ioc"
    then "taker-ioc"
    else if str_eq prefix "unw"
    then "unwind"
    else "unknown"

unfoldable pub order_row_from_report : Report → String → OrderRow
order_row_from_report ev strategy = record {
  order_id = ev.order_id;
  fixed = record {
    symbol = ev.symbol;
    client_order_id = or_text ev.orig_client_id ev.client_id;
    side = ev.side;
    order_type = ev.order_type;
    time_in_force = ev.time_in_force;
    price = ev.price;
    strategy = strategy;
    created_ms = ev.created_ms;
  };
  live = record {
    orig_qty = ev.orig_qty;
    executed_qty = ev.executed_qty;
    cum_quote_qty = ev.cum_quote_qty;
    status = ev.status;
    last_exec_type = ev.exec_type;
    reject_reason = ev.reject_reason;
    updated_ms = ev.event_ms;
    last_exec_id = ev.exec_id;
  };
}

abbrev pub or_zero : Option String → String
or_zero none = "0"
or_zero (some n) = if str_eq n "" then "0" else n

unfoldable pub fill_row_from_report : Report → String → Option Fill
fill_row_from_report ev strategy =
    if not (str_eq ev.exec_type "TRADE") || ltb_ℤ ev.trade_id (pos 0)
    then none
    else some (record {
      symbol = ev.symbol;
      fill_id = pos_part ev.trade_id;
      order_id = ev.order_id;
      side = ev.side;
      price = ev.last_price;
      qty = ev.last_qty;
      quote_qty = ev.last_quote_qty;
      commission = or_zero ev.commission;
      commission_asset = ev.commission_asset;
      is_maker = ev.is_maker;
      filled_ms = ev.trade_ms;
      exec_id = ev.exec_id;
      strategy = strategy;
    })

abbrev pub Orders : Type 0
Orders = List Order

-- The `ON DUPLICATE KEY UPDATE` part: `last_exec_id` is assigned last, so each `IF` sees the old one.
unfoldable pub update_order : OrderRow → ℕ → Order → Order
update_order row fill_inc o =
    let newer = ltb o.live.last_exec_id row.live.last_exec_id in
    record o {
      live = if newer then row.live else o.live;
      fill_count = o.fill_count + (if newer then fill_inc else 0);
      version = o.version + (if newer then 1 else 0);
    }

-- `UPSERT_ORDER`, on the primary key `order_id`.
unfoldable pub upsert_order : OrderRow → ℕ → ℕ → Orders → Orders
upsert_order row fill_inc epoch [] =
    record {
      order_id = row.order_id;
      fixed = row.fixed;
      live = row.live;
      fill_count = fill_inc;
      version = 1;
      reset_epoch = epoch;
    }
    ∷ []
upsert_order row fill_inc epoch (o ∷ os) =
    if o.order_id == row.order_id
    then update_order row fill_inc o ∷ os
    else o ∷ upsert_order row fill_inc epoch os

unfoldable pub find_order : ℕ → Orders → Option Order
find_order id [] = none
find_order id (o ∷ os) = if o.order_id == id then some o else find_order id os

-- `INSERT IGNORE` on the primary key (symbol, fill_id).
unfoldable pub insert_fill : Fill → List Fill → List Fill
insert_fill fill [] = fill ∷ []
insert_fill fill (g ∷ gs) =
    if g.fill_id == fill.fill_id && str_eq g.symbol fill.symbol
    then g ∷ gs
    else g ∷ insert_fill fill gs

pub record Ledger : Type 0 where
  pub orders : Orders
  pub fills : List Fill
  pub epoch : ℕ

abbrev pub insert_fill? : Option Fill → List Fill → List Fill
insert_fill? none gs = gs
insert_fill? (some fill) gs = insert_fill fill gs

abbrev pub fill_inc : Option Fill → ℕ
fill_inc none = 0
fill_inc (some _) = 1

unfoldable pub apply_report : Report → Ledger → Ledger
apply_report ev l =
    let strategy = strategy_of (or_text ev.orig_client_id ev.client_id) in
    let fill = fill_row_from_report ev strategy in
    record l {
      orders = upsert_order (order_row_from_report ev strategy) (fill_inc fill) l.epoch l.orders;
      fills = insert_fill? fill l.fills;
    }

-- Is the order of this id one of those that `DELETE FROM virtual_orders` removes?
unfoldable pub in_epoch : ℕ → Orders → ℕ → Bool
in_epoch epoch [] id = false
in_epoch epoch (o ∷ os) id = o.order_id == id && o.reset_epoch == epoch || in_epoch epoch os id

-- `apply_reset`: the fills of the orders of this epoch go first, then the orders.
unfoldable pub apply_reset : Ledger → Ledger
apply_reset l = record {
  orders = keep_if (λ o. not (o.reset_epoch == l.epoch)) l.orders;
  fills = keep_if (λ g. not (in_epoch l.epoch l.orders g.order_id)) l.fills;
  epoch = l.epoch + 1;
}
