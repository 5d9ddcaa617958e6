-- ===== src/Binance.antt =====
-- binance-collector/collector.py: the collector of Binance trades. Times are in seconds.
pub mod Connection
pub mod Refresh
mod Tests
use crypto_cdc_pipeline.Base.{
  ℕ, zero, suc, ◌+◌, ◌*◌, ◌&&◌, ◌||◌, Bool, true, false, not, List, [], ◌∷◌, String, str_eq, length,
  take, drop, is_empty, min, ltb, leb, if◌then◌else◌,
}
use crypto_cdc_pipeline.Base.Int.{ℤ, pos, ◌-ℤ◌, leb_ℤ}

-- The settings of the module.
pub record Config : Type 0 where
  pub streams_per_conn : ℕ
  pub reconnect_before : ℕ
  pub idle_limit : ℕ

pub record Stats : Type 0 where
  pub recv : ℕ
  pub produced : ℕ
  pub deliv_err : ℕ
  pub buf_err : ℕ
  pub reconnects : ℕ
  pub parse_err : ℕ

-- `chunks(lst, n)`; the first argument bounds the number of pieces, and the length is enough.
unfoldable pub chunks_loop : ℕ → List String → ℕ → List (List String)
chunks_loop zero l n = []
chunks_loop (suc fuel) [] n = []
chunks_loop (suc fuel) (x ∷ xs) n = take n (x ∷ xs) ∷ chunks_loop fuel (drop n (x ∷ xs)) n

abbrev pub chunks : List String → ℕ → List (List String)
chunks l n = chunks_loop (length l) l n

-- `Conn`, with the local variables of `run`; `connected` is the inner loop. `stats` is what this
-- connection adds to the counters that all share.
pub record Conn : Type 0 where
  pub symbols : List String
  pub resubscribe : Bool
  pub connected : Bool
  pub opened : ℕ
  pub backoff : ℕ
  pub idle_timeouts : ℕ
  pub stats : Stats

abbrev pub zero_stats : Stats
zero_stats = record {
  recv = 0;
  produced = 0;
  deliv_err = 0;
  buf_err = 0;
  reconnects = 0;
  parse_err = 0;
}

abbrev pub make_conn : List String → Conn
make_conn symbols = record {
  symbols = symbols;
  resubscribe = false;
  connected = false;
  opened = 0;
  backoff = 1;
  idle_timeouts = 0;
  stats = zero_stats;
}

-- What becomes of a frame: it is no trade, it is produced, it is produced and has no readable time,
-- the queue is full, or it does not parse.
pub data Outcome : Type 0 where
  ignored handed_over untimed queue_full unreadable : Outcome

-- What the connection does. `accepted t`: it opens, after an attempt that began at t. A timeout is
-- thirty seconds without a frame. `failed` is any exception of the outer block.
pub data Event : Type 0 where
  accepted : ℕ → Event
  frame : ℕ → Outcome → Event
  timeout : ℕ → Event
  failed : Event

abbrev pub count_reconnect : Conn → Conn
count_reconnect c = record c { stats = record (c.stats) { reconnects = c.stats.reconnects + 1 } }

abbrev pub count_frame : Outcome → Stats → Stats
count_frame ignored s = s
count_frame handed_over s = record s { recv = s.recv + 1 }
count_frame untimed s = record s { recv = s.recv + 1; parse_err = s.parse_err + 1 }
count_frame queue_full s = record s { buf_err = s.buf_err + 1 }
count_frame unreadable s = record s { parse_err = s.parse_err + 1 }

abbrev pub on_delivery : Bool → Stats → Stats
on_delivery true s = record s { deliv_err = s.deliv_err + 1 }
on_delivery false s = record s { produced = s.produced + 1 }

-- The end of the inner loop without an exception.
unfoldable pub leave : Conn → Conn
leave c = count_reconnect (record c { connected = false; resubscribe = false })

-- The condition of the inner loop, at its next turn.
unfoldable pub next_turn : Config → ℕ → Conn → Conn
unfolding leave
next_turn cfg now c =
    if c.resubscribe || leb_ℤ (pos cfg.reconnect_before) (pos now -ℤ pos c.opened)
    then leave c
    else c

unfoldable pub on_timeout : Config → ℕ → Conn → Conn
unfolding leave next_turn
on_timeout cfg now c =
    let c' = record c { idle_timeouts = c.idle_timeouts + 1 } in
    if leb cfg.idle_limit c'.idle_timeouts then leave c' else next_turn cfg now c'

unfoldable pub on_frame : Config → ℕ → Outcome → Conn → Conn
unfolding next_turn
on_frame cfg now o c =
    next_turn cfg now (record c { idle_timeouts = 0; stats = count_frame o c.stats })

-- The `except` clause; the wait of `backoff` seconds comes before.
unfoldable pub on_failure : Conn → Conn
on_failure c = count_reconnect (record c { connected = false; backoff = min (c.backoff * 2) 60 })

-- An event that the phase of the connection does not allow does nothing.
unfoldable pub step : Config → Event → Conn → Conn
unfolding on_timeout on_frame on_failure next_turn
step cfg (accepted t) c =
    if c.connected
    then c
    else next_turn cfg t (record c { connected = true; backoff = 1; idle_timeouts = 0; opened = t })
step cfg (frame now o) c = if c.connected then on_frame cfg now o c else c
step cfg (timeout now) c = if c.connected then on_timeout cfg now c else c
step cfg failed c = on_failure c

unfoldable pub run : Config → List Event → Conn → Conn
unfolding step
run cfg [] c = c
run cfg (e ∷ es) c = run cfg es (step cfg e c)

abbrev pub same_symbols : List String → List String → Bool
same_symbols [] [] = true
same_symbols (a ∷ ms) (b ∷ ns) = str_eq a b && same_symbols ms ns
same_symbols _ _ = false

-- The groups handed to the connections that there are, and new connections for the other groups.
abbrev pub hand_out : List (List String) → List Conn → List Conn
hand_out [] conns = conns
hand_out (g ∷ gs) [] = make_conn g ∷ hand_out gs []
hand_out (g ∷ gs) (c ∷ cs) = record c { symbols = g; resubscribe = true } ∷ hand_out gs cs

-- The refresh of `main` with the new list of symbols; an empty list stands for None too.
unfoldable pub refresh : Config → List String → List String × List Conn → List String × List Conn
refresh cfg latest (symbols, conns) =
    if is_empty latest || same_symbols latest symbols
    then (symbols, conns)
    else (latest, hand_out (chunks latest cfg.streams_per_conn) conns)
