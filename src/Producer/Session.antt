-- ===== src/Producer/Session.antt =====
-- producer/producer.py, `parse_trade` and `subscribe_upbit`: the session with the exchange, as a
-- machine that is fed what the connection does and that gives out what it asks others to do.
-- `F` stands for the floats, `amount p v` for `float(Decimal(str(p)) * Decimal(str(v)))`. All
-- times are milliseconds.
pub mod Newest
pub mod Windows
use crypto_cdc_pipeline.Base.{
  ℕ, ◌+◌, ◌*◌, ◌&&◌, ◌||◌, Bool, true, false, not, Option, none, some, List, [], ◌∷◌, ◌++◌, String,
  str_eq, is_empty, is_some, min, ltb, leb, if◌then◌else◌, ◌>>=◌,
}
use crypto_cdc_pipeline.Base.Int.{ℤ, pos, ◌-ℤ◌, ltb_ℤ, leb_ℤ}

-- The keys of a trade message; `sid` is what `int(data['sid'])` gives.
pub record Raw (F : Type 0) : Type 0 where
  pub cd : Option String
  pub tp : Option F
  pub tv : Option F
  pub ab : Option String
  pub ttms : Option ℕ
  pub sid : Option ℕ
  pub bap : Option F
  pub bas : Option F
  pub bbp : Option F
  pub bbs : Option F
  pub st : Option String

pub record Trade (F : Type 0) : Type 0 where
  pub market : String
  pub price : F
  pub volume : F
  pub amount : F
  pub ask_bid : String
  pub timestamp : ℕ
  pub seq_id : ℕ
  pub bap : Option F
  pub bas : Option F
  pub bbp : Option F
  pub bbs : Option F
  pub recv_ms : ℕ
  pub ingest_source : String
  pub stream_type : String

abbrev pub or_realtime : Option String → String
or_realtime none = "REALTIME"
or_realtime (some t) = if str_eq t "" then "REALTIME" else t

-- `none` is a KeyError or a ValueError.
unfoldable pub parse_trade : {F : Type 0} → (F → F → F) → ℕ → Raw F → Option (Trade F)
parse_trade amount now d = d.cd >>= λ market. d.tp >>= λ price. d.tv >>= λ volume.
    d.ab >>= λ ask_bid. d.ttms >>= λ timestamp. d.sid >>= λ seq_id. some (record {
      market = market;
      price = price;
      volume = volume;
      amount = amount price volume;
      ask_bid = ask_bid;
      timestamp = timestamp;
      seq_id = seq_id;
      bap = d.bap;
      bas = d.bas;
      bbp = d.bbp;
      bbs = d.bbs;
      recv_ms = now;
      ingest_source = "ws";
      stream_type = or_realtime d.st;
    })

pub record Config : Type 0 where
  pub gapfill_enabled : Bool
  pub margin : ℕ
  pub startup_max : ℕ
  pub batch_interval : ℕ
  pub refresh_interval : ℕ
  pub auto_refresh : Bool

-- What the session asks of the writer, of the connection and of `gap_fill`.
pub data Effect (F : Type 0) : Type 0 where
  added : Trade F → Effect F
  flushed : Effect F
  reported : Effect F
  subscribed : List String → Effect F
  gap_filled : String → ℤ → ℕ → List String → Effect F

pub record Session : Type 0 where
  pub markets : List String
  pub connected : Bool
  pub last_event_ms : Option ℕ
  pub disconnected_ms : Option ℕ
  pub pending_startup_fill : Option ℤ
  pub last_flush : ℕ
  pub last_report : ℕ
  pub last_market_refresh : ℕ

-- `subscribe_upbit` before its loop; `last_db_ms` is the newest trade of the database.
unfoldable pub start : Config → ℕ → Option ℕ → List String → Session
start cfg now last_db_ms markets = record {
  markets = markets;
  connected = false;
  last_event_ms = none;
  disconnected_ms = none;
  pending_startup_fill = if not cfg.gapfill_enabled then none else (elim last_db_ms [
    | none ↦ none
    | some db ↦
        if ltb_ℤ (pos cfg.startup_max) (pos now -ℤ pos db)
        then none
        else some (pos db -ℤ pos cfg.margin)
  ]);
  last_flush = now;
  last_report = now;
  last_market_refresh = now;
}

-- `min` of the two times, one of which may be missing.
abbrev pub earliest : Option ℕ → ℕ → ℕ
earliest none d = d
earliest (some e) d = min e d

-- The gap-fill that a new connection starts, and what is left to fill.
unfoldable pub open_fill : {F : Type 0} → Config → ℕ → Session → List (Effect F) × Session
open_fill cfg now s = if not cfg.gapfill_enabled then ([], s) else (elim s.pending_startup_fill [
  | some lo ↦ (
    gap_filled "startup" lo (now + cfg.margin) s.markets ∷ [],
    record s { pending_startup_fill = none },
  )
  | none ↦ elim s.disconnected_ms [
    | some d ↦ (
      gap_filled "reconnect" (pos (earliest s.last_event_ms d) -ℤ pos cfg.margin) (now + cfg.margin)
            s.markets
          ∷ [],
      record s { disconnected_ms = none },
    )
    | none ↦ ([], s)
  ]
])

-- A connection that opens and takes the subscription.
unfoldable pub on_open : {F : Type 0} → Config → ℕ → Session → List (Effect F) × Session
on_open cfg now s =
    let (effects, s') = open_fill cfg now s in
    (subscribed s.markets ∷ effects, record s' { connected = true; last_flush = now })

-- The `except` clauses: the connection is gone, or an attempt at one has failed.
unfoldable pub on_failure : {F : Type 0} → ℕ → Session → List (Effect F) × Session
on_failure now s = (flushed ∷ [], record s { connected = false; disconnected_ms = some now })

abbrev pub due : ℕ → ℕ → ℕ → Bool
due interval last now = leb_ℤ (pos interval) (pos now -ℤ pos last)

abbrev pub same_markets : List String → List String → Bool
same_markets [] [] = true
same_markets (a ∷ ms) (b ∷ ns) = str_eq a b && same_markets ms ns
same_markets _ _ = false

-- `latest` is the reply of `fetch_krw_markets(3)`, if it is asked.
abbrev pub check_flush : {F : Type 0} → Config → ℕ → Session → List (Effect F) × Session
check_flush cfg now s =
    if due cfg.batch_interval s.last_flush now
    then (flushed ∷ [], record s { last_flush = now })
    else ([], s)

abbrev pub check_report : {F : Type 0} → ℕ → Session → List (Effect F) × Session
check_report now s =
    if due 30000 s.last_report now then (reported ∷ [], record s { last_report = now }) else ([], s)

abbrev pub take_markets : {F : Type 0} → Option (List String) → Session → List (Effect F) × Session
take_markets none s = ([], s)
take_markets (some latest) s =
    if is_empty latest || same_markets latest s.markets
    then ([], s)
    else (subscribed latest ∷ [], record s { markets = latest })

abbrev pub check_markets :
    {F : Type 0} → Config → ℕ → Option (List String) → Session → List (Effect F) × Session
check_markets cfg now latest s =
    if cfg.auto_refresh && due cfg.refresh_interval s.last_market_refresh now
    then take_markets latest (record s { last_market_refresh = now })
    else ([], s)

-- What every turn of the receive loop does after the message.
unfoldable pub tick_timers :
    {F : Type 0} → Config → ℕ → Option (List String) → Session → List (Effect F) × Session
tick_timers cfg now latest s =
    let (e₁, s₁) = check_flush cfg now s in
    let (e₂, s₂) = check_report now s₁ in
    let (e₃, s₃) = check_markets cfg now latest s₂ in (e₁ ++ (e₂ ++ e₃), s₃)

abbrev pub newer : Option ℕ → ℕ → Option ℕ
newer none t = some t
newer (some e) t = if ltb e t then some t else some e

-- What the connection does, at a time. The last argument of a received message is its `data` if its
-- type is "trade". `broken` is any exception in the connection's block, or a failed attempt.
pub data Event (F : Type 0) : Type 0 where
  opened : ℕ → Event F
  received : ℕ → Option (List String) → Option (Raw F) → Event F
  timed_out : ℕ → Option (List String) → Event F
  broken : ℕ → Event F

module _ {F : Type 0} (amount : F → F → F) (cfg : Config) where
  abbrev pub take_trade :
      ℕ → Option (List String) → Option (Trade F) → Session → List (Effect F) × Session
  take_trade now latest none s = on_failure now s
  take_trade now latest (some t) s =
      let (effects, s') =
        tick_timers cfg now latest
          (record s { last_event_ms = newer s.last_event_ms t.timestamp }) in
      (added t ∷ effects, s')

  abbrev pub on_message :
      ℕ → Option (List String) → Option (Raw F) → Session → List (Effect F) × Session
  on_message now latest none s = tick_timers cfg now latest s
  on_message now latest (some d) s = take_trade now latest (parse_trade amount now d) s

  -- An event that the phase of the session does not allow does nothing.
  unfoldable pub step : Event F → Session → List (Effect F) × Session
  step (opened now) s = if s.connected then ([], s) else on_open cfg now s
  step (received now latest m) s = if s.connected then on_message now latest m s else ([], s)
  step (timed_out now latest) s = if s.connected then tick_timers cfg now latest s else ([], s)
  step (broken now) s = on_failure now s

  unfoldable pub run : List (Event F) → Session → List (Effect F) × Session
  run [] s = ([], s)
  run (e ∷ es) s =
      let (effects, s₁) = step e s in let (later, s₂) = run es s₁ in (effects ++ later, s₂)
