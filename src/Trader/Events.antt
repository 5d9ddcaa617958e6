-- ===== src/Trader/Events.antt =====
-- virtual-trader/trader.py, `dedup_key`, `Ledger.record_event` and `Trader.on_event`: the user events
-- that the websocket delivers, at least once each. MySQL's failures are parameters.
use crypto_cdc_pipeline.Base.{
  ℕ, ◌+◌, ◌&&◌, ◌||◌, ◌==◌, ◌≡◌, refl, ◌∙◌, Bool, true, false, not, String, str_eq, eq_refl, List,
  [], ◌∷◌, ◌++◌, if◌then◌else◌, arith, Bool-cases, inl, inr,
}
use crypto_cdc_pipeline.Trader.Ledger.{
  Report, Ledger, apply_report, fill_row_from_report, strategy_of, or_text, fill_inc,
}

-- A user event: an executionReport, or another one by its type and time. `DedupKey` is the key of
-- binance_user_events, kept apart from its text.
pub data Event : Type 0 where
  execution_report : Report → Event
  other : String → ℕ → Event

pub data DedupKey : Type 0 where
  exec : ℕ → DedupKey
  typed : String → ℕ → DedupKey

abbrev pub dedup_key : Event → DedupKey
dedup_key (execution_report ev) = exec ev.exec_id
dedup_key (other e t) = typed e t

abbrev pub same_key : DedupKey → DedupKey → Bool
same_key (exec a) (exec b) = a == b
same_key (exec a) (typed e t) = false
same_key (typed e t) (exec a) = false
same_key (typed e t) (typed e' t') = str_eq e e' && t == t'

pub record Stats : Type 0 where
  pub events : ℕ
  pub dup_events : ℕ
  pub fills : ℕ
  pub errors : ℕ

pub record Trader : Type 0 where
  pub ledger : Ledger
  pub recorded : List DedupKey
  pub stats : Stats

unfoldable pub is_recorded : DedupKey → List DedupKey → Bool
is_recorded k [] = false
is_recorded k (j ∷ ks) = same_key j k || is_recorded k ks

-- Whether MySQL takes the statements of `record_event`, and those of `apply_report`.
pub record MysqlUp : Type 0 where
  pub recording : Bool
  pub applying : Bool

abbrev pub count_error : Stats → Stats
count_error s = record s { errors = s.errors + 1 }

-- `r['fill']`: 1 if the report carries a fill.
abbrev pub carried_fill : Report → ℕ
carried_fill ev =
    fill_inc (fill_row_from_report ev (strategy_of (or_text ev.orig_client_id ev.client_id)))

-- The body of `on_event` after `record_event` has returned that the event is new.
unfoldable pub apply_event : Event → Bool → Trader → Trader
apply_event (other e t) up d = d
apply_event (execution_report ev) up d =
    if up
    then record d {
      ledger = apply_report ev d.ledger;
      stats = record (d.stats) { fills = d.stats.fills + carried_fill ev };
    }
    else record d { stats = count_error d.stats }

-- `on_event`: an exception of `record_event` or of `apply_report` is counted, and the event is done.
unfoldable pub on_event : Event → MysqlUp → Trader → Trader
on_event ev up d =
    let d' = record d { stats = record (d.stats) { events = d.stats.events + 1 } } in
    if not up.recording
    then record d' { stats = count_error d'.stats }
    else if is_recorded (dedup_key ev) d.recorded
    then record d' { stats = record (d'.stats) { dup_events = d'.stats.dup_events + 1 } }
    else apply_event ev up.applying (record d' { recorded = d.recorded ++ dedup_key ev ∷ [] })

-- Deliveries, one after the other.
abbrev pub deliver : List (Event × MysqlUp) → Trader → Trader
deliver [] d = d
deliver ((ev, up) ∷ later) d = deliver later (on_event ev up d)

same_key_refl : (k : DedupKey) → same_key k k ≡ true
same_key_refl (exec n) = ground arith
same_key_refl (typed e t) = rw eq_refl (ground arith)

is_recorded-append : (k : DedupKey) (ks : List DedupKey) → is_recorded k (ks ++ k ∷ []) ≡ true
unfolding is_recorded
is_recorded-append k [] = rw same_key_refl
is_recorded-append k (j ∷ ks) = rw (is_recorded-append k ks) (ground arith)

is_recorded-kept :
    (k j : DedupKey) (ks : List DedupKey)
    → is_recorded k ks ≡ true
    → is_recorded k (ks ++ j ∷ []) ≡ true
unfolding is_recorded
is_recorded-kept k j [] h = ground arith
is_recorded-kept k j (i ∷ ks) h = elim (Bool-cases (same_key i k)) [
  | inl same ↦ rw same (ground arith)
  | inr apart ↦ rw (apart, is_recorded-kept k j ks (rw apart at h)) (ground arith)
]

apply_event-recorded :
    (ev : Event) (up : Bool) (d : Trader) → (apply_event ev up d).recorded ≡ d.recorded
unfolding apply_event
apply_event-recorded (other e t) up d = refl
apply_event-recorded (execution_report ev) true d = refl
apply_event-recorded (execution_report ev) false d = refl

on_event-recorded :
    (ev : Event) (up : MysqlUp) (d : Trader)
    → up.recording ≡ true
    → is_recorded (dedup_key ev) (on_event ev up d).recorded ≡ true
unfolding on_event
on_event-recorded ev up d h = elim (Bool-cases (is_recorded (dedup_key ev) d.recorded)) [
  | inl old ↦ rw (h, on_event, old) old
  | inr new ↦
      rw (h, on_event, new) (rw apply_event-recorded (is_recorded-append (dedup_key ev) d.recorded))
]

on_event-known :
    (ev : Event) (up : MysqlUp) (d : Trader)
    → is_recorded (dedup_key ev) d.recorded ≡ true
    → ((on_event ev up d).ledger ≡ d.ledger) × ((on_event ev up d).recorded ≡ d.recorded)
unfolding on_event
on_event-known ev up d h = elim (Bool-cases up.recording) [
  | inl taken ↦ rw (taken, on_event, h) (refl, refl)
  | inr refused ↦ rw (refused, on_event) (refl, refl)
]

on_event-kept :
    (k : DedupKey) (ev : Event) (up : MysqlUp) (d : Trader)
    → is_recorded k d.recorded ≡ true
    → is_recorded k (on_event ev up d).recorded ≡ true
unfolding on_event
on_event-kept k ev up d h = elim (Bool-cases up.recording) [
  | inl taken ↦ elim (Bool-cases (is_recorded (dedup_key ev) d.recorded)) [
    | inl old ↦ rw (taken, on_event, old) h
    | inr new ↦
        rw (taken, on_event, new)
          (rw apply_event-recorded (is_recorded-kept k (dedup_key ev) d.recorded h))
  ]
  | inr refused ↦ rw (refused, on_event) h
]

deliver-kept :
    (k : DedupKey) (later : List (Event × MysqlUp)) (d : Trader)
    → is_recorded k d.recorded ≡ true
    → is_recorded k (deliver later d).recorded ≡ true
deliver-kept k [] d h = h
deliver-kept k ((ev, up) ∷ later) d h = deliver-kept k later _ (on_event-kept k ev up d h)

-- Once an event has been recorded, every redelivery of it, after any further deliveries and whether
-- or not MySQL takes statements then, leaves the ledger and the record as they are at that time.
pub on_event-redelivered :
    (ev : Event) (up up' : MysqlUp) (later : List (Event × MysqlUp)) (d : Trader)
    → up.recording ≡ true
    → let before = deliver later (on_event ev up d) in
      let again = on_event ev up' before in
      (again.ledger ≡ before.ledger) × (again.recorded ≡ before.recorded)
on_event-redelivered ev up up' later d h =
    on_event-known ev up' (deliver later (on_event ev up d))
      (deliver-kept (dedup_key ev) later _ (on_event-recorded ev up d h))

on_event-failed :
    (ev : Report) (up : MysqlUp) (d : Trader)
    → up.applying ≡ false
    → (on_event (execution_report ev) up d).ledger ≡ d.ledger
unfolding on_event apply_event
on_event-failed ev up d down = ground arith

-- An execution report that MySQL records but then fails to apply is lost: neither that delivery nor
-- any redelivery, with MySQL up again, changes the ledger.
pub on_event-lost :
    (ev : Report) (up up' : MysqlUp) (d : Trader)
    → up.recording ≡ true
    → up.applying ≡ false
    → let first = on_event (execution_report ev) up d in
      let again = on_event (execution_report ev) up' first in again.ledger ≡ d.ledger
on_event-lost ev up up' d h down =
    (on_event-redelivered (execution_report ev) up up' [] d h).0 ∙ on_event-failed ev up d down
