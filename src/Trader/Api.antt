-- ===== src/Trader/Api.antt =====
-- virtual-trader/trader.py, `WsApi` and the part of `run` that connects: calls that wait for their
-- replies on one connection, with the reader that hands the replies out. An event is what the
-- exchange, the clock or a caller does.
pub mod Stuck
pub mod Calls
mod Tests
use crypto_cdc_pipeline.Base.{
  ℕ, zero, suc, ◌+◌, ◌&&◌, ◌==◌, Bool, true, false, not, Option, none, some, List, [], ◌∷◌, ◌++◌,
  length, if◌then◌else◌,
}

-- How a call ended for its caller.
pub data Reply : Type 0 where
  result not_connected send_failed timed_out ws_closed : Reply

-- A future under its id, with whether its caller still waits. A caller that gave up has cancelled it.
pub record Future : Type 0 where
  pub rid : ℕ
  pub waiting : Bool

-- `connected` is that `ws` is not None; `reading` that `_reader` runs on it; `subscribed` that
-- the calls of `connect` went through on it. `calls` and `replies` are what the callers see.
pub record Api : Type 0 where
  pub connected : Bool
  pub reading : Bool
  pub subscribed : Bool
  pub pending : List Future
  pub reconnects : ℕ
  pub errors : ℕ
  pub calls : ℕ
  pub replies : List (ℕ × Reply)

pub data Event : Type 0 where
  call : ℕ → Event
  reply : ℕ → Event
  pushed : Bool → Event
  timeout : ℕ → Event
  closed_cleanly broken : Event
  run_pass : Bool → Bool → Event

-- `pending.pop`, with the future that was there.
abbrev pub pop : ℕ → List Future → Option Future × List Future
pop n [] = (none, [])
pop n (f ∷ fs) =
    let (found, rest) = pop n fs in if f.rid == n then (some f, fs) else (found, f ∷ rest)

-- The callers that wait, told that the connection is gone.
abbrev pub told_closed : List Future → List (ℕ × Reply)
told_closed [] = []
told_closed (f ∷ fs) = if f.waiting then (f.rid, ws_closed) ∷ told_closed fs else told_closed fs

-- The handler of `_reader`.
unfoldable pub reader_ended : Api → Api
reader_ended w = record w {
  connected = false;
  reading = false;
  subscribed = false;
  pending = [];
  replies = told_closed w.pending ++ w.replies;
}

-- `set_result`, which raises on a future that was cancelled.
abbrev pub set_result : Option Future → List Future → Api → Api
set_result none rest w = w
set_result (some f) rest w =
    if f.waiting
    then record w { pending = rest; replies = (f.rid, result) ∷ w.replies }
    else reader_ended (record w { pending = rest })

abbrev pub put_front : Future → Option (List Future) → Option (List Future)
put_front f none = none
put_front f (some fs) = some (f ∷ fs)

-- `wait_for` cancels the future, which stays in `pending`.
abbrev pub give_up : ℕ → List Future → Option (List Future)
give_up n [] = none
give_up n (f ∷ fs) =
    let rest = give_up n fs in
    if f.rid == n && f.waiting then some (record f { waiting = false } ∷ fs) else put_front f rest

-- `call`. Sending on a connection without a reader raises: the connection is closed.
unfoldable pub make_call : ℕ → Api → Api
make_call n w =
    let more = record w { calls = suc w.calls } in
    if w.connected
    then (if w.reading
        then record more { pending = record { rid = n; waiting = true } ∷ w.pending }
        else record more {
          pending = record { rid = n; waiting = false } ∷ w.pending;
          replies = (n, send_failed) ∷ w.replies;
        })
    else record more { replies = (n, not_connected) ∷ w.replies }

-- The head of the loop of `run`: whether the connection opens, and whether the two calls of
-- `connect` on it go through.
unfoldable pub connect_pass : Bool → Bool → Api → Api
connect_pass opens logs_on w =
    if w.connected
    then w
    else if opens
    then (if logs_on
        then record w {
          connected = true;
          reading = true;
          subscribed = true;
          reconnects = suc w.reconnects;
        }
        else record w { connected = true; reading = true; errors = suc w.errors })
    else record w { errors = suc w.errors }

unfoldable pub step : Event → Api → Api
step (call n) w = make_call n w
step (reply n) w =
    let (found, rest) = pop n w.pending in if w.reading then set_result found rest w else w
step (pushed handled) w = if w.reading && not handled then reader_ended w else w
step (timeout n) w = elim (give_up n w.pending) [
  | none ↦ w
  | some fs ↦ record w { pending = fs; replies = (n, timed_out) ∷ w.replies }
]
step closed_cleanly w = record w { reading = false }
step broken w = if w.reading then reader_ended w else w
step (run_pass opens logs_on) w = connect_pass opens logs_on w

-- The events in their order.
abbrev pub run : List Event → Api → Api
run [] w = w
run (e ∷ es) w = run es (step e w)
