-- ===== src/Orderbook.antt =====
-- orderbook-collector/collector.py: the collector of order books. The queue of librdkafka is the number
-- of messages in it; the producer and the exchange answer by events.
pub mod Accounts
pub mod Guard
mod Tests
use crypto_cdc_pipeline.Base.{
  ℕ, zero, suc, ◌+◌, ◌-◌, ◌*◌, ◌&&◌, ◌||◌, Bool, true, false, not, Option, none, some, List, [],
  ◌∷◌, ◌++◌, String, str_eq, is_empty, length, min, ltb, leb, if◌then◌else◌,
}

pub record Stats : Type 0 where
  pub received : ℕ
  pub produced : ℕ
  pub delivery_errors : ℕ
  pub buffer_errors : ℕ
  pub bytes : ℕ
  pub reconnects : ℕ

-- What `produce` does: it takes the message, or raises BufferError or KafkaException.
pub data Produce : Type 0 where
  taken buffer_full refused : Produce

-- The variables of `run`; `connected` is the inner loop.
pub record Collector : Type 0 where
  pub markets : List String
  pub connected : Bool
  pub backoff : ℕ
  pub queue : ℕ
  pub stats : Stats

-- `fetch_markets`: the reply of the REST request with the markets of the quote currency, sorted, or
-- `none` for an exception. `raised` is the exception that goes on to the caller.
pub data Markets : Type 0 where
  found : List String → Markets
  kept : Markets
  raised : Markets

unfoldable pub fetch_markets : List String → Bool → Option (List String) → Markets
fetch_markets (m ∷ ms) strict reply = found (m ∷ ms)
fetch_markets [] strict none = if strict then raised else kept
fetch_markets [] strict (some markets) =
    if ltb (length markets) 100 && not strict then kept else found markets

abbrev pub on_delivery : Bool → Stats → Stats
on_delivery true s = record s { delivery_errors = s.delivery_errors + 1 }
on_delivery false s = record s { produced = s.produced + 1 }

abbrev pub enqueue : Collector → Collector
enqueue c = record c { queue = c.queue + 1 }

abbrev pub count_delivery_error : Collector → Collector
count_delivery_error c = record c {
  stats = record (c.stats) { delivery_errors = c.stats.delivery_errors + 1 };
}

abbrev pub count_buffer_error : Collector → Collector
count_buffer_error c = record c {
  stats = record (c.stats) { buffer_errors = c.stats.buffer_errors + 1 };
}

abbrev pub count_message : ℕ → Collector → Collector
count_message size c = record c {
  stats = record (c.stats) { received = c.stats.received + 1; bytes = c.stats.bytes + size };
}

-- The end of an attempt, by any exception of the outer block; the wait of `backoff` seconds is
-- before the last assignment.
unfoldable pub on_failure : Collector → Collector
on_failure c = record c {
  connected = false;
  backoff = min (c.backoff * 2) 30;
  stats = record (c.stats) { reconnects = c.stats.reconnects + 1 };
}

-- The second `produce`, inside the handler of BufferError: a KafkaException leaves it.
unfoldable pub retry : Produce → Collector → Collector
unfolding on_failure
retry taken c = enqueue c
retry buffer_full c = count_delivery_error c
retry refused c = on_failure c

-- An order book of so many bytes, and what the first `produce` and the second one would do.
unfoldable pub on_book : ℕ → Produce → Produce → Collector → Collector
unfolding retry
on_book size taken second c = enqueue (count_message size c)
on_book size buffer_full second c = retry second (count_buffer_error (count_message size c))
on_book size refused second c = count_delivery_error (count_message size c)

abbrev pub same_markets : List String → List String → Bool
same_markets [] [] = true
same_markets (a ∷ ms) (b ∷ ns) = str_eq a b && same_markets ms ns
same_markets _ _ = false

-- The refresh of the markets, which is done only without a list in the environment.
abbrev pub on_refresh : Markets → Collector → Collector
on_refresh (found latest) c =
    if is_empty latest || same_markets latest c.markets then c else record c { markets = latest }
on_refresh _ c = c

-- `accepted`: the connection takes the subscription. `book`: an order book arrives. `delivered`: the
-- report of librdkafka on one message. `refreshed`: the reply of the REST request when it is due.
pub data Event : Type 0 where
  accepted : Event
  book : ℕ → Produce → Produce → Event
  delivered : Bool → Event
  refreshed : Option (List String) → Event
  failed : Event

-- The report on one of the messages of the queue.
abbrev pub report_delivery : Bool → ℕ → Collector → Collector
report_delivery err zero c = c
report_delivery err (suc n) c = record c { queue = n; stats = on_delivery err c.stats }

-- An event that the phase of the connection does not allow does nothing.
unfoldable pub step : Event → Collector → Collector
unfolding on_book on_failure fetch_markets
step accepted c = if c.connected then c else record c { connected = true; backoff = 1 }
step (book size first second) c = if c.connected then on_book size first second c else c
step (delivered err) c = report_delivery err c.queue c
step (refreshed reply) c = if c.connected then on_refresh (fetch_markets [] false reply) c else c
step failed c = on_failure c

unfoldable pub run : List Event → Collector → Collector
unfolding step
run [] c = c
run (e ∷ es) c = run es (step e c)
