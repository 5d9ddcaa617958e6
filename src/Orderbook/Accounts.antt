-- ===== src/Orderbook/Accounts.antt =====
-- What becomes of the order books that were received.
use crypto_cdc_pipeline.Base.{
  ℕ, zero, suc, ◌+◌, ◌≡◌, refl, ◌||◌, Bool, true, false, List, [], ◌∷◌, arith, is_empty,
  if◌then◌else◌,
}
use crypto_cdc_pipeline.Orderbook.{
  taken, buffer_full, refused, Collector, Markets, found, kept, raised, fetch_markets, Event,
  accepted, book, delivered, refreshed, failed, on_book, on_failure, retry, on_refresh,
  same_markets, report_delivery, step, run,
}

-- One for an order book that meets a full queue first and a KafkaException then.
abbrev pub escapes_at : Event → Collector → ℕ
escapes_at (book size buffer_full refused) c = if c.connected then 1 else 0
escapes_at _ c = 0

abbrev pub escapes : List Event → Collector → ℕ
escapes [] c = 0
escapes (e ∷ es) c = escapes_at e c + escapes es (step e c)

-- The books that are delivered, counted as errors, or in the queue.
abbrev pub accounted : Collector → ℕ
accounted c = c.stats.produced + c.stats.delivery_errors + c.queue

-- The counters of a state are those of another.
abbrev SameBooks : Collector → Collector → Type 0
SameBooks c d = (c.stats.received ≡ d.stats.received) × (accounted c ≡ accounted d)

report_delivery-SameBooks :
    (err : Bool) (n : ℕ) (c : Collector) → c.queue ≡ n → SameBooks (report_delivery err n c) c
report_delivery-SameBooks err zero c h = (refl, refl)
report_delivery-SameBooks true (suc n) c h = (refl, omega (arith, h))
report_delivery-SameBooks false (suc n) c h = (refl, omega (arith, h))

on_refresh-SameBooks : (m : Markets) (c : Collector) → SameBooks (on_refresh m c) c
on_refresh-SameBooks (found latest) c =
    either (is_empty latest || same_markets latest c.markets) c (record c { markets = latest })
      (refl, refl) (refl, refl)
  where
    either :
        (b : Bool) (x y : Collector)
        → SameBooks x c
        → SameBooks y c
        → SameBooks (if b then x else y) c
    either true x y hx hy = hx
    either false x y hx hy = hy
on_refresh-SameBooks kept c = (refl, refl)
on_refresh-SameBooks raised c = (refl, refl)

step-accounts :
    (e : Event) (c : Collector) (lost : ℕ)
    → c.stats.received ≡ accounted c + lost
    → (step e c).stats.received ≡ accounted (step e c) + (lost + escapes_at e c)
unfolding step on_book on_failure retry fetch_markets
step-accounts accepted c lost h = ground (arith, h)
step-accounts (book size taken second) c lost h = ground (arith, h)
step-accounts (book size buffer_full taken) c lost h = ground (arith, h)
step-accounts (book size buffer_full buffer_full) c lost h = ground (arith, h)
step-accounts (book size buffer_full refused) c lost h = ground (arith, h)
step-accounts (book size refused second) c lost h = ground (arith, h)
step-accounts (delivered err) c lost h =
    let (a, b) = report_delivery-SameBooks err c.queue c refl in omega (arith, a, b, h)
step-accounts (refreshed reply) c lost h =
    let (a, b) = on_refresh-SameBooks (fetch_markets [] false reply) c in ground (arith, a, b, h)
step-accounts failed c lost h = ground (arith, h)

run_accounts :
    (es : List Event) (c : Collector) (lost : ℕ)
    → c.stats.received ≡ accounted c + lost
    → (run es c).stats.received ≡ accounted (run es c) + (lost + escapes es c)
unfolding run
run_accounts [] c lost h = omega (arith, h)
run_accounts (e ∷ es) c lost h =
    omega (arith, run_accounts es (step e c) (lost + escapes_at e c) (step-accounts e c lost h))

-- From a state whose books are all accounted for, any run accounts for every order book received:
-- it is delivered, counted as a delivery error or in the queue, but for those that meet a full
-- queue and then a KafkaException, which are in none of these counts.
pub run-accounted :
    (es : List Event) (c : Collector)
    → c.stats.received ≡ accounted c
    → (run es c).stats.received ≡ accounted (run es c) + escapes es c
run-accounted es c h = omega (arith, run_accounts es c 0 (omega (arith, h)))
