-- ===== src/Orderbook/Guard.antt =====
-- The guard against a short reply of the exchange.
use crypto_cdc_pipeline.Base.{
  ℕ, zero, suc, ◌≤◌, ◌≡◌, ◌⊎◌, inl, inr, refl, ◌∙◌, ◌||◌, Bool, true, false, Option, none, some,
  List, [], ◌∷◌, String, arith, ltb, length, is_empty, Bool-cases, if◌then◌else◌,
}
use crypto_cdc_pipeline.Orderbook.{
  Collector, Produce, taken, buffer_full, refused, Markets, found, kept, raised, fetch_markets,
  Event, accepted, book, delivered, refreshed, failed, on_book, on_failure, retry, on_refresh,
  same_markets, report_delivery, step, run,
}

-- The markets are those of before, or at least a hundred.
abbrev pub IsGuarded : Collector → Collector → Type 0
IsGuarded c c' = (c'.markets ≡ c.markets) ⊎ (100 ≤ length c'.markets)

IsLong : Markets → Type 0
IsLong (found latest) = 100 ≤ length latest
IsLong _ = Unit

fetch_markets-IsLong : (reply : Option (List String)) → IsLong (fetch_markets [] false reply)
unfolding fetch_markets IsLong
fetch_markets-IsLong none = tt
fetch_markets-IsLong (some markets) = elim (Bool-cases (ltb (length markets) 100)) [
  | inl e ↦ rw e tt
  | inr e ↦ rw e (ground (arith, e))
]

on_refresh-IsGuarded : (m : Markets) (c : Collector) → IsLong m → IsGuarded c (on_refresh m c)
unfolding IsLong
on_refresh-IsGuarded (found latest) c h =
    either (is_empty latest || same_markets latest c.markets) (inl refl) (inr h)
  where
    either :
        (b : Bool)
        → IsGuarded c c
        → IsGuarded c (record c { markets = latest })
        → IsGuarded c (if b then c else record c { markets = latest })
    either true x y = x
    either false x y = y
on_refresh-IsGuarded kept c h = inl refl
on_refresh-IsGuarded raised c h = inl refl

pick_same :
    (b : Bool) (x c : Collector) → x.markets ≡ c.markets → (if b then x else c).markets ≡ c.markets
pick_same true x c h = h
pick_same false x c h = refl

on_book-markets :
    (size : ℕ) (first second : Produce) (c : Collector)
    → (on_book size first second c).markets ≡ c.markets
unfolding on_book retry on_failure
on_book-markets size taken second c = refl
on_book-markets size buffer_full taken c = refl
on_book-markets size buffer_full buffer_full c = refl
on_book-markets size buffer_full refused c = refl
on_book-markets size refused second c = refl

step-IsGuarded : (e : Event) (c : Collector) → IsGuarded c (step e c)
unfolding step on_failure
step-IsGuarded accepted c = either c.connected
  where
    either : (b : Bool) → IsGuarded c (if b then c else record c { connected = true; backoff = 1 })
    either true = inl refl
    either false = inl refl
step-IsGuarded (book size first second) c =
    inl
      (pick_same c.connected (on_book size first second c) c (on_book-markets size first second c))
step-IsGuarded (delivered err) c = inl (same c.queue)
  where
    same : (n : ℕ) → (report_delivery err n c).markets ≡ c.markets
    same zero = refl
    same (suc n) = refl
step-IsGuarded (refreshed reply) c =
    either c.connected
      (on_refresh-IsGuarded (fetch_markets [] false reply) c (fetch_markets-IsLong reply))
  where
    either :
        (b : Bool)
        → IsGuarded c (on_refresh (fetch_markets [] false reply) c)
        → IsGuarded c (if b then on_refresh (fetch_markets [] false reply) c else c)
    either true x = x
    either false x = inl refl
step-IsGuarded failed c = inl refl

-- Whatever the exchange replies, a run leaves the markets as they were at its start, or with at least
-- a hundred of them.
pub run-IsGuarded : (es : List Event) (c : Collector) → IsGuarded c (run es c)
unfolding run
run-IsGuarded [] c = inl refl
run-IsGuarded (e ∷ es) c = chain (run-IsGuarded es (step e c)) (step-IsGuarded e c)
  where
    chain :
        IsGuarded (step e c) (run es (step e c))
        → IsGuarded c (step e c)
        → IsGuarded c (run es (step e c))
    chain (inr long) h = inr long
    chain (inl same) (inl before) = inl (same ∙ before)
    chain (inl same) (inr long) = inr (rw same long)
