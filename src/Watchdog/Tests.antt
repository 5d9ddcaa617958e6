-- ===== src/Watchdog/Tests.antt =====
-- The watchdog's own self-test, and its theorems at concrete inputs.
use crypto_cdc_pipeline.Base.{ℕ, ◌≡◌, ◌↔◌, refl, true, false, some}
use crypto_cdc_pipeline.Base.Int.{◌-ℤ◌}
use crypto_cdc_pipeline.Watchdog.{
  ok, stale, degraded, down, watchdog_error, Heartbeat, missing, unreadable, present, judge,
  should_send, State,
}
use crypto_cdc_pipeline.Watchdog.Alerts.{Well, judge-ok}

abbrev beat : ℕ → Heartbeat
beat sent = record { sent_at_epoch = sent; clickhouse = some "ok"; verdict = some "ok" }

self_test :
    (judge 720 5000 (present (beat 5000)) ≡ ok)
    × (judge 720 5000 (present (beat 4220)) ≡ down)
    × (judge 720 5000 (present (record (beat 5000) { clickhouse = some "fail" })) ≡ degraded)
    × (judge 720 5000 (present (record (beat 5000) { verdict = some "stale" })) ≡ stale)
    × (judge 720 5000 unreadable ≡ watchdog_error)
    × (judge 720 5000 missing ≡ down)
unfolding judge ◌-ℤ◌
self_test = (refl, refl, refl, refl, refl, refl)

dedup_test :
    (should_send 3600 down ok 5000 5000 ≡ true)
    × (should_send 3600 down down 4700 5000 ≡ false)
    × (should_send 3600 down down 1400 5000 ≡ true)
    × (should_send 3600 ok ok 0 99999 ≡ false)
    × (should_send 3600 ok down 4990 5000 ≡ true)
unfolding should_send ◌-ℤ◌
dedup_test = (refl, refl, refl, refl, refl)

judge-ok_example :
    (judge 720 5000 (present (beat 4500)) ≡ ok)
    ↔ ((hb : Heartbeat) × (present (beat 4500) ≡ present hb) × Well 720 5000 hb)
judge-ok_example = judge-ok 720 5000 (present (beat 4500))

missing_is_down : judge 720 5000 missing ≡ down
unfolding judge
missing_is_down = refl

missing_later : judge 720 5300 missing ≡ down
unfolding judge
missing_later = refl

abbrev was_down : State
was_down = record { level = down; sent_at = 1400 }

abbrev was_ok : State
was_ok = record { level = ok; sent_at = 0 }
