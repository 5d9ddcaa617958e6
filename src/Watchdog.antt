-- ===== src/Watchdog.antt =====
-- scripts/ops/cdc-watchdog.py: the external watchdog, which judges the age of one heartbeat file.
pub mod Alerts
mod Tests
use crypto_cdc_pipeline.Base.{
  ℕ, ◌+◌, ◌*◌, ◌&&◌, ◌||◌, ◌==◌, Bool, true, false, not, Option, none, some, String, str_eq, ltb,
  leb, if◌then◌else◌,
}
use crypto_cdc_pipeline.Base.Int.{ℤ, pos, ◌-ℤ◌, ltb_ℤ, leb_ℤ}

pub data Level : Type 0 where
  ok stale degraded down watchdog_error : Level

-- The fields of the heartbeat that `judge` reads; `sent_at_epoch` is 0 when it is missing.
pub record Heartbeat : Type 0 where
  pub sent_at_epoch : ℕ
  pub clickhouse : Option String
  pub verdict : Option String

-- What is at the path: nothing, text that is no JSON, or a heartbeat.
pub data HeartbeatFile : Type 0 where
  missing : HeartbeatFile
  unreadable : HeartbeatFile
  present : Heartbeat → HeartbeatFile

abbrev pub has_text : Option String → String → Bool
has_text none s = false
has_text (some t) s = str_eq t s

-- `judge` at the time `now`; both clocks are in seconds, and the heartbeat's may be ahead.
unfoldable pub judge : ℕ → ℕ → HeartbeatFile → Level
judge down_sec now missing = down
judge down_sec now unreadable = watchdog_error
judge down_sec now (present hb) =
    if ltb_ℤ (pos down_sec) (pos now -ℤ pos hb.sent_at_epoch)
    then down
    else if not (has_text hb.clickhouse "ok")
    then degraded
    else if has_text hb.verdict "stale"
    then stale
    else ok

abbrev pub rank : Level → ℕ
rank ok = 0
rank stale = 1
rank degraded = 2
rank down = 3
rank watchdog_error = 4

abbrev pub same_level : Level → Level → Bool
same_level a b = rank a == rank b

unfoldable pub should_send : ℕ → Level → Level → ℕ → ℕ → Bool
should_send repeat_sec level prev since now =
    if not (same_level level prev)
    then true
    else not (same_level level ok) && leb_ℤ (pos repeat_sec) (pos now -ℤ pos since)

-- state.json
pub record State : Type 0 where
  pub level : Level
  pub sent_at : ℕ

abbrev pub initial : State
initial = record { level = ok; sent_at = 0 }

-- What `main` hands to `slack`: the recovery notice, the body of an alert, or nothing.
pub data Notice : Type 0 where
  recovery : Level → Notice
  alert : Level → Notice

abbrev pub choose_notice : Bool → Level → Level → Option Notice
choose_notice send level prev =
    if send && same_level level ok && ltb 0 (rank prev)
    then some (recovery prev)
    else if send
    then some (alert level)
    else none

-- One run of `main`: the notice, whether Slack took it (`delivered`, which is only printed), and
-- the state that it leaves.
pub record Run : Type 0 where
  pub notice : Option Notice
  pub delivered : Option Bool
  pub state : State

-- `stored` is what the state file holds, `none` where it is missing or broken.
unfoldable pub tick : ℕ → ℕ → ℕ → HeartbeatFile → (Notice → Bool) → Option State → Run
tick down_sec repeat_sec now file slack stored =
    let st : State = elim stored [ none ↦ initial | some s ↦ s ] in
    let level = judge down_sec now file in
    let send = should_send repeat_sec level st.level st.sent_at now in
    let notice = choose_notice send level st.level in
    record {
      notice = notice;
      delivered = elim notice [ none ↦ none | some n ↦ some (slack n) ];
      state =
          if not (same_level level st.level) || send
          then record { level = level; sent_at = if send then now else st.sent_at }
          else st;
    }
