-- ===== src/Watchdog/Alerts.antt =====
-- What the watchdog reports, and how often.
use crypto_cdc_pipeline.Base.{
  ℕ, ◌+◌, ◌≤◌, ◌<◌, ◌≡◌, ◌≢◌, ◌↔◌, ◌⊎◌, inl, inr, refl, Bool, Bool-cases, ap, subst, true, false,
  Option, none, some, String, arith, is_some, eq_iff, if◌then◌else◌, leb,
}
use crypto_cdc_pipeline.Watchdog.{
  Level, ok, stale, Heartbeat, HeartbeatFile, missing, unreadable, present, has_text, judge,
  should_send, State, Notice, alert, tick, choose_notice, same_level,
}
use crypto_cdc_pipeline.Base.Int.{◌-ℤ◌}

some_eq : {a b : String} → some a ≡ some b → a ≡ b
some_eq h = cc

present_eq : {a b : Heartbeat} → present a ≡ present b → b ≡ a
present_eq h = cc

has_text_iff : (o : Option String) (t : String) → (has_text o t ≡ true) ↔ (o ≡ some t)
has_text_iff none t = (λ h. cc, λ h. cc)
has_text_iff (some s) t = (λ h. ap some ((eq_iff s t).0 h), λ h. (eq_iff s t).1 (some_eq h))

-- The conditions under which a heartbeat is well.
abbrev pub Well : ℕ → ℕ → Heartbeat → Type 0
Well down_sec now hb =
    (now ≤ hb.sent_at_epoch + down_sec) × (hb.clickhouse ≡ some "ok") × (hb.verdict ≢ some "stale")

judge_present :
    (down_sec now : ℕ) (hb : Heartbeat)
    → (judge down_sec now (present hb) ≡ ok) ↔ Well down_sec now hb
unfolding judge ◌-ℤ◌
judge_present down_sec now hb = (
  λ h. (
    ground arith,
    (has_text_iff hb.clickhouse "ok").0 (ground arith),
    λ e. ground (arith, (has_text_iff hb.verdict "stale").1 e),
  ),
  λ h. ground (arith, h.0, (has_text_iff hb.clickhouse "ok").1 h.1, not_text hb.verdict h.2),
)
  where
    not_text : (o : Option String) → o ≢ some "stale" → has_text o "stale" ≡ false
    not_text o ne = elim (Bool-cases (has_text o "stale")) [
      | inl e ↦ absurd (ne ((has_text_iff o "stale").0 e))
      | inr e ↦ e
    ]

-- Silence is the alarm: `judge` says ok exactly when there is a readable heartbeat that is at most
-- `down_sec` seconds old, reports ClickHouse as "ok", and has a verdict other than "stale".
pub judge-ok :
    (down_sec now : ℕ) (file : HeartbeatFile)
    → (judge down_sec now file ≡ ok)
      ↔ ((hb : Heartbeat) × (file ≡ present hb) × Well down_sec now hb)
unfolding judge
judge-ok down_sec now missing = (λ h. cc, λ (hb, e, w). cc)
judge-ok down_sec now unreadable = (λ h. cc, λ (hb, e, w). cc)
judge-ok down_sec now (present hb) = (
  λ h. (hb, refl, (judge_present down_sec now hb).0 h),
  λ (hb', e, w). (judge_present down_sec now hb).1 (subst (Well down_sec now) (present_eq e) w),
)

same_level_refl : (a : Level) → same_level a a ≡ true
same_level_refl ok = refl
same_level_refl stale = refl
same_level_refl _ = refl

same_level-ne : (a b : Level) → a ≢ b → same_level a b ≡ false
same_level-ne a b ne = ground arith

should_send-same :
    (repeat_sec : ℕ) (level : Level) (since now : ℕ)
    → level ≢ ok
    → should_send repeat_sec level level since now ≡ leb (since + repeat_sec) now
unfolding should_send ◌-ℤ◌
should_send-same repeat_sec level since now bad =
    rw (same_level_refl, same_level-ne level ok bad) (ground arith)

choose_notice-bad :
    (send : Bool) (level prev : Level)
    → level ≢ ok
    → choose_notice send level prev ≡ (if send then some (alert level) else none)
choose_notice-bad send level prev bad = rw (same_level-ne level ok bad) (ground arith)

-- A level other than ok that lasts: a run sends its alert again exactly when `repeat_sec` seconds
-- have passed since the last one, and otherwise sends nothing and leaves the state alone.
pub tick_repeats :
    (down_sec repeat_sec now : ℕ) (file : HeartbeatFile) (slack : Notice → Bool) (st : State)
    → judge down_sec now file ≡ st.level
    → st.level ≢ ok
    → let run = tick down_sec repeat_sec now file slack (some st) in
      let again = leb (st.sent_at + repeat_sec) now in
      (run.notice ≡ (if again then some (alert st.level) else none))
      × (run.state ≡ (if again then record { level = st.level; sent_at = now } else st))
unfolding tick
tick_repeats down_sec repeat_sec now file slack st h bad = (
  rw (h, tick, should_send-same repeat_sec st.level st.sent_at now bad)
      (choose_notice-bad (leb (st.sent_at + repeat_sec) now) st.level st.level bad),
  rw (h, tick, should_send-same repeat_sec st.level st.sent_at now bad, same_level_refl)
      (ground arith),
)

should_send-quiet :
    (repeat_sec : ℕ) (level : Level) (since now : ℕ)
    → (level ≡ ok) ⊎ (now < since + repeat_sec)
    → should_send repeat_sec level level since now ≡ false
unfolding should_send ◌-ℤ◌
should_send-quiet repeat_sec level since now (inl h) = rw (same_level_refl, h) refl
should_send-quiet repeat_sec level since now (inr h) = rw same_level_refl (ground arith)

should_send-change :
    (repeat_sec : ℕ) (level prev : Level) (since now : ℕ)
    → level ≢ prev
    → should_send repeat_sec level prev since now ≡ true
unfolding should_send
should_send-change repeat_sec level prev since now ne = rw (same_level-ne level prev ne)

tick_announces :
    (down_sec repeat_sec now : ℕ) (file : HeartbeatFile) (slack : Notice → Bool) (st : State)
    (level : Level)
    → judge down_sec now file ≡ level
    → level ≢ st.level
    → let first = tick down_sec repeat_sec now file slack (some st) in
      (is_some first.notice ≡ true) × (first.state ≡ record { level = level; sent_at = now })
unfolding tick
tick_announces down_sec repeat_sec now file slack st level h ne = (
  rw (h, tick, should_send-change repeat_sec level st.level st.sent_at now ne) (ground arith),
  rw (h, tick, should_send-change repeat_sec level st.level st.sent_at now ne) (ground arith),
)

tick_silent :
    (down_sec repeat_sec now later : ℕ) (file : HeartbeatFile) (slack : Notice → Bool)
    (level : Level)
    → judge down_sec later file ≡ level
    → (level ≡ ok) ⊎ (later < now + repeat_sec)
    → let st : State = record { level = level; sent_at = now } in
      let second = tick down_sec repeat_sec later file slack (some st) in
      (second.notice ≡ none) × (second.state ≡ st)
unfolding tick
tick_silent down_sec repeat_sec now later file slack level h quiet = (
  rw (h, tick, should_send-quiet repeat_sec level now later quiet) refl,
  rw (h, tick, should_send-quiet repeat_sec level now later quiet, same_level_refl) refl,
)

-- A change of level is announced once: the run that sees it sends a notice, and whatever Slack
-- answered, a later run at the same level sends nothing, for good if the level is ok, and within
-- `repeat_sec` seconds otherwise. A notice that Slack refused is not sent again.
pub tick_announces_once :
    (down_sec repeat_sec now later : ℕ) (file file' : HeartbeatFile) (slack slack' : Notice → Bool)
    (st : State) (level : Level)
    → judge down_sec now file ≡ level
    → judge down_sec later file' ≡ level
    → level ≢ st.level
    → (level ≡ ok) ⊎ (later < now + repeat_sec)
    → let first = tick down_sec repeat_sec now file slack (some st) in
      let second = tick down_sec repeat_sec later file' slack' (some first.state) in
      (is_some first.notice ≡ true)
      × (first.state ≡ record { level = level; sent_at = now })
      × (second.notice ≡ none)
      × (second.state ≡ first.state)
tick_announces_once down_sec repeat_sec now later file file' slack slack' st level h h' ne quiet =
    let (a, b) = tick_announces down_sec repeat_sec now file slack st level h ne in
    let (c, d) = tick_silent down_sec repeat_sec now later file' slack' level h' quiet in
    (a, b, rw b c, rw b d)
