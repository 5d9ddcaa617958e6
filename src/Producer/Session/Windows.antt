-- ===== src/Producer/Session/Windows.antt =====
-- The windows that the session fills after an outage.
use crypto_cdc_pipeline.Base.{
  ℕ, ◌+◌, ◌≤◌, ◌≡◌, refl, ap, subst, ◌∙◌, min, map, true, false, none, some, List, [], ◌∷◌, String,
  arith, All,
}
use crypto_cdc_pipeline.Base.Int.{ℤ, pos, ◌-ℤ◌, ◌≤ℤ◌, ltb_ℤ, -ℤ_parts, one_sign}
use crypto_cdc_pipeline.Producer.Session.{
  Config, Effect, subscribed, gap_filled, Session, start, earliest, open_fill, on_open, on_failure,
  Event, opened, broken, step, run,
}
use crypto_cdc_pipeline.Producer.Session.Newest.{IsBelow, run-Tracks}

abbrev pub last_of : ℕ → List ℕ → ℕ
last_of d [] = d
last_of d (x ∷ xs) = last_of x xs

-- The session after the failures at the times d ∷ ds.
abbrev pub down_since : ℕ → List ℕ → Session → Session
down_since d ds s = record s { connected = false; disconnected_ms = some (last_of d ds) }

outage :
    {F : Type 0} (amount : F → F → F) (cfg : Config) (d : ℕ) (ds : List ℕ) (s : Session)
    → (run amount cfg (map broken (d ∷ ds)) s).1 ≡ down_since d ds s
unfolding run step on_failure
outage amount cfg d [] s = refl
outage amount cfg d (x ∷ xs) s =
    outage amount cfg x xs (record s { connected = false; disconnected_ms = some d })

-- The window that follows an outage with the last failure at the time d.
abbrev pub refill : {F : Type 0} → Config → Session → ℕ → ℕ → List (Effect F)
refill cfg s d now =
    subscribed s.markets
    ∷ gap_filled "reconnect" (pos (earliest s.last_event_ms d) -ℤ pos cfg.margin) (now + cfg.margin)
        s.markets
    ∷ []

reopen :
    {F : Type 0} (amount : F → F → F) (cfg : Config) (s : Session) (d now : ℕ)
    → cfg.gapfill_enabled ≡ true
    → s.pending_startup_fill ≡ none
    → (step amount cfg (opened now) (down_since d [] s)).0 ≡ refill cfg s d now
unfolding step on_open open_fill
reopen amount cfg s d now on p = rw (on, p, step, on_open, open_fill) refl

reconnect_fill :
    {F : Type 0} (amount : F → F → F) (cfg : Config) (s : Session) (d now : ℕ) (ds : List ℕ)
    → cfg.gapfill_enabled ≡ true
    → s.pending_startup_fill ≡ none
    → (step amount cfg (opened now) (run amount cfg (map broken (d ∷ ds)) s).1).0
      ≡ refill cfg s (last_of d ds) now
reconnect_fill amount cfg s d now ds on p =
    ap (λ s'. (step amount cfg (opened now) s').0) (outage amount cfg d ds s)
    ∙ reopen amount cfg s (last_of d ds) now on p

-- With gap-fills enabled, let s be the session after any run, with no startup fill pending and e the newest trade time so
-- far, and let any number of failures follow, the last at the time t. The next connection then fills
-- one window, up to `margin` after its own time, that starts at least `margin` before e and before
-- t; and no trade that the run gave to the writer is newer than e.
pub reconnect-covers :
    {F : Type 0} (amount : F → F → F) (cfg : Config) (es : List (Event F)) (s₀ : Session)
    (e d now : ℕ) (ds : List ℕ)
    → cfg.gapfill_enabled ≡ true
    → (run amount cfg es s₀).1.pending_startup_fill ≡ none
    → (run amount cfg es s₀).1.last_event_ms ≡ some e
    → let (effects, s) = run amount cfg es s₀ in
      let s' = (run amount cfg (map broken (d ∷ ds)) s).1 in
      All (IsBelow (some e)) effects
      × (lo : ℤ) × ((step amount cfg (opened now) s').0
          ≡ subscribed s.markets ∷ gap_filled "reconnect" lo (now + cfg.margin) s.markets ∷ [])
      × (lo ≤ℤ pos e -ℤ pos cfg.margin)
      × (lo ≤ℤ pos (last_of d ds) -ℤ pos cfg.margin)
unfolding ◌-ℤ◌
reconnect-covers {F = F} amount cfg es s₀ e d now ds on p h =
    let s = (run amount cfg es s₀).1 in
    let at_opening = reconnect_fill amount cfg s d now ds on p in
    (
      subst (λ o. All (IsBelow o) (run amount cfg es s₀).0) h (run-Tracks amount cfg es s₀).1,
      pos (min e (last_of d ds)) -ℤ pos cfg.margin,
      rw h at at_opening,
      ground arith,
      ground arith,
    )

-- With gap-fills enabled, no trade received so far and no startup fill pending, the window after an
-- outage starts `margin` before the last failed attempt, however long before it the connection was
-- lost.
pub reconnect_misses :
    {F : Type 0} (amount : F → F → F) (cfg : Config) (s : Session) (d now : ℕ) (ds : List ℕ)
    → cfg.gapfill_enabled ≡ true
    → s.pending_startup_fill ≡ none
    → s.last_event_ms ≡ none
    → (step amount cfg (opened now) (run amount cfg (map broken (d ∷ ds)) s).1).0
      ≡ subscribed s.markets
        ∷ gap_filled "reconnect" (pos (last_of d ds) -ℤ pos cfg.margin) (now + cfg.margin) s.markets
        ∷ []
reconnect_misses amount cfg s d now ds on p h =
    reconnect_fill amount cfg s d now ds on p
    ∙ ap
        (λ o.
          subscribed s.markets
          ∷ gap_filled "reconnect" (pos (earliest o (last_of d ds)) -ℤ pos cfg.margin)
              (now + cfg.margin) s.markets
          ∷ [])
        h

waiting :
    {F : Type 0} (amount : F → F → F) (cfg : Config) (ds : List ℕ) (s : Session)
    → s.connected ≡ false
    → let s' = (run amount cfg (map broken ds) s).1 in
      (s'.pending_startup_fill ≡ s.pending_startup_fill)
      × (s'.connected ≡ false)
      × (s'.markets ≡ s.markets)
unfolding run
waiting amount cfg [] s h = (refl, h, refl)
waiting amount cfg (d ∷ ds) s h = let e = outage amount cfg d ds s in rw e (refl, refl, refl)

startup :
    {F : Type 0} (amount : F → F → F) (cfg : Config) (s : Session) (now : ℕ) (lo : ℤ)
    → cfg.gapfill_enabled ≡ true
    → s.pending_startup_fill ≡ some lo
    → s.connected ≡ false
    → let r = step amount cfg (opened now) s in
      (r.0 ≡ subscribed s.markets ∷ gap_filled "startup" lo (now + cfg.margin) s.markets ∷ [])
      × (r.1.pending_startup_fill ≡ none)
unfolding step on_open open_fill
startup amount cfg s now lo on p c =
    (rw (on, p, c, step, on_open, open_fill) refl, rw (on, p, c, step, on_open, open_fill) refl)

pending_start :
    (cfg : Config) (began db : ℕ) (markets : List String)
    → cfg.gapfill_enabled ≡ true
    → began ≤ db + cfg.startup_max
    → (start cfg began (some db) markets).pending_startup_fill ≡ some (pos db -ℤ pos cfg.margin)
unfolding start
pending_start cfg began db markets on fits =
    let young : ltb_ℤ (pos cfg.startup_max) (pos began -ℤ pos db) ≡ false =
      ground (arith, fits, -ℤ_parts (pos began) (pos db), one_sign (pos began -ℤ pos db)) in
    rw (on, young, start) refl

-- With gap-fills enabled, a start at most `startup_max` after the newest trade of the database is made good: the first connection,
-- after any number of failed attempts, fills the window from `margin` before that trade to `margin`
-- after its own time, and no startup fill stays pending.
pub start-fills :
    {F : Type 0} (amount : F → F → F) (cfg : Config) (began db now : ℕ) (markets : List String)
    (ds : List ℕ)
    → cfg.gapfill_enabled ≡ true
    → began ≤ db + cfg.startup_max
    → let s = (run amount cfg (map broken ds) (start cfg began (some db) markets)).1 in
      let r = step amount cfg (opened now) s in
      (r.0
        ≡ subscribed markets
          ∷ gap_filled "startup" (pos db -ℤ pos cfg.margin) (now + cfg.margin) markets
          ∷ [])
      × (r.1.pending_startup_fill ≡ none)
unfolding start
start-fills amount cfg began db now markets ds on fits =
    let s = (run amount cfg (map broken ds) (start cfg began (some db) markets)).1 in
    let (p, c, m) = waiting amount cfg ds (start cfg began (some db) markets) refl in
    let (a, b) =
      startup amount cfg s now (pos db -ℤ pos cfg.margin) on
        (p ∙ pending_start cfg began db markets on fits) c in
    (
      a
          ∙ ap
              (λ l.
                subscribed l
                ∷ gap_filled "startup" (pos db -ℤ pos cfg.margin) (now + cfg.margin) l
                ∷ [])
              m,
      b,
    )
