-- ===== src/Producer/Session/Newest.antt =====
-- `last_event_ms` bounds the time of every trade that the session has given to the writer.
use crypto_cdc_pipeline.Base.{
  ℕ, ◌≤◌, ◌≡◌, inl, inr, refl, sym, subst, ◌∙◌, ◌&&◌, Bool, true, false, Option, none, some, List,
  [], ◌∷◌, ◌++◌, String, arith, ltb, Bool-cases, Option-cases, if◌then◌else◌, All, All-append,
}
use crypto_cdc_pipeline.Producer.Session.{
  Raw, Trade, parse_trade, Config, Effect, added, flushed, reported, subscribed, gap_filled,
  Session, open_fill, on_open, on_failure, due, check_flush, check_report, check_markets,
  take_markets, tick_timers, newer, Event, opened, received, timed_out, broken, on_message,
  take_trade, step, run,
}

module _ {F : Type 0} where
  -- No trade that was given to the writer is newer than this time.
  abbrev pub IsBelow : Option ℕ → Effect F → Type 0
  IsBelow none (added t) = true ≡ false
  IsBelow (some e) (added t) = t.timestamp ≤ e
  IsBelow o flushed = Unit
  IsBelow o reported = Unit
  IsBelow o (subscribed m) = Unit
  IsBelow o (gap_filled r lo hi m) = Unit

  abbrev IsQuiet : Effect F → Type 0
  IsQuiet (added t) = true ≡ false
  IsQuiet _ = Unit

module _ (F : Type 0) where
  -- A turn of the timers gives out no trade and leaves these fields alone.
  abbrev Keeps : Session → List (Effect F) × Session → Type 0
  Keeps s r =
      (r.1.last_event_ms ≡ s.last_event_ms)
      × (r.1.disconnected_ms ≡ s.disconnected_ms)
      × (r.1.pending_startup_fill ≡ s.pending_startup_fill)
      × (r.1.connected ≡ s.connected)
      × All IsQuiet r.0

  Keeps-if :
      (s : Session) (c : Bool) (a b : List (Effect F) × Session)
      → Keeps s a
      → Keeps s b
      → Keeps s (if c then a else b)
  Keeps-if s true a b ha hb = ha
  Keeps-if s false a b ha hb = hb

  Keeps-join :
      (s : Session) (r q : List (Effect F) × Session)
      → Keeps s r
      → Keeps r.1 q
      → Keeps s (r.0 ++ q.0, q.1)
  Keeps-join s r q (a, b, c, d, e) (a', b', c', d', e') =
      (a' ∙ a, b' ∙ b, c' ∙ c, d' ∙ d, All-append IsQuiet r.0 q.0 e e')

  take_markets-Keeps :
      (latest : Option (List String)) (s : Session) → Keeps s (take_markets latest s)
  take_markets-Keeps none s = (refl, refl, refl, refl, tt)
  take_markets-Keeps (some l) s =
      Keeps-if s _ ([], s) (subscribed l ∷ [], record s { markets = l })
        (refl, refl, refl, refl, tt) (refl, refl, refl, refl, (tt, tt))

  tick_timers-Keeps :
      (cfg : Config) (now : ℕ) (latest : Option (List String)) (s : Session)
      → Keeps s (tick_timers cfg now latest s)
  unfolding tick_timers
  tick_timers-Keeps cfg now latest s =
      let r₁ = check_flush {F = F} cfg now s in
      let r₂ = check_report {F = F} now r₁.1 in
      let h₁ : Keeps s r₁ =
        Keeps-if s _ (flushed ∷ [], record s { last_flush = now }) ([], s)
          (refl, refl, refl, refl, (tt, tt)) (refl, refl, refl, refl, tt) in
      let h₂ : Keeps r₁.1 r₂ =
        Keeps-if r₁.1 _ (reported ∷ [], record (r₁.1) { last_report = now }) ([], r₁.1)
          (refl, refl, refl, refl, (tt, tt)) (refl, refl, refl, refl, tt) in
      let r₃ = check_markets {F = F} cfg now latest r₂.1 in
      let h₃ : Keeps r₂.1 r₃ =
        Keeps-if r₂.1 (cfg.auto_refresh && due cfg.refresh_interval r₂.1.last_market_refresh now)
          (take_markets latest (record (r₂.1) { last_market_refresh = now })) ([], r₂.1)
          (take_markets-Keeps latest (record (r₂.1) { last_market_refresh = now }))
          (refl, refl, refl, refl, tt) in
      Keeps-join s r₁ (r₂.0 ++ r₃.0, r₃.1) h₁ (Keeps-join r₁.1 r₂ r₃ h₂ h₃)

-- An optional time that has not gone back.
abbrev pub AtMost : Option ℕ → Option ℕ → Type 0
AtMost none b = Unit
AtMost (some a) none = true ≡ false
AtMost (some a) (some b) = a ≤ b

AtMost-refl : (o : Option ℕ) → AtMost o o
AtMost-refl none = tt
AtMost-refl (some a) = omega arith

AtMost-trans : (a b c : Option ℕ) → AtMost a b → AtMost b c → AtMost a c
AtMost-trans none b c h k = tt
AtMost-trans (some a) none c h k = cc
AtMost-trans (some a) (some b) none h k = k
AtMost-trans (some a) (some b) (some c) h k = omega (arith, h, k)

newer-AtMost : (o : Option ℕ) (t : ℕ) → AtMost o (newer o t)
newer-AtMost none t = tt
newer-AtMost (some e) t = elim (Bool-cases (ltb e t)) [
  | inl h ↦ rw h (ground (arith, h))
  | inr h ↦ rw h (omega arith)
]

module _ (F : Type 0) where
  IsBelow-grows : (a b : Option ℕ) (e : Effect F) → AtMost a b → IsBelow a e → IsBelow b e
  IsBelow-grows none b (added t) le h = cc
  IsBelow-grows (some a) none (added t) le h = le
  IsBelow-grows (some a) (some b) (added t) le h = omega (arith, le, h)
  IsBelow-grows a b flushed le h = tt
  IsBelow-grows a b reported le h = tt
  IsBelow-grows a b (subscribed m) le h = tt
  IsBelow-grows a b (gap_filled r lo hi m) le h = tt

  All-IsBelow-grows :
      (a b : Option ℕ) (es : List (Effect F)) → AtMost a b → All (IsBelow a) es → All (IsBelow b) es
  All-IsBelow-grows a b [] le h = tt
  All-IsBelow-grows a b (e ∷ es) le h =
      (IsBelow-grows a b e le h.0, All-IsBelow-grows a b es le h.1)

  IsQuiet-IsBelow : (o : Option ℕ) (e : Effect F) → IsQuiet e → IsBelow o e
  IsQuiet-IsBelow o (added t) h = cc
  IsQuiet-IsBelow o flushed h = tt
  IsQuiet-IsBelow o reported h = tt
  IsQuiet-IsBelow o (subscribed m) h = tt
  IsQuiet-IsBelow o (gap_filled r lo hi m) h = tt

  All-IsQuiet-IsBelow : (o : Option ℕ) (es : List (Effect F)) → All IsQuiet es → All (IsBelow o) es
  All-IsQuiet-IsBelow o [] h = tt
  All-IsQuiet-IsBelow o (e ∷ es) h = (IsQuiet-IsBelow o e h.0, All-IsQuiet-IsBelow o es h.1)

  newer-IsBelow : (o : Option ℕ) (t : Trade F) → IsBelow (newer o t.timestamp) (added t)
  newer-IsBelow none t = omega arith
  newer-IsBelow (some e) t = elim (Bool-cases (ltb e t.timestamp)) [
    | inl h ↦ rw h (omega arith)
    | inr h ↦ rw h (ground (arith, h))
  ]

  -- What a step, or a run, keeps: the newest time grows, and bounds what was given out.
  abbrev pub Tracks : Session → List (Effect F) × Session → Type 0
  Tracks s r = AtMost s.last_event_ms r.1.last_event_ms × All (IsBelow r.1.last_event_ms) r.0

  Tracks-still : (s : Session) → Tracks s ([], s)
  Tracks-still s = (AtMost-refl s.last_event_ms, tt)

  Keeps-Tracks : (s : Session) (r : List (Effect F) × Session) → Keeps F s r → Tracks s r
  Keeps-Tracks s r (a, b, c, d, q) = (
    subst (AtMost s.last_event_ms) (sym a) (AtMost-refl s.last_event_ms),
    All-IsQuiet-IsBelow r.1.last_event_ms r.0 q,
  )

  open_fill-Tracks : (cfg : Config) (now : ℕ) (s : Session) → Tracks s (open_fill cfg now s)
  unfolding open_fill
  open_fill-Tracks cfg now s = elim (Bool-cases cfg.gapfill_enabled) [
    | inr off ↦ rw (off, open_fill) (Tracks-still s)
    | inl on ↦ elim (Option-cases s.pending_startup_fill) [
      | inr (lo, p) ↦ rw (on, p, open_fill) (AtMost-refl s.last_event_ms, (tt, tt))
      | inl p ↦ elim (Option-cases s.disconnected_ms) [
        | inr (d, q) ↦ rw (on, p, q, open_fill) (AtMost-refl s.last_event_ms, (tt, tt))
        | inl q ↦ rw (on, p, q, open_fill) (Tracks-still s)
      ]
    ]
  ]

  Tracks-if :
      (s : Session) (c : Bool) (a b : List (Effect F) × Session)
      → Tracks s a
      → Tracks s b
      → Tracks s (if c then a else b)
  Tracks-if s true a b ha hb = ha
  Tracks-if s false a b ha hb = hb

module _ {F : Type 0} (amount : F → F → F) (cfg : Config) where
  take_trade-Tracks :
      (now : ℕ) (latest : Option (List String)) (o : Option (Trade F)) (s : Session)
      → Tracks F s (take_trade amount cfg now latest o s)
  unfolding on_failure
  take_trade-Tracks now latest none s = (AtMost-refl s.last_event_ms, (tt, tt))
  take_trade-Tracks now latest (some t) s =
      let s' : Session = record s { last_event_ms = newer s.last_event_ms t.timestamp } in
      let r = tick_timers {F = F} cfg now latest s' in
      let (grows, below) = Keeps-Tracks F s' r (tick_timers-Keeps F cfg now latest s') in
      (
        AtMost-trans s.last_event_ms s'.last_event_ms r.1.last_event_ms
            (newer-AtMost s.last_event_ms t.timestamp) grows,
        (
          IsBelow-grows F s'.last_event_ms r.1.last_event_ms (added t) grows
              (newer-IsBelow F s.last_event_ms t),
          below,
        ),
      )

  on_message-Tracks :
      (now : ℕ) (latest : Option (List String)) (m : Option (Raw F)) (s : Session)
      → Tracks F s (on_message amount cfg now latest m s)
  on_message-Tracks now latest none s =
      Keeps-Tracks F s (tick_timers cfg now latest s) (tick_timers-Keeps F cfg now latest s)
  on_message-Tracks now latest (some d) s =
      take_trade-Tracks now latest (parse_trade amount now d) s

  step-Tracks : (e : Event F) (s : Session) → Tracks F s (step amount cfg e s)
  unfolding step on_open on_failure
  step-Tracks (opened now) s =
      let (grows, below) = open_fill-Tracks F cfg now s in
      Tracks-if F s s.connected ([], s) (on_open cfg now s) (Tracks-still F s) (grows, (tt, below))
  step-Tracks (received now latest m) s =
      Tracks-if F s s.connected (on_message amount cfg now latest m s) ([], s)
        (on_message-Tracks now latest m s) (Tracks-still F s)
  step-Tracks (timed_out now latest) s =
      Tracks-if F s s.connected (tick_timers cfg now latest s) ([], s)
        (Keeps-Tracks F s (tick_timers cfg now latest s) (tick_timers-Keeps F cfg now latest s))
        (Tracks-still F s)
  step-Tracks (broken now) s = (AtMost-refl s.last_event_ms, (tt, tt))

  -- A run bounds every trade that it gives to the writer.
  pub run-Tracks : (es : List (Event F)) (s : Session) → Tracks F s (run amount cfg es s)
  unfolding run
  run-Tracks [] s = Tracks-still F s
  run-Tracks (e ∷ es) s =
      let r = step amount cfg e s in
      let q = run amount cfg es r.1 in
      let (grows₁, below₁) = step-Tracks e s in
      let (grows₂, below₂) = run-Tracks es r.1 in
      (
        AtMost-trans s.last_event_ms r.1.last_event_ms q.1.last_event_ms grows₁ grows₂,
        All-append (IsBelow q.1.last_event_ms) r.0 q.0
            (All-IsBelow-grows F r.1.last_event_ms q.1.last_event_ms r.0 grows₂ below₁) below₂,
      )
