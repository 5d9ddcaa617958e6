-- ===== src/Binance/Connection.antt =====
-- How long a connection stays, and how long it waits.
use crypto_cdc_pipeline.Base.{
  ℕ, ◌+◌, ◌≤◌, ◌<◌, ◌≡◌, ◌⊎◌, inl, inr, refl, Bool, true, false, List, [], ◌∷◌, map, length, arith,
  leb, if◌then◌else◌,
}
use crypto_cdc_pipeline.Binance.{
  Config, Conn, Event, accepted, frame, timeout, failed, leave, next_turn, on_timeout, on_frame,
  on_failure, step, run, count_frame,
}

-- A connection that is up has seen fewer timeouts in a row than the limit, and the wait after a failure
-- is between one second and a minute.
abbrev pub IsWell : Config → Conn → Type 0
IsWell cfg c =
    ((c.connected ≡ false) ⊎ (c.idle_timeouts < cfg.idle_limit))
    × (1 ≤ c.backoff)
    × (c.backoff ≤ 60)

leave-IsWell : (cfg : Config) (c : Conn) → 1 ≤ c.backoff → c.backoff ≤ 60 → IsWell cfg (leave c)
unfolding leave
leave-IsWell cfg c lo hi = (inl refl, lo, hi)

pick-IsWell :
    (cfg : Config) (b : Bool) (x y : Conn)
    → IsWell cfg x
    → (b ≡ false → IsWell cfg y)
    → IsWell cfg (if b then x else y)
pick-IsWell cfg true x y hx hy = hx
pick-IsWell cfg false x y hx hy = hy refl

next_turn-IsWell :
    (cfg : Config) (now : ℕ) (c : Conn) → IsWell cfg c → IsWell cfg (next_turn cfg now c)
unfolding next_turn
next_turn-IsWell cfg now c h = pick-IsWell cfg _ (leave c) c (leave-IsWell cfg c h.1 h.2) (λ e. h)

step-IsWell :
    (cfg : Config) (e : Event) (c : Conn)
    → 0 < cfg.idle_limit
    → IsWell cfg c
    → IsWell cfg (step cfg e c)
unfolding step on_timeout on_frame on_failure
step-IsWell cfg (accepted t) c p h = pick-IsWell cfg c.connected c _ h (λ e.
    next_turn-IsWell cfg t
      (record c { connected = true; backoff = 1; idle_timeouts = 0; opened = t })
      (inr p, omega arith, omega arith))
step-IsWell cfg (frame now o) c p h =
    pick-IsWell cfg c.connected _ c
      (next_turn-IsWell cfg now (record c { idle_timeouts = 0; stats = count_frame o c.stats })
        (inr p, h.1, h.2))
      (λ e. h)
step-IsWell cfg (timeout now) c p h =
    let c' : Conn = record c { idle_timeouts = c.idle_timeouts + 1 } in
    pick-IsWell cfg c.connected _ c
      (pick-IsWell cfg (leb cfg.idle_limit (c.idle_timeouts + 1)) (leave c') (next_turn cfg now c')
        (leave-IsWell cfg c' h.1 h.2)
        (λ e. next_turn-IsWell cfg now c' (inr (ground (arith, e)), h.1, h.2)))
      (λ e. h)
step-IsWell cfg failed c p h = (inl refl, omega (arith, h.1), omega (arith, h.2))

-- In every run of a connection, it is up only with fewer timeouts in a row than the limit, and the wait
-- after a failure stays between 1 and 60 seconds, if the limit is positive.
pub run-IsWell :
    (cfg : Config) (es : List Event) (c : Conn)
    → 0 < cfg.idle_limit
    → IsWell cfg c
    → IsWell cfg (run cfg es c)
unfolding run
run-IsWell cfg [] c p h = h
run-IsWell cfg (e ∷ es) c p h = run-IsWell cfg es (step cfg e c) p (step-IsWell cfg e c p h)

down_stays :
    (cfg : Config) (ts : List ℕ) (c : Conn)
    → c.connected ≡ false
    → (run cfg (map timeout ts) c).connected ≡ false
unfolding run step
down_stays cfg [] c h = h
down_stays cfg (t ∷ ts) c h =
    down_stays cfg ts (step cfg (timeout t) c) (otherwise c.connected (on_timeout cfg t c) c h h)
  where
    otherwise :
        (b : Bool) (x y : Conn)
        → b ≡ false
        → y.connected ≡ false
        → (if b then x else y).connected ≡ false
    otherwise true x y e k = cc
    otherwise false x y e k = k

-- One timeout closes the connection, or is counted.
timeout_counts :
    (cfg : Config) (t : ℕ) (c : Conn)
    → let c' = step cfg (timeout t) c in
      (c'.connected ≡ false)
      ⊎ (c'.idle_timeouts ≡ c.idle_timeouts + 1) × (c'.idle_timeouts < cfg.idle_limit)
unfolding step on_timeout next_turn leave
timeout_counts cfg t c = ground arith

-- A connection that gets no frame for as many timeouts in a row as the limit is closed.
pub silence_closes :
    (cfg : Config) (ts : List ℕ) (c : Conn)
    → cfg.idle_limit ≤ c.idle_timeouts + length ts
    → c.idle_timeouts < cfg.idle_limit
    → (run cfg (map timeout ts) c).connected ≡ false
unfolding run
silence_closes cfg [] c long less = absurd (omega (arith, long, less))
silence_closes cfg (t ∷ ts) c long less = elim (timeout_counts cfg t c) [
  | inl down ↦ down_stays cfg ts (step cfg (timeout t) c) down
  | inr (one, fewer) ↦
      silence_closes cfg ts (step cfg (timeout t) c) (omega (arith, one, long)) fewer
]
