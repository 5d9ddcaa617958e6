-- ===== src/Trader/Main/Timers.antt =====
-- When the jobs of the main loop run.
use crypto_cdc_pipeline.Base.{
  ℕ, ◌+◌, ◌++◌, ap, ◌≤◌, ◌<◌, ◌≡◌, refl, ◌∙◌, subst, ◌||◌, ◌==◌, Bool, true, false, List, [], ◌∷◌,
  leb, inl, inr, ◌⊎◌, Bool-cases, arith, if◌then◌else◌,
}
use crypto_cdc_pipeline.Trader.Main.{
  Timed, snapshot, reconcile, check_reset, cycle, stats, Job, adopt, timed, Config, Loop, Tick,
  now_of, works, tick, start,
}

abbrev pub timed_index : Timed → ℕ
timed_index snapshot = 0
timed_index reconcile = 1
timed_index check_reset = 2
timed_index cycle = 3
timed_index stats = 4

abbrev pub runs_job : Timed → List (Job × ℕ) → Bool
runs_job j [] = false
runs_job j ((adopt, at) ∷ is) = runs_job j is
runs_job j ((timed i, at) ∷ is) = timed_index i == timed_index j || runs_job j is

-- When a job begins, 0 where it does not run.
abbrev pub begin_of : Timed → List (Job × ℕ) → ℕ
begin_of j [] = 0
begin_of j ((adopt, at) ∷ is) = begin_of j is
begin_of j ((timed i, at) ∷ is) = if timed_index i == timed_index j then at else begin_of j is

abbrev pub period : Config → Timed → ℕ
period c snapshot = 3600
period c reconcile = 3600
period c check_reset = 600
period c cycle = c.cycle_sec
period c stats = c.stats_interval

abbrev pub last_of : Timed → Loop → ℕ
last_of snapshot s = s.last_snapshot
last_of reconcile s = s.last_reconcile
last_of check_reset s = s.last_reset_check
last_of cycle s = s.last_cycle
last_of stats s = s.last_stats

-- How long the jobs take that the loop runs before a job.
abbrev pub before_job : Timed → (Job → ℕ) → ℕ
before_job snapshot took = 0
before_job reconcile took = took (timed snapshot)
before_job check_reset took = took (timed snapshot) + took (timed reconcile)
before_job cycle took = took (timed snapshot) + took (timed reconcile) + took (timed check_reset)
before_job stats took =
    took (timed snapshot) + took (timed reconcile) + took (timed check_reset) + took (timed cycle)

-- A run of a job: the `now` of its tick, when it begins, and by how much at most it is late.
pub record Began : Type 0 where
  pub now : ℕ
  pub begins : ℕ
  pub late : ℕ

-- The runs of a job, in the ticks from a state.
abbrev pub runs_of : Config → Timed → List Tick → Loop → List Began
runs_of c j [] s = []
runs_of c j (t ∷ ts) s =
    let jobs = (tick c t s).0 in
    let rest = runs_of c j ts (tick c t s).1 in
    let run : Began = record {
      now = now_of t s;
      begins = begin_of j jobs;
      late = before_job j t.took;
    } in
    if runs_job j jobs then run ∷ rest else rest

-- Each `now` is at least the period after the one before, and a run begins at its `now` or as much
-- later as the jobs before it take.
abbrev pub Spaced : ℕ → ℕ → List Began → Type 0
Spaced p last [] = Unit
Spaced p last (b ∷ bs) =
    (last + p ≤ b.now) × (b.now ≤ b.begins) × (b.begins ≤ b.now + b.late) × Spaced p b.now bs

tick_runs :
    (c : Config) (j : Timed) (t : Tick) (s : Loop)
    → runs_job j (tick c t s).0 ≡ true
    → last_of j s + period c j ≤ now_of t s
unfolding tick
tick_runs c snapshot t s h = ground (arith, h)
tick_runs c reconcile t s h = ground (arith, h)
tick_runs c check_reset t s h = ground (arith, h)
tick_runs c cycle t s h = ground (arith, h)
tick_runs c stats t s h = ground (arith, h)

tick_begins :
    (c : Config) (j : Timed) (t : Tick) (s : Loop)
    → runs_job j (tick c t s).0 ≡ true
    → (now_of t s ≤ begin_of j (tick c t s).0)
      × (begin_of j (tick c t s).0 ≤ now_of t s + before_job j t.took)
unfolding tick
tick_begins c snapshot t s h = (ground (arith, h), ground (arith, h))
tick_begins c reconcile t s h = (ground (arith, h), ground (arith, h))
tick_begins c check_reset t s h = (ground (arith, h), ground (arith, h))
tick_begins c cycle t s h = (ground (arith, h), ground (arith, h))
tick_begins c stats t s h = (ground (arith, h), ground (arith, h))

tick_last :
    (c : Config) (j : Timed) (t : Tick) (s : Loop)
    → last_of j (tick c t s).1 ≡ (if runs_job j (tick c t s).0 then now_of t s else last_of j s)
unfolding tick
tick_last c snapshot t s = ground arith
tick_last c reconcile t s = ground arith
tick_last c check_reset t s = ground arith
tick_last c cycle t s = ground arith
tick_last c stats t s = ground arith

runs_of-Spaced :
    (c : Config) (j : Timed) (ts : List Tick) (s : Loop)
    → Spaced (period c j) (last_of j s) (runs_of c j ts s)
runs_of-Spaced c j [] s = tt
runs_of-Spaced c j (t ∷ ts) s =
    let rest = runs_of-Spaced c j ts (tick c t s).1 in
    let rows = runs_of c j ts (tick c t s).1 in
    elim (Bool-cases (runs_job j (tick c t s).0)) [
      | inl e ↦
          let moved : last_of j (tick c t s).1 ≡ now_of t s = tick_last c j t s ∙ rw e refl in
          let begun = tick_begins c j t s e in
          rw e (
            tick_runs c j t s e,
            begun.0,
            begun.1,
            subst (λ (x : ℕ). Spaced (period c j) x rows) moved rest,
          )
      | inr e ↦
          let stays : last_of j (tick c t s).1 ≡ last_of j s = tick_last c j t s ∙ rw e refl in
          rw e (subst (λ (x : ℕ). Spaced (period c j) x rows) stays rest)
    ]

-- From the start, over any ticks, whichever connections fail, whatever the clock shows and however
-- long the jobs take: a job runs in a tick only where the tick's `now` is at least the job's period
-- after the `now` of the tick in which it ran before, 3600 s for the snapshot of the positions and
-- for the reconciliation, 600 s for the test for a reset, CYCLE_SEC for the cycle and
-- STATS_INTERVAL for the statistics, which come that long after the start at first; and it begins at
-- that `now` or later, by at most the time that the jobs before it take. So two runs are at least
-- the period apart, less what the jobs before the former of them took.
pub jobs-Spaced :
    (c : Config) (now : ℕ) (ts : List Tick) (j : Timed)
    → Spaced (period c j) (last_of j (start now)) (runs_of c j ts (start now))
jobs-Spaced c now ts j = runs_of-Spaced c j ts (start now)

-- The state after some ticks.
abbrev pub after : Config → List Tick → Loop → Loop
after c [] s = s
after c (t ∷ ts) s = after c ts (tick c t s).1

-- The `now` of the last of some runs, or another time where there is none.
abbrev pub last_now : ℕ → List Began → ℕ
last_now d [] = d
last_now d (b ∷ bs) = last_now b.now bs

last_now-runs_of :
    (c : Config) (j : Timed) (ts : List Tick) (s : Loop)
    → last_now (last_of j s) (runs_of c j ts s) ≡ last_of j (after c ts s)
last_now-runs_of c j [] s = refl
last_now-runs_of c j (t ∷ ts) s =
    let rest = last_now-runs_of c j ts (tick c t s).1 in
    let rows = runs_of c j ts (tick c t s).1 in
    elim (Bool-cases (runs_job j (tick c t s).0)) [
      | inl e ↦
          let moved : last_of j (tick c t s).1 ≡ now_of t s = tick_last c j t s ∙ rw e refl in
          rw e (subst (λ (x : ℕ). last_now x rows ≡ last_of j (after c (t ∷ ts) s)) moved rest)
      | inr e ↦
          let stays : last_of j (tick c t s).1 ≡ last_of j s = tick_last c j t s ∙ rw e refl in
          rw e (subst (λ (x : ℕ). last_now x rows ≡ last_of j (after c (t ∷ ts) s)) stays rest)
    ]

after-append :
    (c : Config) (ts : List Tick) (t : Tick) (s : Loop)
    → after c (ts ++ t ∷ []) s ≡ (tick c t (after c ts s)).1
after-append c [] t s = refl
after-append c (u ∷ ts) t s = after-append c ts t (tick c u s).1

timers_current :
    (c : Config) (t : Tick) (s : Loop) (j : Timed)
    → works t s ≡ true
    → 0 < period c j
    → (now_of t s < last_of j (tick c t s).1 + period c j)
      ⊎ ((timed_index j ≡ 1) × (now_of t s < c.started + 120))
unfolding tick
timers_current c t s snapshot h p = inl (ground (arith, h))
timers_current c t s reconcile h p = elim (Bool-cases (leb (c.started + 120) (now_of t s))) [
  | inl e ↦ inl (ground (arith, h, e))
  | inr e ↦ inr (refl, ground (arith, e))
]
timers_current c t s check_reset h p = inl (ground (arith, h))
timers_current c t s cycle h p = inl (ground (arith, h, p))
timers_current c t s stats h p = inl (ground (arith, h, p))

-- Over any ticks from the start, the last of which has a connection: a job whose period is not zero
-- has last run in a tick whose `now` is less than the period before the `now` of the last tick, the
-- statistics counting from the start until they first run; but for the reconciliation in the first
-- 120 s after the start.
pub tick_overdue :
    (c : Config) (now : ℕ) (ts : List Tick) (t : Tick) (j : Timed)
    → let s = after c ts (start now) in
      let runs = runs_of c j (ts ++ t ∷ []) (start now) in
      works t s ≡ true
      → 0 < period c j
      → (now_of t s < last_now (last_of j (start now)) runs + period c j)
        ⊎ ((timed_index j ≡ 1) × (now_of t s < c.started + 120))
tick_overdue c now ts t j h p =
    let s = after c ts (start now) in
    let ran : last_now (last_of j (start now)) (runs_of c j (ts ++ t ∷ []) (start now))
        ≡ last_of j (tick c t s).1 =
      last_now-runs_of c j (ts ++ t ∷ []) (start now)
      ∙ ap (λ (x : Loop). last_of j x) (after-append c ts t (start now)) in
    rw ran (timers_current c t s j h p)
