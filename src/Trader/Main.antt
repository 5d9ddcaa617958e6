-- ===== src/Trader/Main.antt =====
-- virtual-trader/trader.py, `Trader.run`: the main loop, which runs each of its jobs at its
-- period. An iteration is a tick; times are seconds.
pub mod Timers
mod Tests
use crypto_cdc_pipeline.Base.{
  ℕ, zero, suc, ◌+◌, ◌-◌, ◌&&◌, ◌||◌, Bool, true, false, not, List, [], ◌∷◌, ◌++◌, leb,
  if◌then◌else◌,
}

pub data Timed : Type 0 where
  snapshot reconcile check_reset cycle stats : Timed

pub data Job : Type 0 where
  adopt : Job
  timed : Timed → Job

-- CYCLE_SEC, STATS_INTERVAL, and when the Stats were made.
pub record Config : Type 0 where
  pub cycle_sec : ℕ
  pub stats_interval : ℕ
  pub started : ℕ

pub record Loop : Type 0 where
  pub last_snapshot : ℕ
  pub last_reconcile : ℕ
  pub last_reset_check : ℕ
  pub last_cycle : ℕ
  pub last_stats : ℕ
  pub adopted : Bool
  pub connected : Bool
  pub reconnects : ℕ
  pub errors : ℕ

abbrev pub start : ℕ → Loop
start now = record {
  last_snapshot = 0;
  last_reconcile = 0;
  last_reset_check = 0;
  last_cycle = 0;
  last_stats = now;
  adopted = false;
  connected = false;
  reconnects = 0;
  errors = 0;
}

-- An iteration that is not cut off by an exception of a job: whether a connection succeeds where
-- one is made, when the iteration gets past it, how long each job takes if it runs, whether the
-- socket is there at the end.
pub record Tick : Type 0 where
  pub connects : Bool
  pub opened : ℕ
  pub took : Job → ℕ
  pub stays : Bool

-- `now`, read after the adoption.
abbrev pub now_of : Tick → Loop → ℕ
now_of t s = if s.adopted then t.opened else t.opened + t.took adopt

abbrev pub if_due : Bool → Job → List Job
if_due due j = if due then j ∷ [] else []

-- The jobs of a tick that gets past the connection.
abbrev pub jobs_of : Config → ℕ → Loop → List Job
jobs_of c now s =
    if_due (not s.adopted) adopt
    ++ if_due (leb (s.last_snapshot + 3600) now) (timed snapshot)
    ++ if_due (leb (s.last_reconcile + 3600) now && leb (c.started + 120) now) (timed reconcile)
    ++ if_due (leb (s.last_reset_check + 600) now) (timed check_reset)
    ++ if_due (leb (s.last_cycle + c.cycle_sec) now) (timed cycle)
    ++ if_due (leb (s.last_stats + c.stats_interval) now) (timed stats)

-- One job after the other, each with the time at which it begins.
abbrev pub one_by_one : (Job → ℕ) → ℕ → List Job → List (Job × ℕ)
one_by_one took at [] = []
one_by_one took at (j ∷ js) = (j, at) ∷ one_by_one took (at + took j) js

abbrev pub after_jobs : Config → Tick → ℕ → Loop → Loop
after_jobs c t now s = record s {
  last_snapshot = if leb (s.last_snapshot + 3600) now then now else s.last_snapshot;
  last_reconcile =
      if leb (s.last_reconcile + 3600) now && leb (c.started + 120) now
      then now
      else s.last_reconcile;
  last_reset_check = if leb (s.last_reset_check + 600) now then now else s.last_reset_check;
  last_cycle = if leb (s.last_cycle + c.cycle_sec) now then now else s.last_cycle;
  last_stats = if leb (s.last_stats + c.stats_interval) now then now else s.last_stats;
  adopted = true;
  connected = t.stays;
  reconnects = if s.connected then s.reconnects else suc s.reconnects;
}

abbrev pub works : Tick → Loop → Bool
works t s = s.connected || t.connects

unfoldable pub tick : Config → Tick → Loop → List (Job × ℕ) × Loop
tick c t s =
    if works t s
    then (one_by_one t.took t.opened (jobs_of c (now_of t s) s), after_jobs c t (now_of t s) s)
    else ([], record s { errors = suc s.errors })
