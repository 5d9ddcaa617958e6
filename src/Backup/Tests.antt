-- ===== src/Backup/Tests.antt =====
-- The backups at concrete inputs.
use crypto_cdc_pipeline.Base.{
  ℕ, ◌≡◌, refl, Bool, true, false, none, some, List, [], ◌∷◌, All, arith,
}
use crypto_cdc_pipeline.Backup.{
  full, incr, Copy, latest_full, free_remote_space, sync_to_oracle, prune_local,
  apply_remote_retention, verify_remote, choose_backup, latest_backup_since, clickhouse_backup,
}
use crypto_cdc_pipeline.Base.Int.{◌-ℤ◌}
use crypto_cdc_pipeline.Backup.Restore.{Restores, run_days, Later, run_days-Restores}
use crypto_cdc_pipeline.Backup.Remote.{verify_remote_daily}
use crypto_cdc_pipeline.Backup.Parquet.{Answer, File, raised, attempts, attempts-insane}

-- The day 20 with pruning, the days 12 and 10 with it, and the day 9 without.
abbrev days : List (ℕ × Bool)
days = (12, true) ∷ (10, true) ∷ (9, false) ∷ []

days-Later : Later ((20, true) ∷ days)
days-Later = (
  (omega arith, (omega arith, (omega arith, tt))),
  ((omega arith, (omega arith, tt)), ((omega arith, tt), (tt, tt))),
)

run_days-Restores_example :
    (c : Copy) × (rest : List Copy) × (run_days ((20, true) ∷ days) ≡ c ∷ rest)
    × (c.name.day ≡ 20)
    × Restores (run_days ((20, true) ∷ days)) c
run_days-Restores_example = run_days-Restores (20, true) days days-Later

abbrev full_of : ℕ → Copy
full_of d = record { name = record { kind = full; day = d }; base = none }

abbrev incr_of : ℕ → ℕ → Copy
incr_of d b = record {
  name = record { kind = incr; day = d };
  base = some (record { kind = full; day = b });
}

abbrev local : List Copy
local = full_of 17 ∷ incr_of 16 10 ∷ full_of 10 ∷ []

abbrev remote : List Copy
remote = incr_of 16 10 ∷ full_of 10 ∷ incr_of 9 3 ∷ full_of 3 ∷ []

local_latest : latest_full local ≡ some 17
unfolding latest_full
local_latest = refl

verify_remote_daily_example :
    (freed left : List Copy) × (free_remote_space local remote ≡ some freed)
    × (prune_local local ≡ some left)
    × (verify_remote left (apply_remote_retention (sync_to_oracle local freed)) ≡ true)
verify_remote_daily_example =
    verify_remote_daily local remote 17 local_latest (omega arith, (omega arith, tt))

-- Two full backups that were made while the upload did not work: before it works again, no full
-- backup is left on the remote side.
frees_all : free_remote_space (full_of 24 ∷ full_of 17 ∷ []) (full_of 10 ∷ full_of 3 ∷ []) ≡ some []
unfolding free_remote_space latest_full
frees_all = refl

-- A second run on the day of a full backup makes an increment of the same day on it.
same_day : clickhouse_backup 17 (clickhouse_backup 17 []) ≡ incr_of 17 17 ∷ full_of 17 ∷ []
unfolding clickhouse_backup choose_backup latest_full latest_backup_since ◌-ℤ◌
same_day = refl

abbrev broken : File
broken = record { bytes = 1048576; head = true; tail = false }

abbrev answer : File → Answer
answer f = record { src_rows = 5; body = some f }

attempts-insane_example :
    All
      (λ o. o ≡ raised)
      (attempts (answer broken ∷ answer (record broken { tail = true }) ∷ []) none).0
    × ((attempts (answer broken ∷ answer (record broken { tail = true }) ∷ []) none).1
        ≡ some broken)
attempts-insane_example =
    attempts-insane (answer broken) broken (answer (record broken { tail = true }) ∷ []) refl refl
      refl
