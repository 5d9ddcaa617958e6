-- ===== src/Logs/Tests.antt =====
-- The retention of the logs at a concrete directory.
use crypto_cdc_pipeline.Base.{ℕ, ◌+◌, ◌≡◌, refl, true, false, [], keep_if}
use crypto_cdc_pipeline.Logs.{Log, Dir, nothing, file, sub, prune, cutoff_of}
use crypto_cdc_pipeline.Logs.Left.{
  logs_of, stays, no_empty, size, held, prune_exact, prune_accounts,
}

abbrev log : ℕ → Log
log at = record { name = "attempt=1.log"; mtime = at; bytes = 100; stats = true; removes = true }

abbrev logs : Dir
logs = sub "dag_id=health_check" true (sub "run_id=1" true (file (log 1000) nothing) nothing) (
    sub "dag_id=backup_daily" true (file (log 9000000) nothing)
      (file (record (log 2000) { removes = false }) nothing))

abbrev cutoff : ℕ
cutoff = cutoff_of 30 10000000

prune_test :
    (prune cutoff logs).left
    ≡ sub "dag_id=backup_daily" true
        (file (log 9000000) nothing)
        (file (record (log 2000) { removes = false }) nothing)
unfolding prune
prune_test = refl

prune_exact_example :
    (logs_of [] (prune cutoff logs).left ≡ keep_if (stays cutoff) (logs_of [] logs))
    × (no_empty (prune cutoff logs).left ≡ true)
prune_exact_example = prune_exact cutoff logs

prune_accounts_example :
    size logs + held cutoff logs ≡ size (prune cutoff logs).left + (prune cutoff logs).freed
prune_accounts_example = prune_accounts cutoff logs
