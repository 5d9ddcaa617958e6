-- ===== src/Logs.antt =====
-- airflow/dags/log_retention.py, `_prune`: the logs that are older than a number of days are removed, and
-- the directories that this leaves empty.
pub mod Left
mod Tests
use crypto_cdc_pipeline.Base.{
  ℕ, suc, ◌+◌, ◌-◌, ◌*◌, ◌&&◌, Bool, true, false, not, String, List, [], ◌∷◌, ltb, if◌then◌else◌,
}

-- A log: its modification time, its size, whether os.stat and os.remove work on it.
pub record Log : Type 0 where
  pub name : String
  pub mtime : ℕ
  pub bytes : ℕ
  pub stats : Bool
  pub removes : Bool

-- The entries of a directory; a subdirectory has its name, whether os.rmdir works on it where
-- it is empty, its entries, and then the entries beside it.
pub data Dir : Type 0 where
  nothing : Dir
  file : Log → Dir → Dir
  sub : String → Bool → Dir → Dir → Dir

abbrev pub is_nothing : Dir → Bool
is_nothing nothing = true
is_nothing (file f d) = false
is_nothing (sub n ok c d) = false

-- AIRFLOW_LOG_KEEP_DAYS is the first argument.
abbrev pub cutoff_of : ℕ → ℕ → ℕ
cutoff_of keep_days now = now - keep_days * 86400

-- `result`, without the kinds of the errors.
pub record Pruned : Type 0 where
  pub left : Dir
  pub removed_files : ℕ
  pub freed : ℕ
  pub errors : ℕ

abbrev pub prune_file : ℕ → Log → Pruned → Pruned
prune_file cutoff f rest =
    if not f.stats
    then record rest { left = file f rest.left; errors = suc rest.errors }
    else if not (ltb f.mtime cutoff)
    then record rest { left = file f rest.left }
    else if not f.removes
    then record rest {
      left = file f rest.left;
      freed = f.bytes + rest.freed;
      errors = suc rest.errors;
    }
    else record rest { removed_files = suc rest.removed_files; freed = f.bytes + rest.freed }

abbrev pub prune_sub : String → Bool → Pruned → Pruned → Pruned
prune_sub n ok below rest = record {
  left = if is_nothing below.left && ok then rest.left else sub n ok below.left rest.left;
  removed_files = below.removed_files + rest.removed_files;
  freed = below.freed + rest.freed;
  errors = below.errors + rest.errors;
}

-- os.walk from below: a directory is looked at after its subdirectories are pruned.
unfoldable pub prune : ℕ → Dir → Pruned
prune cutoff nothing = record { left = nothing; removed_files = 0; freed = 0; errors = 0 }
prune cutoff (file f d) = prune_file cutoff f (prune cutoff d)
prune cutoff (sub n ok c d) = prune_sub n ok (prune cutoff c) (prune cutoff d)
