-- ===== src/Backup.antt =====
-- airflow/dags/backup_daily.py: the daily backups, their chain and their retention. The tag of a
-- directory is the number of its day, which orders as the eight digits do.
pub mod Chain
pub mod Pruned
pub mod Restore
pub mod Days
pub mod Remote
pub mod Parquet
mod Tests
use crypto_cdc_pipeline.Base.{
  ℕ, zero, suc, ◌+◌, ◌-◌, ◌&&◌, ◌||◌, ◌==◌, Bool, true, false, not, Option, none, some, List, [],
  ◌∷◌, ◌++◌, ltb, leb, length, drop, map, keep_if, if◌then◌else◌,
}
use crypto_cdc_pipeline.Base.Int.{ℤ, pos, ◌-ℤ◌, leb_ℤ}

pub data Kind : Type 0 where
  full incr : Kind

-- `full_<tag>` or `incr_<tag>`
pub record Name : Type 0 where
  pub kind : Kind
  pub day : ℕ

-- A directory of a backup, with the `base_backup` that it was made on.
pub record Copy : Type 0 where
  pub name : Name
  pub base : Option Name

abbrev pub is_full : Name → Bool
is_full n = elim n.kind [ full ↦ true | incr ↦ false ]

abbrev pub same_name : Name → Name → Bool
same_name a b = (if is_full a then is_full b else not (is_full b)) && a.day == b.day

abbrev pub has : Name → List Copy → Bool
has n [] = false
has n (c ∷ cs) = same_name c.name n || has n cs

-- The order of the names as texts: every "full_" is before every "incr_".
abbrev pub name_leb : Name → Name → Bool
name_leb a b =
    if is_full a
    then (if is_full b then leb a.day b.day else true)
    else (if is_full b then false else leb a.day b.day)

-- `sorted(...)[-1]`
abbrev pub last_name : List Name → Option Name
last_name [] = none
last_name (n ∷ ns) = elim (last_name ns) [
  | none ↦ some n
  | some m ↦ if name_leb n m then some m else some n
]

abbrev pub full_days : List Copy → List ℕ
full_days [] = []
full_days (c ∷ cs) = if is_full c.name then c.name.day ∷ full_days cs else full_days cs

abbrev pub latest_day : List ℕ → Option ℕ
latest_day [] = none
latest_day (d ∷ ds) = elim (latest_day ds) [
  | none ↦ some d
  | some e ↦ if leb d e then some e else some d
]

unfoldable pub latest_full : List Copy → Option ℕ
latest_full cs = latest_day (full_days cs)

abbrev pub names_since : ℕ → List Copy → List Name
names_since tag [] = []
names_since tag (c ∷ cs) =
    if leb tag c.name.day then c.name ∷ names_since tag cs else names_since tag cs

unfoldable pub latest_backup_since : ℕ → List Copy → Option Name
latest_backup_since tag cs = last_name (names_since tag cs)

-- The name and the base that `_clickhouse_backup` chooses on a day; FULL_EVERY_DAYS is 7.
unfoldable pub choose_backup : ℕ → List Copy → Copy
choose_backup day cs = elim (latest_full cs) [
  | none ↦ record { name = record { kind = full; day = day }; base = none }
  | some tag ↦
      if leb_ℤ (pos 7) (pos day -ℤ pos tag)
      then record { name = record { kind = full; day = day }; base = none }
      else record { name = record { kind = incr; day = day }; base = latest_backup_since tag cs }
]

-- `_clickhouse_backup`: an existing directory is left alone. The newest one stands first.
unfoldable pub clickhouse_backup : ℕ → List Copy → List Copy
clickhouse_backup day cs = let c = choose_backup day cs in if has c.name cs then cs else c ∷ cs

-- `sort -u`
abbrev pub insert_day : ℕ → List ℕ → List ℕ
insert_day d [] = d ∷ []
insert_day d (e ∷ es) =
    if ltb d e then d ∷ e ∷ es else if d == e then e ∷ es else e ∷ insert_day d es

abbrev pub sort_days : List ℕ → List ℕ
sort_days [] = []
sort_days (d ∷ ds) = insert_day d (sort_days ds)

-- `tail -n`
abbrev pub tail_days : ℕ → List ℕ → List ℕ
tail_days n ds = drop (length ds - n) ds

-- `grep -qx`
abbrev pub has_day : ℕ → List ℕ → Bool
has_day d [] = false
has_day d (e ∷ es) = e == d || has_day d es

abbrev pub keep_fulls : List ℕ → List Copy → List Copy
keep_fulls kept cs = keep_if (λ c. not (is_full c.name) || has_day c.name.day kept) cs

-- Increments older than a full one are removed; without one, the comparison fails and none is.
abbrev pub keep_incrs : Option ℕ → List Copy → List Copy
keep_incrs none cs = cs
keep_incrs (some latest) cs = keep_if (λ c. is_full c.name || leb latest c.name.day) cs

-- `free_remote_space`: the two latest full backups of both sides stay; FULL_KEEP_REMOTE is 2.
-- Where no full backup is local, listing them fails and with it the task.
unfoldable pub free_remote_space : List Copy → List Copy → Option (List Copy)
free_remote_space local remote = elim (latest_full local) [
  | none ↦ none
  | some _ ↦
      some (keep_fulls (tail_days 2 (sort_days (full_days remote ++ full_days local))) remote)
]

-- `sync_to_oracle`: rsync without --delete.
unfoldable pub sync_to_oracle : List Copy → List Copy → List Copy
sync_to_oracle local remote = local ++ keep_if (λ c. not (has c.name local)) remote

unfoldable pub apply_remote_retention : List Copy → List Copy
apply_remote_retention remote =
    let kept = tail_days 2 (sort_days (full_days remote)) in
    keep_incrs (latest_day kept) (keep_fulls kept remote)

-- `prune_local`, which fails where there is no full backup.
unfoldable pub prune_local : List Copy → Option (List Copy)
prune_local local = elim (latest_full local) [
  | none ↦ none
  | some latest ↦
      some (keep_incrs (some latest) (keep_fulls (tail_days 1 (sort_days (full_days local))) local))
]

-- `verify_remote_in_sync`
unfoldable pub verify_remote : List Copy → List Copy → Bool
verify_remote [] remote = true
verify_remote (c ∷ cs) remote = has c.name remote && verify_remote cs remote
