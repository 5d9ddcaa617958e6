-- ===== src/Onboard.antt =====
-- scripts/ops/onboard_table.py: a table is taken into the pipeline, or out of it. What `main` does
-- is a list of effects on the connector, Kafka, ClickHouse and two files of the repository.
pub mod Names
pub mod Columns
pub mod Stored
pub mod Backed
pub mod Erased
pub mod Undo
mod Tests
use Prim.Native.Char.{code}
use Prim.Native.String
use crypto_cdc_pipeline.Base.{
  ℕ, zero, suc, String, str_eq, Bool, true, false, not, ◌&&◌, ◌||◌, ◌==◌, Option, none, some, List,
  [], ◌∷◌, ◌++◌, keep_if, if◌then◌else◌,
}

-- A column as information_schema tells it.
pub record Column : Type 0 where
  pub name : String
  pub pk : Bool

pub record Args : Type 0 where
  pub table : String
  pub dry_run : Bool
  pub no_snapshot : Bool
  pub remove : Bool

-- What MySQL and Kafka Connect answer.
pub record Source : Type 0 where
  pub cols : List Column
  pub binlog_row : Bool
  pub signal : Bool
  pub running : Bool

-- A line of kafka-topics.sh: of a topic of a table, the one the script looks for, or another.
pub data Line : Type 0 where
  topic_line : String → Line
  anchor_line : Line
  other_line : ℕ → Line

-- A source of sources.yml: that of a table, or the one of binance_trades.
pub data Section : Type 0 where
  table_section : String → Section
  anchor_section : Section

-- `db, table = a.table.split(".")`: the name without the database. A name has one full stop; on
-- any other, `main` raises there, before it has done anything.
unfoldable pub bare : String → String
bare String.[] = ""
bare (String.◌∷◌ c s) = if code c == b'.' then s else bare s

-- The topic of a table has its full name, in kafka-topics.sh too; the three objects of ClickHouse
-- and the source of dbt have the name without the database.
pub record World : Type 0 where
  pub include : List String
  pub topics : List String
  pub targets : List String
  pub queues : List String
  pub views : List String
  pub topics_sh : List Line
  pub sources_yml : List Section
  pub signals : List String

abbrev pub has : String → List String → Bool
has t [] = false
has t (x ∷ xs) = str_eq x t || has t xs

-- IF NOT EXISTS
abbrev pub add_once : String → List String → List String
add_once t xs = if has t xs then xs else xs ++ (t ∷ [])

abbrev pub without : String → List String → List String
without t xs = keep_if (λ x. not (str_eq x t)) xs

abbrev pub is_topic_line : String → Line → Bool
is_topic_line t (topic_line u) = str_eq u t
is_topic_line t anchor_line = false
is_topic_line t (other_line n) = false

abbrev pub has_topic_line : String → List Line → Bool
has_topic_line t [] = false
has_topic_line t (l ∷ ls) = is_topic_line t l || has_topic_line t ls

abbrev pub has_anchor : List Line → Bool
has_anchor [] = false
has_anchor (anchor_line ∷ ls) = true
has_anchor (topic_line u ∷ ls) = has_anchor ls
has_anchor (other_line n ∷ ls) = has_anchor ls

-- After the line of the anchor.
abbrev pub insert_topic_line : String → List Line → List Line
insert_topic_line t [] = []
insert_topic_line t (anchor_line ∷ ls) = anchor_line ∷ topic_line t ∷ ls
insert_topic_line t (topic_line u ∷ ls) = topic_line u ∷ insert_topic_line t ls
insert_topic_line t (other_line n ∷ ls) = other_line n ∷ insert_topic_line t ls

abbrev pub is_section : String → Section → Bool
is_section t (table_section u) = str_eq u t
is_section t anchor_section = false

abbrev pub has_section : String → List Section → Bool
has_section t [] = false
has_section t (s ∷ ss) = is_section t s || has_section t ss

-- `s.replace(anchor, block + anchor, 1)`, which leaves a file without the anchor as it is.
abbrev pub insert_section : String → List Section → List Section
insert_section t [] = []
insert_section t (anchor_section ∷ ss) = table_section t ∷ anchor_section ∷ ss
insert_section t (table_section u ∷ ss) = table_section u ∷ insert_section t ss

pub data Effect : Type 0 where
  write_topic_line create_topic create_target create_queue create_view : String → Effect
  put_include : List String → Effect
  send_signal write_section : String → Effect
  drop_view drop_queue drop_target delete_topic erase_topic_line erase_section : String → Effect

unfoldable pub apply : Effect → World → World
apply (write_topic_line t) w = record w { topics_sh = insert_topic_line t w.topics_sh }
apply (create_topic t) w = record w { topics = add_once t w.topics }
apply (create_target t) w = record w { targets = add_once t w.targets }
apply (create_queue t) w = record w { queues = add_once t w.queues }
apply (create_view t) w = record w { views = add_once t w.views }
apply (put_include ts) w = record w { include = ts }
apply (send_signal t) w = record w { signals = t ∷ w.signals }
apply (write_section t) w = record w { sources_yml = insert_section t w.sources_yml }
apply (drop_view t) w = record w { views = without t w.views }
apply (drop_queue t) w = record w { queues = without t w.queues }
apply (drop_target t) w = record w { targets = without t w.targets }
apply (delete_topic t) w = record w { topics = without t w.topics }
apply (erase_topic_line t) w = record w {
  topics_sh = keep_if (λ l. not (is_topic_line t l)) w.topics_sh;
}
apply (erase_section t) w = record w {
  sources_yml = keep_if (λ s. not (is_section t s)) w.sources_yml;
}

abbrev pub perform : List Effect → World → World
perform [] w = w
perform (e ∷ es) w = perform es (apply e w)

pub data Exit : Type 0 where
  finished no_table no_key not_row already_included no_signal dry no_anchor not_running : Exit

abbrev pub has_key : List Column → Bool
has_key [] = false
has_key (c ∷ cs) = c.pk || has_key cs

abbrev pub is_empty : List Column → Bool
is_empty [] = true
is_empty (c ∷ cs) = false

-- The branch of --remove.
unfoldable pub removal : Args → World → List Effect × Exit
removal a w =
    let t = a.table in
    if a.dry_run then ([], dry) else (
      (if has t w.include then put_include (without t w.include) ∷ [] else [])
          ++ (drop_view (bare t)
              ∷ drop_queue (bare t)
              ∷ drop_target (bare t)
              ∷ delete_topic t
              ∷ erase_topic_line t
              ∷ erase_section (bare t)
              ∷ []),
      finished,
    )

-- From the definition of the topic on.
unfoldable pub installation : Args → Source → World → List Effect × Exit
installation a s w =
    let t = a.table in
    let known = has_topic_line t w.topics_sh in
    if not known && not (has_anchor w.topics_sh)
    then ([], no_anchor)
    else let begin =
        (if known then [] else write_topic_line t ∷ [])
        ++ (create_topic t
            ∷ create_target (bare t)
            ∷ create_queue (bare t)
            ∷ create_view (bare t)
            ∷ put_include (w.include ++ (t ∷ []))
            ∷ []) in
      if s.running
      then (
        begin
            ++ ((if a.no_snapshot then [] else send_signal t ∷ [])
                ++ (if has_section (bare t) w.sources_yml
                    then []
                    else write_section (bare t) ∷ [])),
        finished,
      )
      else (begin, not_running)

-- `main`, without --dml-check and the counts that are only printed.
unfoldable pub onboard : Args → Source → World → List Effect × Exit
onboard a s w =
    if a.remove
    then removal a w
    else if is_empty s.cols
    then ([], no_table)
    else if not (has_key s.cols)
    then ([], no_key)
    else if not s.binlog_row
    then ([], not_row)
    else if has a.table w.include
    then ([], already_included)
    else if not s.signal && not a.no_snapshot
    then ([], no_signal)
    else if a.dry_run
    then ([], dry)
    else installation a s w
