-- ===== src/Producer/Writer.antt =====
-- producer/producer.py, `Stats` and `MySQLWriter`: the buffered batch writer.
-- MySQL is a parameter: `Env.db n rows` is its reply to the n-th `executemany` + `commit`.
pub mod Conserve
pub mod Counts
pub mod Close
use crypto_cdc_pipeline.Base.{
  ℕ, zero, suc, ◌+◌, ◌*◌, ◌&&◌, ◌||◌, ◌==◌, is_some, Bool, true, false, not, Option, none, some,
  List, [], ◌∷◌, ◌++◌, ltb, leb, length, is_empty, take, drop, if◌then◌else◌,
}
use crypto_cdc_pipeline.Base.Int.{ℤ, pos, ◌+ℤ◌, ◌-ℤ◌}

pub record Stats : Type 0 where
  pub received : ℕ
  pub inserted : ℕ
  pub duplicates : ℤ
  pub errors : ℕ
  pub last_report : ℕ
  pub last_buffer_warn : ℕ
  pub buffer_depth : ℕ

-- What `executemany` and `commit` do with a batch. `committed n`: n rows were new. `failed
-- rolled_back alive accepts`: a `mysql.connector.Error`; `rolled_back` says that `rollback()`
-- returned, `alive` is `is_connected()`, and `accepts k` that the k-th `connect` call succeeds.
pub data Reply : Type 0 where
  committed : ℕ → Reply
  failed : Bool → Bool → (ℕ → Bool) → Reply

-- The settings of the module and the database that the writer talks to.
pub record Env (Row : Type 0) : Type 0 where
  pub batch_size : ℕ
  pub max_batches : ℕ
  pub warn_rows : ℕ
  pub db : ℕ → List Row → Reply

-- `log` holds the rows of every committed `executemany`, in order, and `calls` counts the calls.
pub record Writer (Row : Type 0) : Type 0 where
  pub buffer : List Row
  pub stats : Stats
  pub log : List Row
  pub calls : ℕ

-- `for attempt in range(1, max_retries + 1)`: the attempt that connects, or the `RuntimeError`.
unfoldable pub connect : ℕ → ℕ → (ℕ → Bool) → Option ℕ
connect zero attempt accepts = none
connect (suc left) attempt accepts =
    let rest = connect left (attempt + 1) accepts in if accepts attempt then some attempt else rest

abbrev pub max_retries : ℕ
max_retries = 30

-- The old connection is closed under `except Exception: pass`, so only `connect` can raise.
unfoldable pub reconnect : (ℕ → Bool) → Option ℕ
unfolding connect
reconnect accepts = connect max_retries 1 accepts

-- How one pass of the loop in `flush` ends: with a commit, by `break`, or by an exception.
pub data Pass (Row : Type 0) : Type 0 where
  next : ℕ → Writer Row → Pass Row
  stopped : Writer Row → Pass Row
  raised : Writer Row → Pass Row

abbrev pub count_error : Stats → Stats
count_error s = record s { errors = s.errors + 1 }

-- `close` has ended, was ended by an exception, or is still flushing when the fuel is gone.
pub data Closing (Row : Type 0) : Type 0 where
  closed aborted running : Writer Row → Closing Row

module _ {Row : Type 0} where
  unfoldable pub add : Row → Writer Row → Writer Row
  add trade w = record w { buffer = w.buffer ++ trade ∷ [] }

  -- `while self.buffer and len(batch) < BATCH_SIZE: batch.append(self.buffer.popleft())`
  unfoldable pub pop_batch : ℕ → List Row → List Row → List Row × List Row
  pop_batch zero batch buffer = (batch, buffer)
  pop_batch (suc room) batch [] = (batch, [])
  pop_batch (suc room) batch (x ∷ buffer) = pop_batch room (batch ++ x ∷ []) buffer

  abbrev pub count_insert : List Row → ℕ → Stats → Stats
  count_insert rows affected s = record s {
    inserted = s.inserted + affected;
    duplicates = s.duplicates +ℤ (pos (length rows) -ℤ pos affected);
  }

  -- `self.buffer.extendleft(reversed(batch))`
  abbrev pub requeue : List Row → Writer Row → Writer Row
  requeue batch w = record w { buffer = batch ++ w.buffer }

  -- The `try` of `flush` for a batch that has left the buffer.
  unfoldable pub settle : List Row → Writer Row → Reply → Pass Row
  settle batch w (committed affected) =
      next affected (record w { log = w.log ++ batch; stats = count_insert batch affected w.stats })
  settle batch w (failed rolled_back alive accepts) =
      let w' = record w { stats = count_error w.stats } in
      if not rolled_back
      then raised w'
      else if alive
      then stopped (requeue batch w')
      else elim (reconnect accepts) [ none ↦ raised w' | some _ ↦ stopped (requeue batch w') ]

module _ {Row : Type 0} (e : Env Row) where
  -- One pass of the outer loop of `flush`.
  unfoldable pub flush_pass : Writer Row → Pass Row
  unfolding pop_batch settle
  flush_pass w =
      let (batch, rest) = pop_batch e.batch_size [] w.buffer in
      settle batch (record w { buffer = rest; calls = w.calls + 1 }) (e.db w.calls batch)

  -- The outer loop: `left` is MAX_BATCHES_PER_FLUSH - batches; `none` is an exception.
  unfoldable pub flush_loop : ℕ → ℕ → Writer Row → Option ℕ × Writer Row
  unfolding flush_pass
  flush_loop zero total w = (some total, w)
  flush_loop (suc left) total w = elim (is_empty w.buffer) [
    | true ↦ (some total, w)
    | false ↦ elim (flush_pass w) [
      | next affected w' ↦ flush_loop left (total + affected) w'
      | stopped w' ↦ (some total, w')
      | raised w' ↦ (none, w')
    ]
  ]

  -- The warning at the end of `flush`, at the two clock readings `now` and `later` (in seconds).
  unfoldable pub warn_depth : ℕ → ℕ → Writer Row → Writer Row
  warn_depth now later w =
      if ltb e.warn_rows (length w.buffer) && leb (w.stats.last_buffer_warn + 60) now
      then record w { stats = record (w.stats) { last_buffer_warn = later } }
      else w

  unfoldable pub warn_after : ℕ → ℕ → Option ℕ × Writer Row → Option ℕ × Writer Row
  unfolding warn_depth
  warn_after now later (none, w) = (none, w)
  warn_after now later (some total, w) = (some total, warn_depth now later w)

  unfoldable pub flush : ℕ → ℕ → Writer Row → Option ℕ × Writer Row
  unfolding flush_loop warn_after
  flush now later w = warn_after now later (flush_loop e.max_batches 0 w)

  -- The loop of `insert_direct` over `rows[i:i + BATCH_SIZE]`; `fuel` bounds the slices. A batch that
  -- fails is skipped; an exception from `rollback` or `reconnect` escapes.
  unfoldable pub direct_loop : ℕ → List Row → ℕ → Writer Row → Option ℕ × Writer Row
  direct_loop zero rows inserted w = (some inserted, w)
  direct_loop (suc fuel) [] inserted w = (some inserted, w)
  direct_loop (suc fuel) (x ∷ rows) inserted w =
      let batch = take e.batch_size (x ∷ rows) in
      let rest = drop e.batch_size (x ∷ rows) in
      let w' = record w { calls = w.calls + 1 } in
      elim (e.db w.calls batch) [
        | committed affected ↦
            direct_loop fuel rest (inserted + affected) (record w' { log = w'.log ++ batch })
        | failed rolled_back alive accepts ↦
            elim (rolled_back && (alive || is_some (reconnect accepts))) [
              | true ↦ direct_loop fuel rest inserted (record w' { stats = count_error w'.stats })
              | false ↦ (none, record w' { stats = count_error w'.stats })
            ]
      ]

  abbrev pub count_direct : List Row → Option ℕ × Writer Row → Option ℕ × Writer Row
  count_direct rows (none, w) = (none, w)
  count_direct rows (some inserted, w) =
      (some inserted, record w { stats = count_insert rows inserted w.stats })

  -- `range(0, len(rows), 0)` raises.
  unfoldable pub insert_direct : List Row → Writer Row → Option ℕ × Writer Row
  insert_direct rows w =
      if e.batch_size == 0
      then (none, w)
      else count_direct rows (direct_loop (length rows) rows 0 w)

  -- `close`: `while self.buffer: self.flush()` on fuel, with the clock readings of each flush.
  -- Closing the connection afterwards ignores every exception.
  unfoldable pub close : ℕ → (ℕ → ℕ × ℕ) → Writer Row → Closing Row
  close zero times w = running w
  close (suc fuel) times w = elim (is_empty w.buffer) [
    | true ↦ closed w
    | false ↦
        let (r, w') = flush (times fuel).0 (times fuel).1 w in
        elim r [ none ↦ aborted w' | some _ ↦ close fuel times w' ]
  ]
