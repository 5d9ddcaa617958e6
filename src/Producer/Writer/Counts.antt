-- ===== src/Producer/Writer/Counts.antt =====
-- What the statistics of the writer count, and what `insert_direct` does with failing batches.
use crypto_cdc_pipeline.Base.{
  ℕ, zero, suc, ◌+◌, ◌≤◌, ◌<◌, ◌≡◌, refl, ap, sym, ◌∙◌, Bool, true, false, Option, none, some, List,
  [], ◌∷◌, ◌++◌, length, is_empty, take, drop, take-append-drop, length-append, length-drop,
  append_assoc, append-nil, arith, Option-cases, inl, inr, is_some,
}
use crypto_cdc_pipeline.Base.Int.{ℤ, pos, pos_part, neg_part, ◌+ℤ◌, ◌-ℤ◌, int_laws}
use crypto_cdc_pipeline.Producer.Writer.{
  Env, Writer, Reply, committed, failed, Pass, next, stopped, raised, settle, flush_pass,
  flush_loop, flush, reconnect, warn_depth, warn_after, direct_loop, insert_direct, count_error,
}
use crypto_cdc_pipeline.Producer.Writer.Conserve.{pop_batch_lem}

module _ {Row : Type 0} where
  -- The inserted and the duplicate rows together are the rows of the committed batches.
  abbrev pub IsCounted : Writer Row → Type 0
  IsCounted w = pos w.stats.inserted +ℤ w.stats.duplicates ≡ pos (length w.log)

  abbrev Counted : Pass Row → Type 0
  Counted (next _ w) = IsCounted w
  Counted (stopped w) = IsCounted w
  Counted (raised w) = IsCounted w

  count_insert-sum :
      (batch log : List Row) (i n : ℕ) (d : ℤ)
      → pos i +ℤ d ≡ pos (length log)
      → pos (i + n) +ℤ (d +ℤ (pos (length batch) -ℤ pos n)) ≡ pos (length (log ++ batch))
  count_insert-sum batch log i n d h =
      rw length-append (omega (int_laws, ap pos_part h, ap neg_part h))

  settle-Counted :
      (batch : List Row) (w : Writer Row) (r : Reply) → IsCounted w → Counted (settle batch w r)
  unfolding settle
  settle-Counted batch w (committed n) h =
      count_insert-sum batch w.log w.stats.inserted n w.stats.duplicates h
  settle-Counted batch w (failed false alive accepts) h = h
  settle-Counted batch w (failed true true accepts) h = h
  settle-Counted batch w (failed true false accepts) h = elim (Option-cases (reconnect accepts)) [
    | inl dead ↦ rw dead h
    | inr (k, up) ↦ rw up h
  ]

all_duplicates : (d : ℤ) (n : ℕ) → d +ℤ (pos n -ℤ pos 0) ≡ d +ℤ pos n
all_duplicates d n = omega int_laws

module _ {Row : Type 0} (e : Env Row) where
  flush_pass-Counted : (w : Writer Row) → IsCounted w → Counted (flush_pass e w)
  unfolding flush_pass
  flush_pass-Counted w h = rw (pop_batch_lem e.batch_size [] w.buffer) (
      settle-Counted (take e.batch_size w.buffer)
        (record w { buffer = drop e.batch_size w.buffer; calls = w.calls + 1 })
        (e.db w.calls (take e.batch_size w.buffer)) h)

  flush_loop-Counted :
      (left total : ℕ) (w : Writer Row) → IsCounted w → IsCounted (flush_loop e left total w).1
  unfolding flush_loop
  flush_loop-Counted zero total w h = h
  flush_loop-Counted (suc left) total w h =
      go (is_empty w.buffer) (flush_pass e w) (flush_pass-Counted w h) (flush_loop-Counted left)
    where
      go :
          (empty : Bool) (p : Pass Row)
          → Counted p
          → ((n : ℕ) (w' : Writer Row) → IsCounted w' → IsCounted (flush_loop e left n w').1)
          → IsCounted (
              let out : Option ℕ × Writer Row = elim empty [
                | true ↦ (some total, w)
                | false ↦ elim p [
                  | next affected w' ↦ flush_loop e left (total + affected) w'
                  | stopped w' ↦ (some total, w')
                  | raised w' ↦ (none, w')
                ]
              ] in
              out.1)
      go true p c ih = h
      go false (next n w') c ih = ih (total + n) w' c
      go false (stopped w') c ih = c
      go false (raised w') c ih = c

  -- Whatever MySQL answers, a flush keeps the count: rows reported as inserted plus rows reported
  -- as duplicates are exactly the rows of the batches that were committed.
  pub flush-IsCounted :
      (now later : ℕ) (w : Writer Row) → IsCounted w → IsCounted (flush e now later w).1
  unfolding flush warn_after warn_depth
  flush-IsCounted now later w h =
      go (flush_loop e e.max_batches 0 w) (flush_loop-Counted e.max_batches 0 w h)
    where
      go : (r : Option ℕ × Writer Row) → IsCounted r.1 → IsCounted (warn_after e now later r).1
      go (some total, w') c = ground (arith, c)
      go (none, w') c = c

  -- MySQL commits every batch.
  abbrev pub AllCommitted : Type 0
  AllCommitted = (n : ℕ) (rows : List Row) → (affected : ℕ) × (e.db n rows ≡ committed affected)

  -- MySQL refuses every batch and the connection stays up.
  abbrev pub AllRefused : Type 0
  AllRefused =
      (n : ℕ) (rows : List Row) → (accepts : ℕ → Bool) × (e.db n rows ≡ failed true true accepts)

  direct_loop-refused :
      AllRefused
      → (fuel : ℕ) (rows : List Row) (inserted : ℕ) (w : Writer Row)
      → let (r, w') = direct_loop e fuel rows inserted w in
        (r ≡ some inserted)
        × (w'.log ≡ w.log)
        × (w'.buffer ≡ w.buffer)
        × (w'.stats.inserted ≡ w.stats.inserted)
        × (w'.stats.duplicates ≡ w.stats.duplicates)
  unfolding direct_loop
  direct_loop-refused all zero rows inserted w = (refl, refl, refl, refl, refl)
  direct_loop-refused all (suc fuel) [] inserted w = (refl, refl, refl, refl, refl)
  direct_loop-refused all (suc fuel) (x ∷ rows) inserted w =
      rw ((all w.calls (take e.batch_size (x ∷ rows))).1, direct_loop)
        (direct_loop-refused all fuel (drop e.batch_size (x ∷ rows)) inserted
          (record w { calls = w.calls + 1; stats = count_error w.stats }))

  -- If MySQL refuses every batch of a gap-fill, `insert_direct` writes nothing, keeps nothing for
  -- a retry, returns 0 without an exception, and adds all of the rows to the duplicates.
  pub insert_direct-refused :
      AllRefused
      → 0 < e.batch_size
      → (rows : List Row) (w : Writer Row)
      → let (r, w') = insert_direct e rows w in
        (r ≡ some 0)
        × (w'.log ≡ w.log)
        × (w'.buffer ≡ w.buffer)
        × (w'.stats.inserted ≡ w.stats.inserted)
        × (w'.stats.duplicates ≡ w.stats.duplicates +ℤ pos (length rows))
  unfolding insert_direct
  insert_direct-refused all some_size rows w =
      let (a, b, c, d, f) = direct_loop-refused all (length rows) rows 0 w in
      ground (arith, a, b, c, d, f, all_duplicates w.stats.duplicates (length rows))

  direct_loop-committed :
      AllCommitted
      → 0 < e.batch_size
      → (fuel : ℕ) (rows : List Row) (inserted : ℕ) (w : Writer Row) → length rows ≤ fuel
      → let (r, w') = direct_loop e fuel rows inserted w in
        (is_some r ≡ true) × (w'.log ≡ w.log ++ rows) × (w'.buffer ≡ w.buffer)
  unfolding direct_loop
  direct_loop-committed all some_size zero [] inserted w fits = (refl, sym (append-nil w.log), refl)
  direct_loop-committed all some_size zero (x ∷ rows) inserted w fits = absurd (omega arith)
  direct_loop-committed all some_size (suc fuel) [] inserted w fits =
      (refl, sym (append-nil w.log), refl)
  direct_loop-committed all some_size (suc fuel) (x ∷ rows) inserted w fits =
      let batch = take e.batch_size (x ∷ rows) in
      let rest = drop e.batch_size (x ∷ rows) in
      let (n, c) = all w.calls batch in
      let w' : Writer Row = record w { calls = w.calls + 1; log = w.log ++ batch } in
      let (a, b, d) =
        direct_loop-committed all some_size fuel rest (inserted + n) w'
          (omega (arith, length-drop e.batch_size (x ∷ rows))) in
      rw (c, direct_loop)
        (
          a,
          b
              ∙ (append_assoc w.log batch rest
                  ∙ ap (λ l. w.log ++ l) (take-append-drop e.batch_size (x ∷ rows))),
          d,
        )

  -- If MySQL commits every batch, a gap-fill writes all of its rows, in order, past the buffer.
  pub insert_direct-committed :
      AllCommitted
      → 0 < e.batch_size
      → (rows : List Row) (w : Writer Row)
      → let (r, w') = insert_direct e rows w in
        (is_some r ≡ true) × (w'.log ≡ w.log ++ rows) × (w'.buffer ≡ w.buffer)
  unfolding insert_direct
  insert_direct-committed all some_size rows w =
      let (a, b, c) = direct_loop-committed all some_size (length rows) rows 0 w (omega arith) in
      ground (arith, a, b, c)
