-- ===== src/Producer/Writer/Close.antt =====
-- When `close`, the loop that flushes until the buffer is empty, ends.
use crypto_cdc_pipeline.Base.{
  ℕ, zero, suc, ◌+◌, ◌-◌, ◌≤◌, ◌<◌, ◌≡◌, refl, ap, sym, ◌∙◌, true, false, Option, none, some, List,
  [], ◌∷◌, ◌++◌, length, is_empty, is_some, take, drop, take-append-drop, length-drop, append_assoc,
  append-nil, arith, Bool-cases, inl, inr, ◌≢◌,
}
use crypto_cdc_pipeline.Producer.Writer.{
  Env, Writer, committed, next, stopped, settle, flush_pass, flush_loop, flush, warn_depth,
  warn_after, count_insert, count_error, close, closed, running, Closing,
}
use crypto_cdc_pipeline.Producer.Writer.Conserve.{
  pop_batch_lem, Delivers, Conserves, flush-Conserves,
}
use crypto_cdc_pipeline.Producer.Writer.Counts.{AllCommitted, AllRefused}

module _ {Row : Type 0} (e : Env Row) where
  abbrev after_commit : ℕ → Writer Row → Writer Row
  after_commit n w = record w {
    buffer = drop e.batch_size w.buffer;
    calls = w.calls + 1;
    log = w.log ++ take e.batch_size w.buffer;
    stats = count_insert (take e.batch_size w.buffer) n w.stats;
  }

  flush_pass-committed :
      (w : Writer Row) (n : ℕ)
      → e.db w.calls (take e.batch_size w.buffer) ≡ committed n
      → flush_pass e w ≡ next n (after_commit n w)
  unfolding flush_pass settle
  flush_pass-committed w n c = rw pop_batch_lem (rw c)

  flush_loop-committed :
      AllCommitted e
      → 0 < e.batch_size
      → (left total : ℕ) (w : Writer Row)
      → let (r, w') = flush_loop e left total w in
        (is_some r ≡ true) × (length w'.buffer ≤ length w.buffer - left)
  unfolding flush_loop
  flush_loop-committed all some_size zero total w = (refl, omega arith)
  flush_loop-committed all some_size (suc left) total w =
      let (n, c) = all w.calls (take e.batch_size w.buffer) in
      let (a, b) = flush_loop-committed all some_size left (total + n) (after_commit n w) in
      go w.buffer refl n (flush_pass-committed w n c) a b
    where
      go :
          (buffer : List Row)
          → w.buffer ≡ buffer
          → (n : ℕ) → flush_pass e w ≡ next n (after_commit n w)
          → is_some (flush_loop e left (total + n) (after_commit n w)).0 ≡ true
          → length (flush_loop e left (total + n) (after_commit n w)).1.buffer
            ≤ length (drop e.batch_size w.buffer) - left
          → let (r, w') = flush_loop e (suc left) total w in
            (is_some r ≡ true) × (length w'.buffer ≤ length w.buffer - suc left)
      go [] h n p a b = rw (h, flush_loop) (refl, rw h (omega arith))
      go (x ∷ rest) h n p a b =
          rw (h, flush_loop)
            (rw p (a, omega (arith, b, length-drop e.batch_size w.buffer, ap length h)))

  flush-committed :
      AllCommitted e
      → 0 < e.batch_size
      → (now later : ℕ) (w : Writer Row)
      → let (r, w') = flush e now later w in
        (is_some r ≡ true) × (length w'.buffer ≤ length w.buffer - e.max_batches)
  unfolding flush warn_after warn_depth
  flush-committed all some_size now later w =
      go (flush_loop e e.max_batches 0 w) (flush_loop-committed all some_size e.max_batches 0 w)
    where
      go :
          (r : Option ℕ × Writer Row)
          → (is_some r.0 ≡ true) × (length r.1.buffer ≤ length w.buffer - e.max_batches)
          → (is_some (warn_after e now later r).0 ≡ true)
            × (length (warn_after e now later r).1.buffer ≤ length w.buffer - e.max_batches)
      go (some total, w') (a, b) = (refl, ground (arith, b))
      go (none, w') (a, b) = cc

  is_empty-full : (buffer : List Row) → buffer ≢ [] → is_empty buffer ≡ false
  is_empty-full [] full = absurd (full refl)
  is_empty-full (x ∷ rest) full = refl

  delivered : {w w' : Writer Row} → Delivers w w' [] → w'.log ++ w'.buffer ≡ w.log ++ w.buffer
  delivered {w} {w'} d =
      rw d.logged (append_assoc w.log d.sent w'.buffer ∙ ap (λ l. w.log ++ l) (sym d.ordered))

  -- If MySQL commits every batch, `close` ends with an empty buffer after at most as many flushes
  -- as there are rows, and every row of the buffer is committed, in order.
  pub close_drains :
      AllCommitted e
      → 0 < e.batch_size
      → 0 < e.max_batches
      → (fuel : ℕ) (times : ℕ → ℕ × ℕ) (w : Writer Row) → length w.buffer < fuel
      → (w' : Writer Row) × (close e fuel times w ≡ closed w')
        × (w'.buffer ≡ [])
        × (w'.log ≡ w.log ++ w.buffer)
  unfolding close
  close_drains all some_size some_batches zero times w fits = absurd (omega arith)
  close_drains all some_size some_batches (suc fuel) times w fits =
      go w.buffer refl (flush e (times fuel).0 (times fuel).1 w)
        (flush-committed all some_size (times fuel).0 (times fuel).1 w)
        (flush-Conserves e (times fuel).0 (times fuel).1 w) refl
        (close_drains all some_size some_batches fuel times)
    where
      Ends : Writer Row → Closing Row → Type 0
      Ends w c =
          (w' : Writer Row) × (c ≡ closed w') × (w'.buffer ≡ []) × (w'.log ≡ w.log ++ w.buffer)

      go :
          (buffer : List Row)
          → w.buffer ≡ buffer
          → (r : Option ℕ × Writer Row)
          → (is_some r.0 ≡ true) × (length r.1.buffer ≤ length w.buffer - e.max_batches)
          → Conserves e w r
          → flush e (times fuel).0 (times fuel).1 w ≡ r
          → ((w' : Writer Row) → length w'.buffer < fuel → Ends w' (close e fuel times w'))
          → Ends w (close e (suc fuel) times w)
      go [] h r b d f ih = (w, rw (ap is_empty h, close) refl, h, rw h (sym (append-nil w.log)))
      go (x ∷ rest) h (none, w₁) (ok, b) d f ih = cc
      go (x ∷ rest) h (some n, w₁) (ok, b) d f ih =
          let (w', ends, empty, logged) = ih w₁ (omega (arith, b, ap length h)) in
          (
            w',
            rw (ap is_empty h, close) (rw (ap (λ r. r.0) f, ap (λ r. r.1) f) ends),
            empty,
            logged ∙ delivered d,
          )

  flush_pass-refused :
      AllRefused e
      → (w : Writer Row)
      → (w' : Writer Row) × (flush_pass e w ≡ stopped w')
        × (w'.buffer ≡ w.buffer)
        × (w'.log ≡ w.log)
  unfolding flush_pass settle
  flush_pass-refused all w =
      let batch = take e.batch_size w.buffer in
      let (accepts, r) = all w.calls batch in
      (
        record w {
          buffer = batch ++ drop e.batch_size w.buffer;
          calls = w.calls + 1;
          stats = count_error w.stats;
        },
        rw pop_batch_lem (rw r),
        take-append-drop e.batch_size w.buffer,
        refl,
      )

  abbrev Unchanged : Writer Row → Option ℕ × Writer Row → Type 0
  Unchanged w (r, w') = (is_some r ≡ true) × (w'.buffer ≡ w.buffer) × (w'.log ≡ w.log)

  flush_loop-refused :
      AllRefused e → (left total : ℕ) (w : Writer Row) → Unchanged w (flush_loop e left total w)
  unfolding flush_loop
  flush_loop-refused all zero total w = (refl, refl, refl)
  flush_loop-refused all (suc left) total w =
      let (w₁, p, b, l) = flush_pass-refused all w in
      elim (Bool-cases (is_empty w.buffer)) [
        | inl empty ↦ rw (empty, flush_loop) (refl, refl, refl)
        | inr full ↦ rw (full, flush_loop) (rw p (refl, b, l))
      ]

  flush-refused :
      AllRefused e → (now later : ℕ) (w : Writer Row) → Unchanged w (flush e now later w)
  unfolding flush warn_after warn_depth
  flush-refused all now later w =
      go (flush_loop e e.max_batches 0 w) (flush_loop-refused all e.max_batches 0 w)
    where
      go : (r : Option ℕ × Writer Row) → Unchanged w r → Unchanged w (warn_after e now later r)
      go (some total, w') (a, b, c) = (refl, ground (arith, b), ground (arith, c))
      go (none, w') (a, b, c) = cc

  -- If MySQL refuses every batch while the connection stays up, `close` never ends: after any
  -- number of flushes it is still running, with the same buffer and nothing more committed.
  pub close-refused :
      AllRefused e
      → (fuel : ℕ) (times : ℕ → ℕ × ℕ) (w : Writer Row) → w.buffer ≢ []
      → (w' : Writer Row) × (close e fuel times w ≡ running w')
        × (w'.buffer ≡ w.buffer)
        × (w'.log ≡ w.log)
  unfolding close
  close-refused all zero times w full = (w, refl, refl, refl)
  close-refused all (suc fuel) times w full =
      go (flush e (times fuel).0 (times fuel).1 w) refl
        (flush-refused all (times fuel).0 (times fuel).1 w) (close-refused all fuel times)
    where
      Runs : Writer Row → Closing Row → Type 0
      Runs w c = (w' : Writer Row) × (c ≡ running w') × (w'.buffer ≡ w.buffer) × (w'.log ≡ w.log)

      go :
          (r : Option ℕ × Writer Row)
          → flush e (times fuel).0 (times fuel).1 w ≡ r
          → Unchanged w r
          → ((w' : Writer Row) → w'.buffer ≢ [] → Runs w' (close e fuel times w'))
          → Runs w (close e (suc fuel) times w)
      go (none, w₁) f (ok, b, l) ih = cc
      go (some n, w₁) f (ok, b, l) ih =
          let (w', runs, b', l') = ih w₁ (λ h. full (sym b ∙ h)) in
          (
            w',
            rw (is_empty-full w.buffer full, close) (rw (ap (λ r. r.0) f, ap (λ r. r.1) f) runs),
            b' ∙ b,
            l' ∙ l,
          )
