-- ===== src/Producer/Writer/Conserve.antt =====
-- No row that enters the writer disappears, but for the batch in hand when an exception escapes.
use crypto_cdc_pipeline.Base.{
  ℕ, zero, suc, ◌+◌, ◌≤◌, ◌≡◌, refl, ap, sym, ◌∙◌, Bool, true, false, Option, none, some, List, [],
  ◌∷◌, ◌++◌, length, is_empty, take, drop, take-append-drop, length-take, append_assoc, append-nil,
  arith, Option-cases, inl, inr,
}
use crypto_cdc_pipeline.Producer.Writer.{
  Env, Writer, Reply, committed, failed, Pass, next, stopped, raised, pop_batch, settle, flush_pass,
  flush_loop, flush, reconnect, warn_depth, warn_after,
}

module _ {Row : Type 0} where
  pub pop_batch_lem :
      (room : ℕ) (batch buffer : List Row)
      → pop_batch room batch buffer ≡ (batch ++ take room buffer, drop room buffer)
  unfolding pop_batch
  pop_batch_lem zero batch buffer = rw append-nil
  pop_batch_lem (suc room) batch [] = rw append-nil
  pop_batch_lem (suc room) batch (x ∷ buffer) =
      pop_batch_lem room (batch ++ x ∷ []) buffer ∙ simp append_assoc

  -- From `w` to `w'` the rows `sent` moved from the front of the buffer to the log, in order, and
  -- the rows `lost` behind them are in neither.
  pub record Delivers (w w' : Writer Row) (lost : List Row) : Type 0 where
    pub sent : List Row
    pub logged : w'.log ≡ w.log ++ sent
    pub ordered : w.buffer ≡ sent ++ (lost ++ w'.buffer)

  Delivers-trans :
      {w w' w'' : Writer Row} {lost : List Row}
      → Delivers w w' []
      → Delivers w' w'' lost
      → Delivers w w'' lost
  Delivers-trans {w} {w'} {w''} {lost} p q = record {
    sent = p.sent ++ q.sent;
    logged = q.logged ∙ (rw p.logged (append_assoc w.log p.sent q.sent));
    ordered =
        p.ordered
        ∙ (ap (λ l. p.sent ++ l) q.ordered ∙ sym (append_assoc p.sent q.sent (lost ++ w''.buffer)));
  }

  abbrev Keeps : ℕ → Writer Row → Pass Row → Type 0
  Keeps size w (next _ w') = Delivers w w' []
  Keeps size w (stopped w') = Delivers w w' []
  Keeps size w (raised w') = (lost : List Row) × Delivers w w' lost × (length lost ≤ size)

  settle-Keeps :
      (size : ℕ) (batch : List Row) (w w₀ : Writer Row) (r : Reply)
      → w₀.buffer ≡ batch ++ w.buffer
      → w₀.log ≡ w.log
      → length batch ≤ size
      → Keeps size w₀ (settle batch w r)
  unfolding settle
  settle-Keeps size batch w w₀ (committed n) h l fits = record {
    sent = batch;
    logged = ap (λ x. x ++ batch) (sym l);
    ordered = h;
  }
  settle-Keeps size batch w w₀ (failed false alive accepts) h l fits =
      (batch, record { sent = []; logged = sym l ∙ sym (append-nil w₀.log); ordered = h }, fits)
  settle-Keeps size batch w w₀ (failed true true accepts) h l fits = record {
    sent = [];
    logged = sym l ∙ sym (append-nil w₀.log);
    ordered = h;
  }
  settle-Keeps size batch w w₀ (failed true false accepts) h l fits =
      elim (Option-cases (reconnect accepts)) [
        | inl dead ↦ rw dead (
          batch,
          record { sent = []; logged = sym l ∙ sym (append-nil w₀.log); ordered = h },
          fits,
        )
        | inr (k, up) ↦
            rw up (record { sent = []; logged = sym l ∙ sym (append-nil w₀.log); ordered = h })
      ]

module _ {Row : Type 0} (e : Env Row) where
  flush_pass-Keeps : (w : Writer Row) → Keeps e.batch_size w (flush_pass e w)
  unfolding flush_pass
  flush_pass-Keeps w = rw (pop_batch_lem e.batch_size [] w.buffer) (
      settle-Keeps e.batch_size (take e.batch_size w.buffer)
        (record w { buffer = drop e.batch_size w.buffer; calls = w.calls + 1 }) w
        (e.db w.calls (take e.batch_size w.buffer)) (sym (take-append-drop e.batch_size w.buffer))
        refl (omega (arith, length-take e.batch_size w.buffer)))

  -- What holds of the outcome of `flush` and of its loop, begun at `w`.
  abbrev pub Conserves : Writer Row → Option ℕ × Writer Row → Type 0
  Conserves w (some _, w') = Delivers w w' []
  Conserves w (none, w') = (lost : List Row) × Delivers w w' lost × (length lost ≤ e.batch_size)

  Delivers-refl : (w : Writer Row) → Delivers w w []
  Delivers-refl w = record { sent = []; logged = sym (append-nil w.log); ordered = refl }

  Conserves-trans :
      {w w' : Writer Row} (r : Option ℕ × Writer Row)
      → Delivers w w' []
      → Conserves w' r
      → Conserves w r
  Conserves-trans (some n, w'') p q = Delivers-trans p q
  Conserves-trans (none, w'') p (lost, q, fits) = (lost, Delivers-trans p q, fits)

  flush_loop-Conserves : (left total : ℕ) (w : Writer Row) → Conserves w (flush_loop e left total w)
  unfolding flush_loop
  flush_loop-Conserves zero total w = Delivers-refl w
  flush_loop-Conserves (suc left) total w =
      go (is_empty w.buffer) (flush_pass e w) (flush_pass-Keeps w) (flush_loop-Conserves left)
    where
      go :
          (empty : Bool) (p : Pass Row)
          → Keeps e.batch_size w p
          → ((n : ℕ) (w' : Writer Row) → Conserves w' (flush_loop e left n w'))
          → Conserves w (elim empty [
            | true ↦ (some total, w)
            | false ↦ elim p [
              | next affected w' ↦ flush_loop e left (total + affected) w'
              | stopped w' ↦ (some total, w')
              | raised w' ↦ (none, w')
            ]
          ])
      go true p k ih = Delivers-refl w
      go false (next n w') k ih =
          Conserves-trans (flush_loop e left (total + n) w') k (ih (total + n) w')
      go false (stopped w') k ih = k
      go false (raised w') k ih = k

  warn_depth-Delivers :
      (now later : ℕ) {w w' : Writer Row}
      → Delivers w w' []
      → Delivers w (warn_depth e now later w') []
  unfolding warn_depth
  warn_depth-Delivers now later {w} {w'} d = record {
    sent = d.sent;
    logged = ground (arith, d.logged);
    ordered = ground (arith, d.ordered);
  }

  -- A flush delivers a prefix of the buffer to MySQL, in order, and keeps the rest in the buffer;
  -- only when an exception escapes are rows lost, and then at most one batch, the one in hand.
  pub flush-Conserves : (now later : ℕ) (w : Writer Row) → Conserves w (flush e now later w)
  unfolding flush
  flush-Conserves now later w =
      go (flush_loop e e.max_batches 0 w) (flush_loop-Conserves e.max_batches 0 w)
    where
      go : (r : Option ℕ × Writer Row) → Conserves w r → Conserves w (warn_after e now later r)
      go (some total, w') c = warn_depth-Delivers now later c
      go (none, w') c = c
